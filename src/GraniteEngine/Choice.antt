-- ===== src/GraniteEngine/Choice.antt =====
-- Which pack of the manifest is run: crates/speakeasy-models/src/selection.rs and `choose_granite_pack`.
use Prim.Native.String.{String}
use speakeasy_granite_rust_m.Base.{
  ℕ, Bool, true, false, not, ◌&&◌, Option, none, some, List, [], ◌∷◌, map, ◌≡◌, ◌≢◌, ◌⊎◌, inl, inr,
  if◌then◌else◌, Result, ok, err, Bool-cases, refl,
}

pub data PackRole : Type 0 where
  streaming_asr final_asr translation vad : PackRole

pub data ExecutionProvider : Type 0 where
  cpu direct_ml cuda : ExecutionProvider

pub record Pack : Type 0 where
  pub id : String
  pub revision : String
  pub role : PackRole
  pub provider : ExecutionProvider
  pub install_eligible : Bool
  pub required_files : List String

abbrev same_role : PackRole → PackRole → Bool
same_role streaming_asr streaming_asr = true
same_role final_asr final_asr = true
same_role translation translation = true
same_role vad vad = true
same_role _ _ = false

abbrev pub same_provider : ExecutionProvider → ExecutionProvider → Bool
same_provider cpu cpu = true
same_provider direct_ml direct_ml = true
same_provider cuda cuda = true
same_provider _ _ = false

pub data RoleSelectionError : Type 0 where
  none_admitted : PackRole → ExecutionProvider → RoleSelectionError
  ambiguous : PackRole → ExecutionProvider → List String → RoleSelectionError

-- Whether a pack fills the role.
abbrev pub fills : PackRole → ExecutionProvider → Pack → Bool
fills role provider p =
    same_role p.role role && same_provider p.provider provider && p.install_eligible

abbrev pub filling : PackRole → ExecutionProvider → List Pack → List Pack
filling role provider [] = []
filling role provider (p ∷ packs) =
    if fills role provider p then p ∷ filling role provider packs else filling role provider packs

abbrev pub sole_of : PackRole → ExecutionProvider → List Pack → Result RoleSelectionError Pack
sole_of role provider [] = err (none_admitted role provider)
sole_of role provider (first ∷ []) = ok first
sole_of role provider (first ∷ second ∷ packs) =
    err (ambiguous role provider (map (λ (p : Pack). p.id) (first ∷ second ∷ packs)))

unfoldable pub select_sole_install_eligible :
    List Pack → PackRole → ExecutionProvider → Result RoleSelectionError Pack
select_sole_install_eligible packs role provider =
    sole_of role provider (filling role provider packs)

-- The capabilities, of which the words with one meaning are left out.
pub record EngineCapabilities : Type 0 where
  pub sample_rate_hz : ℕ
  pub channels : ℕ
  pub runtime : String
  pub runtime_abi : String
  pub provider_name : String
  pub artifact_revision : String
  pub license : String

abbrev cpu_pack_capabilities : EngineCapabilities
cpu_pack_capabilities = record {
  sample_rate_hz = 16000;
  channels = 1;
  runtime = "llama.cpp";
  runtime_abi = "llama-cpp-2-0.1.153-granite";
  provider_name = "cpu";
  artifact_revision = "q4_k_m-2026-05-11";
  license = "Apache-2.0";
}

abbrev pub capabilities_for : ExecutionProvider → Option EngineCapabilities
capabilities_for cpu = some cpu_pack_capabilities
capabilities_for direct_ml = none
capabilities_for cuda = none

pub data EngineChoiceReason : Type 0 where
  probe_preferred cpu_gpu_pack_not_installed cpu_gpu_runtime_missing : EngineChoiceReason

pub record GranitePackChoice : Type 0 where
  pub pack : Pack
  pub capabilities : EngineCapabilities
  pub reason : EngineChoiceReason

-- Why a pack is run where the provider is preferred, by whether the worker was built for a card.
abbrev pub reason_for : ExecutionProvider → Bool → EngineChoiceReason
reason_for cuda true = cpu_gpu_pack_not_installed
reason_for cuda false = cpu_gpu_runtime_missing
reason_for _ _ = probe_preferred

module _ (packs : List Pack) (present : Pack → Bool) where
  abbrev if_present : Result RoleSelectionError Pack → Option Pack
  if_present (err e) = none
  if_present (ok pack) = if present pack then some pack else none

  abbrev with_capabilities : ExecutionProvider → Option EngineCapabilities → Option Pack
  with_capabilities provider none = none
  with_capabilities provider (some c) =
      if_present (select_sole_install_eligible packs final_asr provider)

  -- `installed`.
  abbrev pub installed : ExecutionProvider → Option Pack
  installed provider = with_capabilities provider (capabilities_for provider)

  abbrev chosen :
      ExecutionProvider
      → EngineChoiceReason
      → Option Pack
      → Option (Pack × ExecutionProvider × EngineChoiceReason)
  chosen provider reason none = none
  chosen provider reason (some pack) = some (pack, provider, reason)

  -- What follows the test of the worker's build.
  abbrev prefer :
      ExecutionProvider → Option Pack → Option (Pack × ExecutionProvider × EngineChoiceReason)
  prefer preferred (some pack) = some (pack, preferred, probe_preferred)
  prefer preferred none =
      if same_provider preferred cuda
      then chosen cpu cpu_gpu_pack_not_installed (installed cpu)
      else none

  unfoldable pub choose_granite_pack :
      ExecutionProvider → Bool → Option (Pack × ExecutionProvider × EngineChoiceReason)
  unfolding select_sole_install_eligible
  choose_granite_pack preferred cuda_worker_available =
      if same_provider preferred cuda && not cuda_worker_available
      then chosen cpu cpu_gpu_runtime_missing (installed cpu)
      else prefer preferred (installed preferred)

  -- Why a choice was made, or none.
  abbrev pub Chooses :
      ExecutionProvider → Bool → Option (Pack × ExecutionProvider × EngineChoiceReason) → Type 0
  Chooses preferred available none =
      (preferred ≡ direct_ml)
      ⊎ ((p : Pack) → filling final_asr cpu packs ≡ p ∷ [] → present p ≡ false)
  Chooses preferred available (some (pack, provider, reason)) =
      (provider ≡ cpu)
      × (reason ≡ reason_for preferred available)
      × (preferred ≢ direct_ml)
      × (filling final_asr cpu packs ≡ pack ∷ [])
      × (present pack ≡ true)

  -- What is installed is the one that fills the role.
  abbrev Installed : List Pack → Option Pack → Type 0
  Installed ps none = (p : Pack) → ps ≡ p ∷ [] → present p ≡ false
  Installed ps (some pack) = (ps ≡ pack ∷ []) × (present pack ≡ true)

  installed_lem : (ps : List Pack) → Installed ps (if_present (sole_of final_asr cpu ps))
  installed_lem [] = λ p e. cc
  installed_lem (p ∷ []) = elim (Bool-cases (present p)) [
    | inl a ↦ rw a (refl, a)
    | inr a ↦ rw a (λ q e. cc)
  ]
  installed_lem (p ∷ q ∷ ps) = λ r e. cc

  -- Of the packs the one of the processor is run, and with it the reason, if it alone fills the role
  -- and its files are there, and if no other provider than the processor or a card is preferred.
  pub choose_granite_pack-Chooses :
      (preferred : ExecutionProvider) (available : Bool)
      → Chooses preferred available (choose_granite_pack preferred available)
  unfolding choose_granite_pack select_sole_install_eligible
  choose_granite_pack-Chooses preferred available =
      go preferred available (if_present (sole_of final_asr cpu (filling final_asr cpu packs)))
        (installed_lem (filling final_asr cpu packs)) refl
    where
      go :
          (preferred : ExecutionProvider) (available : Bool) (o : Option Pack)
          → Installed (filling final_asr cpu packs) o
          → installed cpu ≡ o
          → Chooses preferred available (choose_granite_pack preferred available)
      go direct_ml a o i e = inl refl
      go cpu a none i e = rw e (inr i)
      go cpu a (some pack) i e = rw e (refl, refl, λ h. cc, i.0, i.1)
      go cuda true none i e = rw e (inr i)
      go cuda true (some pack) i e = rw e (refl, refl, λ h. cc, i.0, i.1)
      go cuda false none i e = rw e (inr i)
      go cuda false (some pack) i e = rw e (refl, refl, λ h. cc, i.0, i.1)
