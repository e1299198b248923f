-- ===== src/GraniteEngine/Provider.antt =====
-- What the worker's build and its context say of the graphics card, against what the installer recorded.
use Prim.Native.String.{String}
use text.Mathlib.Text.{◌==◌ as str_eq}
use text.Mathlib.TextPositions.{eq_refl}
use text.Mathlib.TextEquality.{eq_iff}
use speakeasy_granite_rust_m.Base.{
  Bool, true, false, ◌||◌, Option, none, some, ◌≡◌, ◌↔◌, ◌≢◌, if◌then◌else◌, Bool-cases, inl, inr,
  refl, sym, ap, ◌∙◌, ◌⊎◌,
}

-- The reason of an unavailable probe is left out.
pub data CudaContextProof : Type 0 where
  holding not_holding probe_unavailable : CudaContextProof

pub record WorkerProvider : Type 0 where
  pub compiled_cuda : Option Bool
  pub context : Option CudaContextProof

-- The words that `device` answers.
pub data Device : Type 0 where
  granite_not_configured unknown cuda cpu cuda_unverified : Device

abbrev pub device_of : Option Bool → Option CudaContextProof → Device
device_of none context = unknown
device_of (some true) (some holding) = cuda
device_of (some false) context = cpu
device_of (some true) (some not_holding) = cpu
device_of (some true) (some probe_unavailable) = cuda_unverified
device_of (some true) none = cuda_unverified

abbrev pub device : WorkerProvider → Device
device w = device_of w.compiled_cuda w.context

abbrev proved : Option Bool → Option CudaContextProof → Bool
proved (some true) (some holding) = true
proved _ _ = false

abbrev pub proved_graphics_card : WorkerProvider → Bool
proved_graphics_card w = proved w.compiled_cuda w.context

abbrev disproved : Option Bool → Option CudaContextProof → Bool
disproved (some false) context = true
disproved (some true) (some not_holding) = true
disproved _ _ = false

abbrev pub disproved_graphics_card : WorkerProvider → Bool
disproved_graphics_card w = disproved w.compiled_cuda w.context

pub data ProviderIntegrity : Type 0 where
  unrecorded matches gpu_install_not_operational running_beyond_record : ProviderIntegrity
  gpu_record_unconfirmed : ProviderIntegrity

abbrev pub is_fault : ProviderIntegrity → Bool
is_fault gpu_install_not_operational = true
is_fault _ = false

unfoldable pub assess_provider_integrity : String → WorkerProvider → ProviderIntegrity
assess_provider_integrity recorded worker =
    if str_eq recorded "" || str_eq recorded "unrecorded"
    then unrecorded
    else if str_eq recorded "cuda"
    then (if proved_graphics_card worker
        then matches
        else if disproved_graphics_card worker
        then gpu_install_not_operational
        else gpu_record_unconfirmed)
    else if proved_graphics_card worker
    then running_beyond_record
    else matches

-- What an assessment means.
abbrev pub Tells : String → WorkerProvider → ProviderIntegrity → Type 0
Tells recorded w unrecorded = (recorded ≡ "") ⊎ (recorded ≡ "unrecorded")
Tells recorded w gpu_install_not_operational = (recorded ≡ "cuda") × (device w ≡ cpu)
Tells recorded w running_beyond_record = (recorded ≢ "cuda") × (device w ≡ cuda)
Tells recorded w gpu_record_unconfirmed =
    (recorded ≡ "cuda") × ((device w ≡ unknown) ⊎ (device w ≡ cuda_unverified))
Tells recorded w matches =
    ((recorded ≡ "cuda") × (device w ≡ cuda)) ⊎ ((recorded ≢ "cuda") × (device w ≢ cuda))

is_not : (s t : String) → str_eq s t ≡ false → s ≢ t
is_not s t h e = let a : str_eq s t ≡ true = ap (λ x. str_eq x t) e ∙ eq_refl t in cc

-- The device that the two proofs say.
device_lem :
    (w : WorkerProvider)
    → ((proved_graphics_card w ≡ true) × (device w ≡ cuda))
      ⊎ ((proved_graphics_card w ≡ false) × (disproved_graphics_card w ≡ true) × (device w ≡ cpu))
      ⊎ ((proved_graphics_card w ≡ false)
          × (disproved_graphics_card w ≡ false)
          × ((device w ≡ unknown) ⊎ (device w ≡ cuda_unverified)))
device_lem w = go w.compiled_cuda w.context
  where
    go :
        (b : Option Bool) (c : Option CudaContextProof)
        → ((proved b c ≡ true) × (device_of b c ≡ cuda))
          ⊎ ((proved b c ≡ false) × (disproved b c ≡ true) × (device_of b c ≡ cpu))
          ⊎ ((proved b c ≡ false)
              × (disproved b c ≡ false)
              × ((device_of b c ≡ unknown) ⊎ (device_of b c ≡ cuda_unverified)))
    go none c = inr (inr (refl, refl, inl refl))
    go (some true) none = inr (inr (refl, refl, inr refl))
    go (some true) (some holding) = inl (refl, refl)
    go (some true) (some not_holding) = inr (inl (refl, refl, refl))
    go (some true) (some probe_unavailable) = inr (inr (refl, refl, inr refl))
    go (some false) c = inr (inl (refl, refl, refl))

-- Only with these two is it a fault.
fault_lem :
    (recorded : String) (w : WorkerProvider) (a : ProviderIntegrity)
    → Tells recorded w a
    → (is_fault a ≡ true) ↔ ((recorded ≡ "cuda") × (device w ≡ cpu))
fault_lem recorded w unrecorded (inl e) =
    (λ h. cc, λ (r, d). absurd (is_not "cuda" "" refl (sym r ∙ e)))
fault_lem recorded w unrecorded (inr e) =
    (λ h. cc, λ (r, d). absurd (is_not "cuda" "unrecorded" refl (sym r ∙ e)))
fault_lem recorded w gpu_install_not_operational t = (λ h. t, λ x. refl)
fault_lem recorded w running_beyond_record (n, d) = (λ h. cc, λ (r, c). absurd (n r))
fault_lem recorded w gpu_record_unconfirmed (r, inl d) = (λ h. cc, λ (s, c). cc)
fault_lem recorded w gpu_record_unconfirmed (r, inr d) = (λ h. cc, λ (s, c). cc)
fault_lem recorded w matches (inl (r, d)) = (λ h. cc, λ (s, c). cc)
fault_lem recorded w matches (inr (n, d)) = (λ h. cc, λ (r, c). absurd (n r))

assessed_lem :
    (recorded : String) (w : WorkerProvider)
    → Tells recorded w (assess_provider_integrity recorded w)
unfolding assess_provider_integrity
assessed_lem recorded w = elim (Bool-cases (str_eq recorded "")) [
  | inl a ↦ rw a (inl ((eq_iff recorded "").0 a))
  | inr a ↦ elim (Bool-cases (str_eq recorded "unrecorded")) [
    | inl b ↦ rw (a, b) (inr ((eq_iff recorded "unrecorded").0 b))
    | inr b ↦ elim (Bool-cases (str_eq recorded "cuda")) [
      | inl c ↦
          let r = (eq_iff recorded "cuda").0 c in
          elim (device_lem w) [
            | inl (p, d) ↦ rw (a, b, c, p) (inl (r, d))
            | inr (inl (p, q, d)) ↦ rw (a, b, c, p, q) (r, d)
            | inr (inr (p, q, d)) ↦ rw (a, b, c, p, q) (r, d)
          ]
      | inr c ↦
          let n = is_not recorded "cuda" c in
          elim (device_lem w) [
            | inl (p, d) ↦ rw (a, b, c, p) (n, d)
            | inr (inl (p, q, d)) ↦ rw (a, b, c, p) (inr (n, λ k. cc))
            | inr (inr (p, q, inl d)) ↦ rw (a, b, c, p) (inr (n, λ k. cc))
            | inr (inr (p, q, inr d)) ↦ rw (a, b, c, p) (inr (n, λ k. cc))
          ]
    ]
  ]
]

-- An assessment says what the record and the device are; it is a fault exactly when the graphics card
-- is recorded and the worker is proved to run on the processor.
pub assess_provider_integrity-Tells :
    (recorded : String) (w : WorkerProvider)
    → Tells recorded w (assess_provider_integrity recorded w)
      × ((is_fault (assess_provider_integrity recorded w) ≡ true)
          ↔ ((recorded ≡ "cuda") × (device w ≡ cpu)))
assess_provider_integrity-Tells recorded w =
    let t = assessed_lem recorded w in
    (t, fault_lem recorded w (assess_provider_integrity recorded w) t)
