-- ===== src/Base/Keyed.antt =====
-- A map from numbers as an association list: what the program asks of its `BTreeMap`s is `get`,
-- `contains_key`, `insert`, `remove` and `len`, so the order of the entries is left out.
use Prim.Native.Nat.{ℕ, suc}
use mathlib.Core.Path.{◌≡◌, refl}
use mathlib.Core.Option.{Option, none, some}
use mathlib.Core.List.{List, [], ◌∷◌}
use native.Mathlib.Omega.{arith}
use speakeasy_granite_rust_m.Base.Tests.{◌==◌, if◌then◌else◌, is_some}
use speakeasy_granite_rust_m.Base.Lists.{length}

-- The map from numbers to values of `V`.
abbrev pub Assoc {ℓ} : Type ℓ → Type ℓ
Assoc V = List (ℕ × V)

-- `get`.
unfoldable pub get {ℓ} : {V : Type ℓ} → Assoc V → ℕ → Option V
get [] key = none
get ((at_key, held) ∷ others) key =
    let below = get others key in if at_key == key then some held else below

-- `insert`: the entry of the key is overwritten, or a new one comes last.
unfoldable pub put {ℓ} : {V : Type ℓ} → Assoc V → ℕ → V → Assoc V
put [] key new = (key, new) ∷ []
put ((at_key, held) ∷ others) key new =
    let below = (at_key, held) ∷ put others key new in
    if at_key == key then (key, new) ∷ others else below

-- `remove`.
unfoldable pub erase_key {ℓ} : {V : Type ℓ} → Assoc V → ℕ → Assoc V
erase_key [] key = []
erase_key ((at_key, held) ∷ others) key =
    let below = erase_key others key in if at_key == key then below else (at_key, held) ∷ below

module _ {ℓ} {V : Type ℓ} (key other : ℕ) where
  pub get-put :
      (new : V) (m : Assoc V)
      → get (put m key new) other ≡ (if key == other then some new else get m other)
  unfolding get put
  get-put new [] = refl
  get-put new ((at_key, held) ∷ others) = ground (arith, get-put new others)

  pub get-erase_key :
      (m : Assoc V) → get (erase_key m key) other ≡ (if key == other then none else get m other)
  unfolding get erase_key
  get-erase_key [] = ground arith
  get-erase_key ((at_key, held) ∷ others) = ground (arith, get-erase_key others)

-- An insertion adds an entry exactly when the key is new.
pub length-put {ℓ} :
    {V : Type ℓ} (key : ℕ) (new : V) (m : Assoc V)
    → length (put m key new) ≡ (if is_some (get m key) then length m else suc (length m))
unfolding get put
length-put key new [] = refl
length-put key new ((at_key, held) ∷ others) = ground (arith, length-put key new others)
