-- ===== src/Reliability/Arbiter.antt =====
-- crates/speakeasy-domain/src/reliability.rs: one exclusive operation at a time.
use speakeasy_granite_rust_m.Base.{
  ℕ, ◌≡◌, refl, Bool, true, false, Option, none, some, List, [], ◌∷◌, arith, ◌==◌, if◌then◌else◌,
}

pub data ExclusiveOperation : Type 0 where
  dictation : ℕ → ExclusiveOperation
  model_install model_update model_delete application_update : ExclusiveOperation
  storage_migration engine_restart : ExclusiveOperation

-- `==`.
abbrev pub same_operation : ExclusiveOperation → ExclusiveOperation → Bool
same_operation (dictation a) (dictation b) = a == b
same_operation model_install model_install = true
same_operation model_update model_update = true
same_operation model_delete model_delete = true
same_operation application_update application_update = true
same_operation storage_migration storage_migration = true
same_operation engine_restart engine_restart = true
same_operation _ _ = false

pub data OperationDisposition : Type 0 where
  started already_owned : OperationDisposition
  -- The owner, and `retry_after_ms`.
  deferred : ExclusiveOperation → ℕ → OperationDisposition

pub record OperationArbiter : Type 0 where
  pub owner : Option ExclusiveOperation

abbrev pub default_arbiter : OperationArbiter
default_arbiter = record { owner = none }

unfoldable pub begin :
    OperationArbiter → ExclusiveOperation → OperationArbiter × OperationDisposition
begin r operation = elim r.owner [
  | none ↦ (record { owner = some operation }, started)
  | some owner ↦ (r, if same_operation owner operation then already_owned else deferred owner 1000)
]

unfoldable pub finish : OperationArbiter → ExclusiveOperation → OperationArbiter × Bool
finish r operation = elim r.owner [
  | none ↦ (r, false)
  | some owner ↦
      if same_operation owner operation then (record { owner = none }, true) else (r, false)
]

pub data Request : Type 0 where
  begins finishes : ExclusiveOperation → Request

-- What a request made happen.
pub data Happened : Type 0 where
  began ended : ExclusiveOperation → Happened
  waited : ExclusiveOperation → Happened
  nothing : Happened

abbrev of_begin : ExclusiveOperation → OperationDisposition → Happened
of_begin operation started = began operation
of_begin operation already_owned = nothing
of_begin operation (deferred owner ms) = waited owner

abbrev of_finish : ExclusiveOperation → Bool → Happened
of_finish operation true = ended operation
of_finish operation false = nothing

unfoldable pub serve : OperationArbiter → Request → OperationArbiter × Happened
serve r (begins o) = let (q, d) = begin r o in (q, of_begin o d)
serve r (finishes o) = let (q, b) = finish r o in (q, of_finish o b)

unfoldable pub serve_all : OperationArbiter → List Request → List Happened
serve_all r [] = []
serve_all r (x ∷ xs) = let (q, h) = serve r x in h ∷ serve_all q xs

-- From the owner `o` on: an operation begins only when none is on, ends only if it is the one that
-- is on, and is put off only in favour of the one that is on.
abbrev pub IsExclusive : Option ExclusiveOperation → List Happened → Type 0
IsExclusive o [] = Unit {0}
IsExclusive o (began p ∷ hs) = (o ≡ none) × IsExclusive (some p) hs
IsExclusive o (ended p ∷ hs) = (o ≡ some p) × IsExclusive none hs
IsExclusive o (waited p ∷ hs) = (o ≡ some p) × IsExclusive o hs
IsExclusive o (nothing ∷ hs) = IsExclusive o hs

same_operation-eq : (a b : ExclusiveOperation) → same_operation a b ≡ true → a ≡ b
same_operation-eq (dictation a) b h = ground arith
same_operation-eq _ b h = ground arith

-- What one request does to the owner.
abbrev Moves : Option ExclusiveOperation → Happened → Option ExclusiveOperation → Type 0
Moves o (began p) q = (o ≡ none) × (q ≡ some p)
Moves o (ended p) q = (o ≡ some p) × (q ≡ none)
Moves o (waited p) q = (o ≡ some p) × (q ≡ o)
Moves o nothing q = q ≡ o

serve-Moves : (r : OperationArbiter) (x : Request) → Moves r.owner (serve r x).1 (serve r x).0.owner
unfolding serve begin finish
serve-Moves r (begins o) = ground arith
serve-Moves r (finishes o) = go r.owner refl
  where
    go :
        (w : Option ExclusiveOperation)
        → r.owner ≡ w
        → Moves r.owner (serve r (finishes o)).1 (serve r (finishes o)).0.owner
    go none e = ground arith
    go (some p) e = ground (arith, same_operation-eq p o)

IsExclusive-cons :
    (o q : Option ExclusiveOperation) (h : Happened) (hs : List Happened)
    → Moves o h q
    → IsExclusive q hs
    → IsExclusive o (h ∷ hs)
IsExclusive-cons o q (began p) hs m x = ground arith
IsExclusive-cons o q _ hs m x = ground arith

-- Under any requests, operations never overlap: each begins when none is on, only the one that is
-- on ends, and a request put off names the one that is on.
pub serve_all-IsExclusive :
    (r : OperationArbiter) (xs : List Request) → IsExclusive r.owner (serve_all r xs)
unfolding serve_all
serve_all-IsExclusive r [] = tt
serve_all-IsExclusive r (x ∷ xs) =
    IsExclusive-cons r.owner (serve r x).0.owner (serve r x).1 (serve_all (serve r x).0 xs)
      (serve-Moves r x) (serve_all-IsExclusive (serve r x).0 xs)
