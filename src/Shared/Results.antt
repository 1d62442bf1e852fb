-- ===== src/Shared/Results.antt =====
-- Results of calls that can fail.
use mathlib.Core.Path.{◌≡◌, refl}

-- A call that either delivers a value or fails with an error.
pub data Result {ℓ} (E : Type 0) (A : Type ℓ) : Type ℓ where
  done : A → Result E A
  failed : E → Result E A

-- Both cases of a result have a property.
pub result-both {ℓ ℓ' ℓ''} :
    {E : Type 0} {A : Type ℓ} {B : Type ℓ''} (P : B → Type ℓ') (r : Result E A) {f : E → B}
    {s : A → B}
    → ((e : E) → r ≡ failed e → P (f e))
    → ((a : A) → r ≡ done a → P (s a))
    → P (elim r [ failed e ↦ f e | done a ↦ s a ])
result-both P (done a) on_failed on_done = on_done a refl
result-both P (failed e) on_failed on_done = on_failed e refl
