-- ===== src/Prelude/Outcome.antt =====
-- What a call answers with, or the failure that it raises.
use mathlib.Core.Path.{◌≡◌, refl}
use native.Mathlib.Omega.{arith}

pub data Outcome {ℓ} (E : Type 0) (A : Type ℓ) : Type ℓ where
  ok : A → Outcome E A
  err : E → Outcome E A

-- A call, and what comes after it if it does not raise.
infixl 5 ◌>>=◌
abbrev pub ◌>>=◌ : {E A B : Type 0} → Outcome E A → (A → Outcome E B) → Outcome E B
call >>= after = elim call [ err failure ↦ err failure | ok answer ↦ after answer ]

-- The whole answers only if each of the two does.
pub both_answer :
    {E A B : Type 0} {last : B} (call : Outcome E A) (after : A → Outcome E B)
    → (call >>= after) ≡ ok last
    → (answer : A) × (call ≡ ok answer) × (after answer ≡ ok last)
both_answer (err failure) after whole = cc
both_answer (ok answer) after whole = (answer, refl, whole)

pub answer_same : {E A : Type 0} {x y : A} → ◌≡◌ {A = Outcome E A} (ok x) (ok y) → y ≡ x
answer_same h = ground (arith, h)

pub no_answer :
    {E A : Type 0} {failure : E} {x : A} → ◌≡◌ {A = Outcome E A} (err failure) (ok x) → ⊥
no_answer h = cc
