-- ===== src/Base/Results.antt =====
-- Results of code that can fail: a C++ exception or a failed GGML_ASSERT.
-- It models no file of the repository.
use mathlib.Core.Path.{◌≡◌, refl, subst}
use mathlib.Core.Logic.{◌⊎◌, inl, inr}

-- `assert_failed` is the process abort of GGML_ASSERT and GGML_ABORT, `runtime_error` is a thrown
-- std::runtime_error, `length_error` the exception of a vector that cannot be so long, `out_of_bounds`
-- an access beyond a vector, which C++ leaves undefined, and `out_of_fuel` marks a loop of the model
-- that was cut short.
pub data Error : Type 0 where
  assert_failed runtime_error length_error out_of_bounds out_of_fuel : Error

pub data Result {ℓ} (Value : Type ℓ) : Type ℓ where
  err : (why : Error) → Result Value
  ok : (value : Value) → Result Value

-- What comes after a failure is skipped.
infixl 5 ◌>>=◌
abbrev pub ◌>>=◌ {ℓ κ} : {A : Type ℓ} {B : Type κ} → Result A → (A → Result B) → Result B
err why >>= next = err why
ok value >>= next = next value

pub Result-cases {ℓ} :
    {A : Type ℓ} (r : Result A) → ((a : A) × (r ≡ ok a)) ⊎ ((e : Error) × (r ≡ err e))
Result-cases (ok a) = inl (a, refl)
Result-cases (err e) = inr (e, refl)

-- A chain that gives a result has one at its first step.
pub bind_ok {ℓ κ} :
    {A : Type ℓ} {B : Type κ} (r : Result A) (f : A → Result B) (b : B)
    → (r >>= f) ≡ ok b
    → (a : A) × (r ≡ ok a) × (f a ≡ ok b)
bind_ok (ok a) f b e = (a, refl, e)
bind_ok (err x) f b e = cc

-- What holds of a result holds of what the result is known to be.
pub ok_subst {ℓ κ} : {A : Type ℓ} (P : A → Type κ) (a b : A) → ok a ≡ ok b → P a → P b
ok_subst P a b e = subst P (cc e)
