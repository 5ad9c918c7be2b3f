-- ===== src/Http.antt =====
-- The errors that the hub's services throw, by their HTTP status, and the result of a call.
use project.Base.{Bool, arith, false, if◌then◌else◌, inl, inr, refl, true, ◌≡◌, ◌⊎◌}

pub data HttpError : Type 0 where
  bad_request unauthorized forbidden not_found too_many_requests internal : HttpError

pub data Result {ℓ} (A : Type ℓ) : Type ℓ where
  ok : A → Result A
  err : HttpError → Result A

infixl 5 ◌>>=◌
abbrev pub ◌>>=◌ {ℓ κ} : {A : Type ℓ} {B : Type κ} → Result A → (A → Result B) → Result B
ok a >>= f = f a
err e >>= f = err e

-- Inversion of a test that may fail.
pub branch-eq-ok {ℓ} :
    {A : Type ℓ} (m : Result Bool) (x : A) (rest : Result A) (y : A)
    → (m >>= λ b. if b then ok x else rest) ≡ ok y
    → (x ≡ y) ⊎ (rest ≡ ok y)
branch-eq-ok (ok true) x rest y e = inl (ground arith)
branch-eq-ok (ok false) x rest y e = inr e
branch-eq-ok (err h) x rest y e = absurd (ground arith)

-- Inversion of a successful step.
pub >>=-eq-ok {ℓ κ} :
    {A : Type ℓ} {B : Type κ} (m : Result A) (f : A → Result B) (b : B)
    → (m >>= f) ≡ ok b
    → (a : A) × (m ≡ ok a) × (f a ≡ ok b)
>>=-eq-ok (ok a) f b e = (a, refl, e)
>>=-eq-ok (err h) f b e = absurd (ground arith)

pub ok-injective {ℓ} : {A : Type ℓ} (x y : A) → Result.ok x ≡ ok y → x ≡ y
ok-injective x y e = ground arith
