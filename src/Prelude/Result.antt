-- ===== src/Prelude/Result.antt =====
-- Rust's `Result`, with `?` as the bind.
use mathlib.Core.Path.{◌≡◌, refl}
use mathlib.Core.Logic.{◌⊎◌, inl, inr}

pub data Result {ℓ κ} (E : Type κ) (A : Type ℓ) : Type (ℓ ⊔ κ) where
  ok : A → Result E A
  err : E → Result E A

module _ {ℓ κ μ} {E : Type κ} {A : Type ℓ} {B : Type μ} where
  infixl 5 ◌>>=◌
  abbrev pub ◌>>=◌ : Result E A → (A → Result E B) → Result E B
  ok a >>= f = f a
  err e >>= f = err e

module _ {ℓ κ} {E : Type κ} {A : Type ℓ} where
  pub Result-cases : (r : Result E A) → ((a : A) × (r ≡ ok a)) ⊎ ((e : E) × (r ≡ err e))
  Result-cases (ok a) = inl (a, refl)
  Result-cases (err e) = inr (e, refl)

module _ {ℓ κ μ} {E : Type κ} {A : Type ℓ} {B : Type μ} where
  -- A chain succeeds only if its first step does.
  pub >>=-first :
      {b : B} (f : A → Result E B) (m : Result E A)
      → (m >>= f) ≡ ok b
      → (a : A) × (f a ≡ ok b) × (m ≡ ok a)
  >>=-first f m h = elim (Result-cases m) [
    | inr (e, same) ↦ absurd (cc (rw same at h))
    | inl (a, same) ↦ (a, rw same at h, same)
  ]
