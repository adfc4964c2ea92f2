-- ===== src/Base/Outcome.antt =====
-- `Result<A, E>`: a value or an error, with `?` as bind.
use mathlib.Core.Path.{◌≡◌, refl}
use mathlib.Core.Bool.{Bool, true, false}

module _ {ℓ κ} (E : Type κ) (A : Type ℓ) where
  pub data Result : Type (ℓ ⊔ κ) where
    err : E → Result
    ok : A → Result

module _ {ℓ κ υ} {E : Type κ} {A : Type ℓ} {B : Type υ} where
  infixl 5 ◌>>=◌
  -- `?`: an error is handed on, and a value goes to the code behind it.
  abbrev pub ◌>>=◌ : Result E A → (A → Result E B) → Result E B
  err failed >>= later = err failed
  ok value >>= later = later value

  pub >>=-eq-ok :
      (m : Result E A) (later : A → Result E B) {b : B}
      → (m >>= later) ≡ ok b
      → (value : A) × (m ≡ ok value) × (later value ≡ ok b)
  >>=-eq-ok (err failed) later h = cc
  >>=-eq-ok (ok value) later h = (value, refl, h)

module _ {ℓ κ} {E : Type κ} {A : Type ℓ} where
  abbrev pub is_ok : Result E A → Bool
  is_ok (err _) = false
  is_ok (ok _) = true
