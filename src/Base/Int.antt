-- ===== src/Base/Int.antt =====
-- 64-bit identifiers of servers as integers: equality and how they are written.
use speedtest_cli_rust.Base.{ℕ, suc, Bool, true, false, ◌||◌, List, [], ◌∷◌, ◌≡◌, ◌↔◌, ◌==◌, arith}
use speedtest_cli_rust.Base.Text.{Text}
use speedtest_cli_rust.Base.Decimal.{decimal}

-- `negsuc n` is -(n + 1).
pub data ℤ : Type 0 where
  pos : ℕ → ℤ
  negsuc : ℕ → ℤ

unfoldable pub eq_ℤ : ℤ → ℤ → Bool
eq_ℤ (pos m) (pos n) = m == n
eq_ℤ (negsuc m) (negsuc n) = m == n
eq_ℤ _ _ = false

pub eq_ℤ_iff : (a b : ℤ) → (eq_ℤ a b ≡ true) ↔ (a ≡ b)
unfolding eq_ℤ
eq_ℤ_iff (pos m) (pos n) = ground arith
eq_ℤ_iff (negsuc m) (negsuc n) = ground arith
eq_ℤ_iff _ _ = ground arith

-- `contains(&id)`
unfoldable pub contains : List ℤ → ℤ → Bool
unfolding eq_ℤ
contains [] a = false
contains (x ∷ xs) a = eq_ℤ x a || contains xs a

-- `i64::to_string`
unfoldable pub show : ℤ → Text
show (pos n) = decimal n
show (negsuc n) = b'-' ∷ decimal (suc n)
