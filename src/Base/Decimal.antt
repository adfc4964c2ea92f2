-- ===== src/Base/Decimal.antt =====
-- Decimal digits of a number: what `format!("{n}")` writes for an unsigned integer.
use speedtest_cli_rust.Base.{
  ℕ, zero, suc, ◌+◌, ◌-◌, ◌*◌, ◌/◌, ◌%◌, ◌<◌, [], ◌∷◌, ◌≡◌, refl, ◌∙◌, ap, arith, ltb,
  if◌then◌else◌, Bool-cases, inl, inr,
}
use speedtest_cli_rust.Base.Text.{Text}

abbrev digit : ℕ → ℕ
digit d = b'0' + d

-- The digits with fuel; each round takes one digit off.
unfoldable pub digits_loop : ℕ → ℕ → Text → Text
digits_loop zero n acc = acc
digits_loop (suc fuel) n acc =
    let rest = digits_loop fuel (n / 10) (digit (n % 10) ∷ acc) in
    if ltb n 10 then digit n ∷ acc else rest

unfoldable pub decimal : ℕ → Text
unfolding digits_loop
decimal n = digits_loop (suc n) n []

-- The number that digits stand for, after those read already.
unfoldable pub value_from : ℕ → Text → ℕ
value_from acc [] = acc
value_from acc (c ∷ s) = value_from (acc * 10 + (c - b'0')) s

-- Enough fuel: reading the digits from any value puts the number behind it.
digits_loop-value :
    (fuel n : ℕ) (acc : Text) → n < fuel → value_from 0 (digits_loop fuel n acc) ≡ value_from n acc
unfolding digits_loop
digits_loop-value zero n acc h = absurd (omega arith)
digits_loop-value (suc fuel) n acc h = elim (Bool-cases (ltb n 10)) [
  | inl small ↦ rw small (unfold value_from in ap (λ k. value_from k acc) (omega arith))
  | inr big ↦ rw big (
      digits_loop-value fuel (n / 10) (digit (n % 10) ∷ acc) (ground arith)
      ∙ unfold value_from in ap (λ k. value_from k acc) (omega arith))
]

-- Reading back what is written gives the number.
pub value-decimal : (n : ℕ) → value_from 0 (decimal n) ≡ n
unfolding decimal
value-decimal n = digits_loop-value (suc n) n [] (omega arith) ∙ unfold value_from in refl
