-- ===== src/Base/Float.antt =====
-- Floating point as an interface: the operations of `f64` that the program uses. Nothing is assumed
-- of them here; a theorem that needs a law has it as a hypothesis.
use Prim.Native.Nat.{ℕ}
use mathlib.Core.Bool.{Bool}
use speedtest_cli_rust.Base.Text.{Text}

pub record Float : Type 1 where
  pub F : Type 0
  -- a number of units, and a literal such as 0.7, which is `ratio 7 10`
  pub of_nat : ℕ → F
  pub ratio : ℕ → ℕ → F
  pub add : F → F → F
  pub sub : F → F → F
  pub mul : F → F → F
  pub div : F → F → F
  pub abs : F → F
  pub sqrt : F → F
  pub round : F → F
  pub lt : F → F → Bool
  pub le : F → F → Bool
  -- `total_cmp` says less or equal
  pub total_le : F → F → Bool
  pub min : F → F → F
  pub max : F → F → F
  pub infinity : F
  pub neg_infinity : F
  -- `Duration::as_secs_f64` of nanoseconds
  pub as_secs : ℕ → F
  -- `as u32` and `as u64`
  pub to_nat : F → ℕ
  -- `{:.2}` with that many decimals
  pub fixed : ℕ → F → Text
