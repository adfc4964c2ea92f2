-- ===== src/Tests/Figures.antt =====
-- Whole numbers in place of floats, for concrete runs.
use speedtest_cli_rust.Base.{ℕ, ◌+◌, ◌-◌, ◌*◌, ◌/◌, ltb, leb, if◌then◌else◌}
use speedtest_cli_rust.Base.Decimal.{decimal}
use speedtest_cli_rust.Base.Float.{Float}

-- A difference is taken without its sign.
abbrev pub whole : Float
whole = record {
  F = ℕ;
  of_nat = λ n. n;
  ratio = λ a b. a / b;
  add = λ a b. a + b;
  sub = λ a b. (a - b) + (b - a);
  mul = λ a b. a * b;
  div = λ a b. a / b;
  abs = λ a. a;
  sqrt = λ a. a;
  round = λ a. a;
  lt = ltb;
  le = leb;
  total_le = leb;
  min = λ a b. if leb a b then a else b;
  max = λ a b. if leb a b then b else a;
  infinity = 10 * 1000000;
  neg_infinity = 0;
  as_secs = λ n. n / 1000000000;
  to_nat = λ n. n;
  fixed = λ digits n. decimal n;
}
