-- ===== src/Util/Numbers.antt =====
-- `avg`, `stddev`, `round2` and `go_duration` of src/util.rs, over an interface of floats.
use speedtest_cli_rust.Base.{
  ℕ, Bool, true, false, List, [], ◌∷◌, ◌++◌, ◌==◌, if◌then◌else◌, length, map, reverse, is_empty,
}
use speedtest_cli_rust.Base.Text.{Text, codes}
use speedtest_cli_rust.Base.Decimal.{decimal}
use speedtest_cli_rust.Base.Float.{Float}

-- `trim_end_matches(c)`, on the text from its end.
unfoldable pub skip : ℕ → Text → Text
skip c [] = []
skip c (x ∷ s) = let rest = skip c s in if x == c then rest else x ∷ s

abbrev pub trim_end : ℕ → Text → Text
trim_end c s = reverse (skip c (reverse s))

unfoldable pub contains_char : ℕ → Text → Bool
contains_char c [] = false
contains_char c (x ∷ s) = if x == c then true else contains_char c s

-- The function `trim` inside `go_duration`.
unfoldable pub trim : Text → Text
unfolding skip contains_char
trim s = if contains_char b'.' s then trim_end b'.' (trim_end b'0' s) else s

module _ (float : Float) where
  open float use {F, of_nat, ratio, add, sub, mul, div, sqrt, round, le, as_secs, fixed}

  abbrev pub sum_from : F → List F → F
  sum_from acc [] = acc
  sum_from acc (v ∷ vals) = sum_from (add acc v) vals

  unfoldable pub avg : List F → F
  avg vals =
      if is_empty vals then of_nat 0 else div (sum_from (of_nat 0) vals) (of_nat (length vals))

  abbrev squared : F → F
  squared v = mul v v

  unfoldable pub stddev : List F → F
  unfolding avg
  stddev vals =
      if is_empty vals
      then of_nat 0
      else sqrt (
          div (sum_from (of_nat 0) (map (λ v. squared (sub v (avg vals))) vals))
            (of_nat (length vals)))

  unfoldable pub round2 : F → F
  round2 v = div (round (mul v (of_nat 100))) (of_nat 100)

  -- A duration in nanoseconds, in the largest unit of which there is one.
  unfoldable pub go_duration : ℕ → Text
  unfolding trim
  go_duration nanos =
      let secs = as_secs nanos in
      if le (of_nat 1) secs
      then trim (fixed 9 secs) ++ codes "s"
      else if le (ratio 1 1000) secs
      then trim (fixed 6 (mul secs (of_nat 1000))) ++ codes "ms"
      else if le (ratio 1 1000000) secs
      then trim (fixed 3 (mul secs (of_nat 1000000))) ++ (0xb5 ∷ codes "s")
      else decimal nanos ++ codes "ns"
