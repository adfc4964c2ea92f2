-- ===== src/Report/Timestamp.antt =====
-- `format_timestamp` of src/report.rs.
pub mod Laws
use speedtest_cli_rust.Base.{
  ℕ, zero, suc, ◌+◌, ◌-◌, ◌*◌, ◌/◌, ◌%◌, Bool, true, false, ◌&&◌, List, [], ◌∷◌, ◌++◌, ◌==◌,
  if◌then◌else◌, is_empty, length,
}
use speedtest_cli_rust.Base.Text.{Text, codes}
use speedtest_cli_rust.Base.Decimal.{decimal}
use speedtest_cli_rust.Base.Int.{ℤ, pos, negsuc}

-- What chrono gives of a moment: `format("%Y-%m-%dT%H:%M:%S")`, `nanosecond()`, which passes a
-- second in a leap second, and `offset().local_minus_utc()` in seconds.
pub record Moment : Type 0 where
  pub date : Text
  pub nanosecond : ℕ
  pub offset : ℤ

abbrev pub zeros : ℕ → Text
zeros zero = []
zeros (suc n) = b'0' ∷ zeros n

-- `{n:0width}`
unfoldable pub padded : ℕ → ℕ → Text
padded width n = let digits = decimal n in zeros (width - length digits) ++ digits

-- `trim_end_matches('0')`
unfoldable pub trim_zeros : Text → Text
trim_zeros [] = []
trim_zeros (c ∷ s) = let rest = trim_zeros s in if c == b'0' && is_empty rest then [] else c ∷ rest

unfoldable pub fraction : ℕ → Text
fraction nanosecond =
    let nanos = nanosecond % 1000000000 in
    if nanos == 0 then [] else b'.' ∷ trim_zeros (padded 9 nanos)

-- `{sign}{:02}:{:02}`
abbrev pub signed : ℕ → ℕ → Text
signed sign minutes = sign ∷ (padded 2 (minutes / 60) ++ (b':' ∷ padded 2 (minutes % 60)))

-- The minutes of a negative offset are cut towards zero, and then the sign is taken.
abbrev pub zone_behind : ℕ → Text
zone_behind minutes = if minutes == 0 then signed b'+' minutes else signed b'-' minutes

unfoldable pub zone : ℤ → Text
zone (pos zero) = codes "Z"
zone (pos (suc seconds)) = signed b'+' (suc seconds / 60)
zone (negsuc seconds) = zone_behind (suc seconds / 60)

unfoldable pub format_timestamp : Moment → Text
format_timestamp t = t.date ++ (fraction t.nanosecond ++ zone t.offset)
