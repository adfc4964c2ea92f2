-- ===== src/Report/Documents.antt =====
-- The reports of src/report.rs as records, the numbers in them, and the rows of the CSV report. What
-- the csv crate makes of rows is an argument, as is how `f64` is displayed.
use speedtest_cli_rust.Base.{
  ℕ, Bool, not, ◌&&◌, ◌||◌, Option, none, some, List, [], ◌∷◌, ◌++◌, ◌==◌, ◌^◌, reverse, Result, ok,
  err, if◌then◌else◌,
}
use speedtest_cli_rust.Base.Text.{Text, codes, starts_with}
use speedtest_cli_rust.Base.Find.{find}
use speedtest_cli_rust.Base.Float.{Float}
use speedtest_cli_rust.Defs.Ip.{IpInfoResponse}
use speedtest_cli_rust.Defs.Server.{TlsFacts}

pub record ReportServer : Type 0 where
  pub name : Text
  pub url : Text

-- `trim_end_matches(['\n', '\r'])`, on the text from its end.
unfoldable pub skip_breaks : Text → Text
skip_breaks [] = []
skip_breaks (c ∷ s) = let rest = skip_breaks s in if c == 10 || c == 13 then rest else c ∷ s

abbrev pub trim_breaks : Text → Text
trim_breaks s = reverse (skip_breaks (reverse s))

module _ (float : Float) where
  open float use {F, of_nat, ratio, abs, lt, le}

  -- `struct JSONReport`, whose `tls` is a `TLSReport` where the connection says what it negotiated.
  pub record JsonReport : Type 0 where
    pub timestamp : Text
    pub server : ReportServer
    pub client : IpInfoResponse
    pub bytes_sent : ℕ
    pub bytes_received : ℕ
    pub ping : F
    pub jitter : F
    pub upload : F
    pub download : F
    pub share : Text
    pub tls : Option TlsFacts

  -- `struct CSVReport`
  pub record CsvReport : Type 0 where
    pub timestamp : Text
    pub name : Text
    pub address : Text
    pub ping : F
    pub jitter : F
    pub download : F
    pub upload : F
    pub share : Text
    pub ip : Text

  -- `csv_rows`
  abbrev ended_once : Result Text Text → Result Text Text
  ended_once (ok out) = ok (trim_breaks out ++ 10 ∷ [])
  ended_once (err e) = err e

  unfoldable pub csv_rows :
      (List CsvReport → ℕ → Result Text Text) → List CsvReport → ℕ → Result Text Text
  unfolding skip_breaks
  csv_rows writer reports delimiter = ended_once (writer reports delimiter)

  -- `{v}` and `{v:e}`, and whether `v` is finite.
  module _ (plain exponential : F → Text) (is_finite : F → Bool) where
    abbrev with_sign : Text → Option (Text × Text) → Text
    with_sign rendered none = rendered
    with_sign rendered (some (mantissa, exponent)) =
        if starts_with exponent (codes "-") then rendered else mantissa ++ (codes "e+" ++ exponent)

    -- `(1e-6..1e21).contains(&v)`
    abbrev is_plain : F → Bool
    is_plain v = le (ratio 1 (10 ^ 6)) v && lt v (of_nat (10 ^ 21))

    -- A number is zero where it is neither less nor greater.
    abbrev is_zero : F → Bool
    is_zero v = le v (of_nat 0) && le (of_nat 0) v

    unfoldable pub go_number : F → Text
    go_number v =
        if not (is_zero (abs v)) && not (is_plain (abs v))
        then with_sign (exponential v) (find (codes "e") (exponential v))
        else plain v

    unfoldable pub go_float : F → Result Text Text
    unfolding go_number
    go_float v =
        if not (is_finite v)
        then err (plain v ++ codes " cannot be written as JSON")
        else ok (go_number v)
