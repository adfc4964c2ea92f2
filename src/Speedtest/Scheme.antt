-- ===== src/Speedtest/Scheme.antt =====
-- `apply_scheme` of src/speedtest.rs.
pub mod Laws
use speedtest_cli_rust.Base.{Option, none, some, ◌++◌}
use speedtest_cli_rust.Base.Text.{Text, codes}
use speedtest_cli_rust.Base.Find.{find}

-- `enum ForceScheme`
pub data ForceScheme : Type 0 where
  nothing https http : ForceScheme

abbrev pub separator : Text
separator = codes "://"

-- `scheme.unwrap_or("http")`
abbrev pub or_http : Option (Text × Text) → Text
or_http none = codes "http"
or_http (some (scheme, rest)) = scheme

abbrev pub rest_of : Text → Option (Text × Text) → Text
rest_of raw none = raw
rest_of raw (some (scheme, rest)) = rest

abbrev new_scheme : ForceScheme → Option (Text × Text) → Text
new_scheme https found = codes "https"
new_scheme http found = codes "http"
new_scheme nothing found = or_http found

unfoldable pub apply_scheme : Text → ForceScheme → Text
unfolding find
apply_scheme raw force =
    let found = find separator raw in new_scheme force found ++ (separator ++ rest_of raw found)
