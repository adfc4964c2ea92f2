-- ===== src/Report.antt =====
-- `src/report.rs`: how text goes into the JSON and CSV reports, and the timestamps.
pub mod Fields
pub mod Json
pub mod Timestamp
pub mod Documents
use speedtest_cli_rust.Base.{ℕ, Bool, true, false, ◌||◌, List, [], ◌∷◌, ◌++◌, ◌==◌, if◌then◌else◌}
use speedtest_cli_rust.Base.Text.{Text, codes}
use speedtest_cli_rust.Output.Sanitize.{sanitize}
use speedtest_cli_rust.Defs.Ip.{IpInfoResponse}

-- `['=', '+', '-', '@', '\t', '\r']`
unfoldable pub is_trigger : ℕ → Bool
is_trigger c = c == b'=' || (c == b'+' || (c == b'-' || (c == b'@' || (c == 9 || c == 13))))

abbrev pub starts_with_trigger : Text → Bool
starts_with_trigger [] = false
starts_with_trigger (c ∷ s) = is_trigger c

-- `csv_text`: the text that is handed to the CSV writer.
unfoldable pub csv_text : Text → Text
csv_text v = let v' = sanitize v in if starts_with_trigger v' then b'\'' ∷ v' else v'

-- `escape_like_go`
unfoldable pub escape_char : ℕ → Text
escape_char c =
    if c == b'<'
    then codes "\\u003c"
    else if c == b'>'
    then codes "\\u003e"
    else if c == b'&'
    then codes "\\u0026"
    else if c == 0x2028
    then codes "\\u2028"
    else if c == 0x2029
    then codes "\\u2029"
    else c ∷ []

unfoldable pub escape_like_go : Text → Text
escape_like_go [] = []
escape_like_go (c ∷ s) = escape_char c ++ escape_like_go s

-- `Client::new`
unfoldable pub client : IpInfoResponse → IpInfoResponse
client i = record {
  ip = sanitize i.ip;
  hostname = sanitize i.hostname;
  city = sanitize i.city;
  region = sanitize i.region;
  country = sanitize i.country;
  location = sanitize i.location;
  organization = sanitize i.organization;
  postal = sanitize i.postal;
  timezone = sanitize i.timezone;
  readme = sanitize i.readme;
}
