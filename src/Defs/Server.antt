-- ===== src/Defs/Server.antt =====
-- The probe of a server in src/defs/server.rs: `get_url`, `sponsor`, `is_up` and `get_ip_info`, with
-- what they write and log. The client's answers, the clock's texts and serde_json are arguments.
pub mod Probe
pub mod Pings
pub mod Requests
pub mod Fallback
pub mod Sponsor
use speedtest_cli_rust.Base.{
  ℕ, Bool, true, false, not, ◌&&◌, Option, none, some, List, [], ◌∷◌, ◌++◌, Result, ok, err, ◌==◌,
  if◌then◌else◌, is_empty,
}
use speedtest_cli_rust.Base.Text.{Text, Bytes, codes, eq_text}
use speedtest_cli_rust.Base.Find.{find}
use speedtest_cli_rust.Url.{UrlCrate}
use speedtest_cli_rust.Url.Join.{url_join_path}
use speedtest_cli_rust.Output.{Output, Console, write_debug}
use speedtest_cli_rust.Output.Sanitize.{sanitize}
use speedtest_cli_rust.Quote.{Chunk, go_quote}
use speedtest_cli_rust.Defs.Ip.{IpInfoResponse, GetIpResult}
use speedtest_cli_rust.Defs.Telemetry.{TelemetryLog, logf}
use speedtest_cli_rust.Speedtest.Servers.{Server}

-- `TlsFacts`: the version and the cipher that a connection negotiated.
pub record TlsFacts : Type 0 where
  pub version : Text
  pub cipher : Text

-- `ServerStatus`, and its default
pub record ServerStatus : Type 0 where
  pub up : Bool
  pub tls : Option TlsFacts

abbrev pub down : ServerStatus
down = record { up = false; tls = none }

-- What a call gives back, with the console and the log behind it.
pub record Done (A : Type 0) : Type 0 where
  pub value : A
  pub console : Console
  pub log : TelemetryLog

-- What a probe gets: the status, the start of the body and the facts.
pub record Answer : Type 0 where
  pub status : ℕ
  pub body : Bytes
  pub facts : Option TlsFacts

-- `contains("://")`
abbrev pub found : Option (Text × Text) → Bool
found none = false
found (some _) = true

abbrev newline : Text
newline = b'\n' ∷ []

module _ (crate : UrlCrate) where
  open crate use {Url, parse, parse_error, scheme, append_pair}

  -- The context of the error, which `{e}` shows of it.
  abbrev pub invalid_server_url : Server → Text
  invalid_server_url s = codes "invalid server URL: " ++ sanitize s.server

  -- An error with its whole chain, as `{e:#}` shows it.
  abbrev or_invalid : Server → Option Url → Result Text Url
  or_invalid s none = err (invalid_server_url s ++ (codes ": " ++ parse_error s.server))
  or_invalid s (some u) = ok u

  unfoldable pub get_url : Server → Result Text Url
  get_url s = or_invalid s (parse s.server)

  -- The sponsor's URL; one without a scheme gets https.
  abbrev pub sponsor_address : Server → Text
  sponsor_address s =
      if found (find (codes "://") s.sponsor_url)
      then s.sponsor_url
      else codes "https://" ++ s.sponsor_url

  abbrev pub with_address : Output → Server → Console → Option Url → Text × Console
  with_address out s console (some _) =
      (s.sponsor_name ++ (codes " @ " ++ sponsor_address s), console)
  with_address out s console none = (
    s.sponsor_name,
    write_debug out (codes "Sponsor URL is invalid: " ++ (sanitize s.sponsor_url ++ newline))
        console,
  )

  unfoldable pub sponsor : Output → Server → Console → Text × Console
  sponsor out s console =
      if is_empty s.sponsor_name
      then ([], console)
      else if is_empty s.sponsor_url
      then (s.sponsor_name, console)
      else with_address out s console (parse (sponsor_address s))

  -- What the connection settled on, under `--debug`.
  abbrev pub write_facts : Output → Url → Option TlsFacts → Console → Console
  write_facts out url (some t) console =
      write_debug out
        (codes "Negotiated " ++ (t.version ++ (codes " with " ++ (t.cipher ++ newline)))) console
  write_facts out url none console =
      if eq_text (scheme url) (codes "https")
      then write_debug out
          (codes "Connection is encrypted, but this TLS backend does not report with what"
            ++ newline)
          console
      else write_debug out (codes "Connection is not encrypted" ++ newline) console

  module _ (out : Output) (utf8_chunks : Bytes → List Chunk) (elapsed stamp : Text) where
    abbrev pub quoted_body : Bytes → Console → Console
    quoted_body body console =
        write_debug out
          (codes "Failed when parsing get IP result: " ++ (go_quote (utf8_chunks body) ++ newline))
          console

    -- `match result`
    abbrev pub probed : Url → TelemetryLog → Console → Result Text Answer → Done ServerStatus
    probed url log console (err e) = record {
      value = down;
      console =
          write_debug out (codes "Error checking for server status: " ++ (e ++ newline)) console;
      log = log;
    }
    probed url log console (ok a) =
        let told = write_facts out url a.facts console in
        if not (is_empty a.body)
        then record { value = down; console = quoted_body a.body told; log = log }
        else record {
          value = record { up = a.status == 200; tls = a.facts };
          console = told;
          log = log;
        }

    abbrev pub probe :
        Server
        → (Url → Result Text Answer)
        → TelemetryLog
        → Console
        → Result Text Url
        → Done ServerStatus
    probe s get_prefix log console (err _) = record {
      value = down;
      console =
          write_debug out
            (codes "Failed when creating HTTP request: " ++ (invalid_server_url s ++ newline))
            console;
      log = log;
    }
    probe s get_prefix log console (ok u) =
        let url = url_join_path crate u s.ping_url in
        probed url (logf log stamp (codes "Check backend is up took " ++ elapsed)) console
          (get_prefix url)

    -- `get_prefix` is the client's, with the limit of the peek.
    unfoldable pub is_up :
        Server → (Url → Result Text Answer) → TelemetryLog → Console → Done ServerStatus
    is_up s get_prefix log console = probe s get_prefix log console (get_url s)

    -- serde_json reads the body, or says why it cannot; `lossy` is `String::from_utf8_lossy`.
    module _ (from_slice : Bytes → Result Text GetIpResult) (lossy : Bytes → Text)
        (empty : GetIpResult) where
      abbrev pub info_of :
          Bytes → TelemetryLog → Console → Result Text GetIpResult → Done GetIpResult
      info_of body log console (ok info) = record { value = info; console = console; log = log }
      info_of body log console (err e) = record {
        value = record empty { processed_string = lossy body };
        console =
            write_debug out (codes "Received payload: " ++ (go_quote (utf8_chunks body) ++ newline))
              (write_debug out (codes "Failed when parsing get IP result: " ++ (e ++ newline))
                console);
        log = log;
      }

      abbrev pub received :
          TelemetryLog → Console → Result Text (ℕ × Bytes) → Result Text (Done GetIpResult)
      received log console (err e) = err e
      received log console (ok (status, body)) =
          let log' = logf log stamp (codes "Get IP info took " ++ elapsed) in
          if is_empty body
          then ok (record { value = empty; console = console; log = log' })
          else ok (info_of body log' console (from_slice body))

      abbrev pub asked :
          Server
          → (Url → Result Text (ℕ × Bytes))
          → Text
          → TelemetryLog
          → Console
          → Result Text Url
          → Result Text (Done GetIpResult)
      asked s get_bytes unit log console (err e) = err e
      asked s get_bytes unit log console (ok u) = received log console (
          get_bytes (
            append_pair (append_pair (url_join_path crate u s.get_ip_url) (codes "distance") unit)
              (codes "isp") (codes "true")))

      -- `empty` is `GetIPResult::default()`, and `unit` the unit of distance.
      unfoldable pub get_ip_info :
          Server
          → (Url → Result Text (ℕ × Bytes))
          → Text
          → TelemetryLog
          → Console
          → Result Text (Done GetIpResult)
      get_ip_info s get_bytes unit log console = asked s get_bytes unit log console (get_url s)
