-- ===== src/Helper/Run.antt =====
-- `do_speed_test` of src/helper.rs: the test of each server in turn, and the reports behind them. A
-- server's measurements are a `Backend`; the texts of durations, the timestamp and the documents that
-- serde_json and csv write are arguments.
pub mod Turn
pub mod Closing
pub mod Loop
pub mod Discreet
pub mod Goes
pub mod Laws
pub mod Measuring
use speedtest_cli_rust.Base.{
  ℕ, Bool, true, false, not, ◌&&◌, ◌||◌, Option, none, some, List, [], ◌∷◌, ◌++◌, Result, ok, err,
  ◌>>=◌, if◌then◌else◌, is_empty, length, ltb,
}
use speedtest_cli_rust.Base.Text.{Text, codes}
use speedtest_cli_rust.Base.Decimal.{decimal}
use speedtest_cli_rust.Base.Float.{Float}
use speedtest_cli_rust.Url.{UrlCrate}
use speedtest_cli_rust.Output.{
  Output, Console, write_out, write_error, write_ui, write_debug, write_ui_blank, stream_event,
}
use speedtest_cli_rust.Output.Sanitize.{sanitize}
use speedtest_cli_rust.Spinner
use speedtest_cli_rust.Spinner.{Spinner, draw}
use speedtest_cli_rust.Util.Numbers.{round2}
use speedtest_cli_rust.Cli.{Cli}
use speedtest_cli_rust.Defs.Ip.{GetIpResult, IpInfoResponse, ip_info}
use speedtest_cli_rust.Defs.Telemetry.{TelemetryLog, contents, set_level}
use speedtest_cli_rust.Defs.Telemetry
use speedtest_cli_rust.Defs.Server.{Done, ServerStatus, get_url, sponsor}
use speedtest_cli_rust.Report.{client}
use speedtest_cli_rust.Report.Documents.{ReportServer, JsonReport, CsvReport}
use speedtest_cli_rust.Speedtest.Servers.{Server}

-- The options of `struct Cli` that a run reads.
pub record RunOptions : Type 0 where
  pub cli : Cli
  pub bytes : Bool
  pub mebibytes : Bool
  pub no_download : Bool
  pub no_upload : Bool
  pub concurrent : ℕ
  pub chunks : ℕ
  pub upload_size : ℕ
  pub duration : ℕ
  pub telemetry_extra : Option Text

-- `TelemetryExtra`
pub record TelemetryExtra : Type 0 where
  pub server_name : Text
  pub extra : Text

-- `TestContext`, as far as it is read here: the output, the telemetry level, and `no_icmp`.
pub record TestContext : Type 0 where
  pub out : Output
  pub level : ℕ
  pub no_icmp : Bool

-- A run that has failed: its error, and what it has printed.
abbrev pub Failed : Type 0
Failed = Text × Console

abbrev pub line_end : Text
line_end = b'\n' ∷ []

abbrev pub or_default : Option Text → Text
or_default none = []
or_default (some s) = s

-- `report_failure`; an error is shown on one line, and made safe.
unfoldable pub report_failure : Text → Text → Console → Failed
report_failure what e console =
    (e, write_error (what ++ (codes ": " ++ (sanitize e ++ line_end))) console)

-- `PING_COUNT`
abbrev pub ping_count : ℕ
ping_count = 10

module _ (float : Float) where
  open float use {F, of_nat, div, mul, lt, fixed}

  -- `humanize_mbps`
  unfoldable pub humanize_mbps : F → Bool → Text
  humanize_mbps mbps use_mebi =
      let val = div mbps (of_nat 8) in
      let base = if use_mebi then of_nat 1024 else of_nat 1000 in
      let kb = mul val base in
      if lt val (of_nat 1)
      then (if lt kb (of_nat 1)
          then fixed 2 (mul kb base) ++ codes " bytes/s"
          else fixed 2 kb ++ codes " KB/s")
      else if lt base val
      then fixed 2 (div val base) ++ codes " GB/s"
      else fixed 2 val ++ codes " MB/s"

  -- `humanize_rate`
  unfoldable pub humanize_rate : F → Bool → Bool → Text
  unfolding humanize_mbps
  humanize_rate mbps use_bytes use_mebi =
      if use_bytes then humanize_mbps mbps use_mebi else fixed 2 mbps ++ codes " Mbps"

  -- What a run measures at a server, and how: the probe, the client's IP information, latency and the
  -- transfers, each with the log and the console behind it; the telemetry that is sent; the spinner's
  -- frames while pings go out; the texts of the phases' durations, and the time.
  pub record Backend : Type 0 where
    pub is_up : TelemetryLog → Console → Done ServerStatus
    pub get_ip_info : TelemetryLog → Console → Result Text (Done GetIpResult)
    pub ping_and_jitter : TelemetryLog → Console → Done (Result Text (F × F))
    pub download : TelemetryLog → Console → Done (Result Text (F × ℕ))
    pub upload : TelemetryLog → Console → Done (Result Text (F × ℕ))
    pub send_telemetry : GetIpResult → F → F → F → F → Text → TelemetryExtra → Result Text Text
    pub ui_is_terminal : Bool
    pub frames_drawn : ℕ
    pub took : Text → Text
    pub timestamp : Text
    pub ip_of : GetIpResult → Text

  -- The reports so far, and what has been printed.
  pub record Progress : Type 0 where
    pub reps_json : List (JsonReport float)
    pub reps_csv : List (CsvReport float)
    pub console : Console

  -- The figures of a server.
  pub record Figures : Type 0 where
    pub ping : F
    pub jitter : F
    pub download : F
    pub received : ℕ
    pub upload : F
    pub sent : ℕ
