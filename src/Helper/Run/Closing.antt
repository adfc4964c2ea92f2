-- ===== src/Helper/Run/Closing.antt =====
-- What follows the phases of a test in `do_speed_test` of src/helper.rs: the simple lines, the share
-- link and the report.
use speedtest_cli_rust.Base.{not, ◌&&◌, ◌||◌, [], ◌∷◌, ◌++◌, Result, ok, err, if◌then◌else◌, ltb}
use speedtest_cli_rust.Base.Text.{Text, codes}
use speedtest_cli_rust.Base.Float.{Float}
use speedtest_cli_rust.Output.{Console, write_out, write_error, write_ui}
use speedtest_cli_rust.Util.Numbers.{round2}
use speedtest_cli_rust.Defs.Ip.{GetIpResult, ip_info}
use speedtest_cli_rust.Defs.Telemetry.{TelemetryLog, contents}
use speedtest_cli_rust.Defs.Server.{ServerStatus}
use speedtest_cli_rust.Report.{client}
use speedtest_cli_rust.Report.Documents.{JsonReport, CsvReport}
use speedtest_cli_rust.Speedtest.Servers.{Server}
use speedtest_cli_rust.Helper.Run.{
  RunOptions, TestContext, line_end, or_default, humanize_rate, Backend, Progress, Figures,
}
use speedtest_cli_rust.Helper.Run.Turn.{two_figures}

module _ (float : Float) (opts : RunOptions) (ctx : TestContext) (b : Backend float) where
  open float use {F, of_nat, fixed}

  -- What `--simple` prints.
  unfoldable pub simple_lines : Figures float → Console → Console
  simple_lines f console =
      if opts.cli.simple
      then write_out
          (codes "Ping:\t"
            ++ (two_figures float opts ctx b f.ping f.jitter (codes "\tJitter:\t")
                ++ (codes "Download rate:\t"
                    ++ (humanize_rate float f.download opts.bytes opts.mebibytes
                        ++ (codes "\nUpload rate:\t"
                            ++ (humanize_rate float f.upload opts.bytes opts.mebibytes
                                ++ line_end))))))
          console
      else console

  -- The share link, and where it is shown.
  abbrev pub share_line : Text → Text
  share_line link = codes "Share your result: " ++ (link ++ line_end)

  abbrev pub shared : Result Text Text → Console → Text × Console
  shared (ok link) console = (
    link,
    if not opts.cli.json && not opts.cli.csv
        then (if opts.cli.simple
            then write_out (share_line link) console
            else write_ui ctx.out (share_line link) console)
        else console,
  )
  shared (err e) console =
      ([], write_error (codes "Error when sending telemetry data: " ++ (e ++ line_end)) console)

  unfoldable pub share :
      Server → GetIpResult → Figures float → TelemetryLog → Console → Text × Console
  share s info f log console =
      if ltb 0 ctx.level
      then shared
          (b.send_telemetry info f.download f.upload f.ping f.jitter (contents log)
            (record { server_name = s.name; extra = or_default opts.telemetry_extra }))
          console
      else ([], console)

  -- The report of a server: a CSV row, which takes precedence, or a JSON document, or none.
  abbrev csv_report : Server → GetIpResult → Figures float → Text → CsvReport float
  csv_report s info f link = record {
    timestamp = b.timestamp;
    name = s.name;
    address = s.server;
    ping = round2 float f.ping;
    jitter = round2 float f.jitter;
    download = round2 float f.download;
    upload = round2 float f.upload;
    share = link;
    ip = b.ip_of info;
  }

  abbrev json_report : Server → ServerStatus → GetIpResult → Figures float → Text → JsonReport float
  json_report s status info f link = record {
    timestamp = b.timestamp;
    server = record { name = s.name; url = s.server };
    client = client (record (ip_info info) { readme = []; ip = b.ip_of info });
    bytes_sent = f.sent;
    bytes_received = f.received;
    ping = round2 float f.ping;
    jitter = round2 float f.jitter;
    upload = round2 float f.upload;
    download = round2 float f.download;
    share = link;
    tls = status.tls;
  }

  unfoldable pub report :
      Server
      → ServerStatus
      → GetIpResult
      → Figures float
      → Text
      → Console
      → Progress float
      → Progress float
  report s status info f link console p =
      if opts.cli.csv
      then record p { reps_csv = p.reps_csv ++ csv_report s info f link ∷ []; console = console }
      else if opts.cli.json || opts.cli.json_stream
      then record p {
        reps_json = p.reps_json ++ json_report s status info f link ∷ [];
        console = console;
      }
      else record p { console = console }
