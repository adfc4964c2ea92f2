-- ===== src/Helper/Run/Loop.antt =====
-- The loop of `do_speed_test` of src/helper.rs over its servers, and the documents behind it.
use speedtest_cli_rust.Base.{
  ℕ, Bool, not, Option, none, some, List, [], ◌∷◌, ◌++◌, Result, ok, err, ◌>>=◌, if◌then◌else◌,
  is_empty, length, ltb,
}
use speedtest_cli_rust.Base.Text.{Text, codes}
use speedtest_cli_rust.Base.Decimal.{decimal}
use speedtest_cli_rust.Base.Float.{Float}
use speedtest_cli_rust.Url.{UrlCrate}
use speedtest_cli_rust.Output.{Console, write_out, write_error, write_ui, write_debug, stream_event}
use speedtest_cli_rust.Output.Sanitize.{sanitize}
use speedtest_cli_rust.Cli.{csv_delimiter_byte}
use speedtest_cli_rust.Defs.Ip.{GetIpResult}
use speedtest_cli_rust.Defs.Telemetry.{TelemetryLog, set_level}
use speedtest_cli_rust.Defs.Telemetry
use speedtest_cli_rust.Defs.Server.{Done, ServerStatus, get_url, sponsor}
use speedtest_cli_rust.Report.Documents.{JsonReport, CsvReport}
use speedtest_cli_rust.Speedtest.Servers.{Server}
use speedtest_cli_rust.Helper.Run.{
  RunOptions, TestContext, Failed, line_end, or_default, report_failure, Backend, Progress, Figures,
}
use speedtest_cli_rust.Helper.Run.Turn.{blank_between, ping_phase, download_phase, upload_phase}
use speedtest_cli_rust.Helper.Run.Closing.{simple_lines, share, report}

module _ (float : Float) (opts : RunOptions) (ctx : TestContext) where
  open float use {F}

  module _ (b : Backend float) (several : Bool) (s : Server) where
    -- Behind the measurements: the simple lines, the share link and the report.
    abbrev pub concluded :
        ServerStatus
        → GetIpResult
        → TelemetryLog
        → Console
        → Progress float
        → Figures float
        → Progress float
    concluded status info log console p f =
        let (link, shared) =
          share float opts ctx b s info f log (simple_lines float opts ctx b f console) in
        report float opts ctx b s status info f link (blank_between ctx.out several shared) p

    -- The phases, one behind the other; the first that fails ends the run.
    unfoldable pub measured :
        ServerStatus → Progress float → Done GetIpResult → Result Failed (Progress float)
    measured status p info = do
      pinged ← ping_phase float opts ctx b info.log info.console
      down ← download_phase float opts ctx b pinged.log pinged.console
      up ← upload_phase float opts ctx b down.log down.console
      ok (
          concluded status info.value up.log up.console p (record {
            ping = pinged.value.0;
            jitter = pinged.value.1;
            download = down.value.0;
            received = down.value.1;
            upload = up.value.0;
            sent = up.value.1;
          }))

    -- What is said of the client, before the phases.
    abbrev pub informed :
        ServerStatus
        → Console
        → Progress float
        → Result Text (Done GetIpResult)
        → Result Failed (Progress float)
    informed status console p (err e) =
        err (report_failure (codes "Failed to get IP info") e console)
    informed status console p (ok d) =
        let shown = sanitize d.value.processed_string in
        measured status p (record d {
          console =
              write_debug ctx.out (codes "IP info: " ++ (shown ++ line_end))
                (write_ui ctx.out (codes "You're testing from: " ++ (shown ++ line_end)) d.console);
        })

    abbrev pub probed : Text → Progress float → Done ServerStatus → Result Failed (Progress float)
    probed hostname p d =
        if not d.value.up
        then ok (record p {
          console = blank_between ctx.out several (
              write_ui ctx.out
                (codes "Selected server "
                  ++ (sanitize s.name
                      ++ (codes " ("
                          ++ (sanitize hostname
                              ++ codes ") is not responding at the moment, try again later\n"))))
                d.console);
        })
        else let asking = write_debug ctx.out (codes "Fetching IP info\n") d.console in
          informed d.value asking p (b.get_ip_info d.log asking)

    module _ (crate : UrlCrate) where
      open crate use {Url, host_str}

      -- The lines that introduce a server, its sponsor's among them.
      abbrev pub introduced : Text → Console → Console
      introduced hostname console =
          let named =
            write_ui ctx.out
              (codes "Selected server: "
                ++ (sanitize s.name ++ (codes " [" ++ (sanitize hostname ++ codes "]\n"))))
              console in
          let (msg, sponsored) = sponsor crate ctx.out s (
            write_debug ctx.out
              (codes "Testing against "
                ++ (sanitize s.name ++ (codes " (" ++ (sanitize s.server ++ codes ")\n"))))
              named) in
          if is_empty msg
          then sponsored
          else write_ui ctx.out (codes "Sponsored by: " ++ (sanitize msg ++ line_end)) sponsored

      abbrev pub addressed : Progress float → Result Text Url → Result Failed (Progress float)
      addressed p (err e) = err (report_failure (codes "Failed to get server URL") e p.console)
      addressed p (ok u) =
          let hostname = or_default (host_str u) in
          probed hostname p
            (b.is_up (set_level Telemetry.new ctx.level) (introduced hostname p.console))

      -- The body of the loop.
      unfoldable pub test_server : Progress float → Result Failed (Progress float)
      unfolding measured
      test_server p = addressed p (get_url crate s)

-- `json_reports`: no reports are `null`.
unfoldable pub json_reports : {A : Type 0} → List A → Option (List A)
json_reports reports = if is_empty reports then none else some reports

-- The documents that serde_json and csv make.
pub record Writers (float : Float) : Type 0 where
  pub csv_rows : List (CsvReport float) → ℕ → Result Text Text
  pub to_go_json : Option (List (JsonReport float)) → Result Text Text

module _ (float : Float) (opts : RunOptions) (ctx : TestContext) where
  abbrev pub csv_written : Result Text Text → Console → Console
  csv_written (ok s) console = write_out s console
  csv_written (err e) console =
      write_error (codes "Error generating CSV report: " ++ (e ++ line_end)) console

  abbrev pub result_event : Text → Text
  result_event s = codes "{\"event\":\"result\",\"reports\":" ++ (s ++ codes "}")

  abbrev pub stream_written : Result Text Text → Console → Console
  stream_written (ok s) console = stream_event ctx.out (result_event s) console
  stream_written (err e) console =
      write_error (codes "Error generating JSON report: " ++ (e ++ line_end)) console

  abbrev pub json_written : Result Text Text → Console → Console
  json_written (ok s) console = write_out (s ++ line_end) console
  json_written (err e) console =
      write_error (codes "Error generating JSON report: " ++ (e ++ line_end)) console

  -- The report of the whole run.
  unfoldable pub final_report : Writers float → ℕ → Progress float → Console
  unfolding json_reports
  final_report w delimiter p =
      if opts.cli.csv
      then csv_written (w.csv_rows p.reps_csv delimiter) p.console
      else if opts.cli.json_stream
      then stream_written (w.to_go_json (json_reports p.reps_json)) p.console
      else if opts.cli.json
      then json_written (w.to_go_json (json_reports p.reps_json)) p.console
      else p.console

  module _ (crate : UrlCrate) (backend : Server → Backend float) where
    -- `for current_server in servers`
    unfoldable pub test_servers :
        Bool → List Server → Progress float → Result Failed (Progress float)
    test_servers several [] p = ok p
    test_servers several (s ∷ servers) p =
        test_server float opts ctx (backend s) several s crate p >>= test_servers several servers

    abbrev pub ended : Writers float → ℕ → Result Failed (Progress float) → Result Failed Console
    ended w delimiter (err failed) = err failed
    ended w delimiter (ok p) = ok (final_report w delimiter p)

    abbrev pub delimited :
        Writers float → List Server → Console → Result Text ℕ → Result Failed Console
    delimited w servers console (err e) = err (e, console)
    delimited w servers console (ok delimiter) = ended w delimiter (
        test_servers (ltb 1 (length servers)) servers
          (record { reps_json = []; reps_csv = []; console = console }))

    -- `do_speed_test`
    unfoldable pub do_speed_test :
        (Text → Text) → Writers float → List Server → Console → Result Failed Console
    unfolding test_servers final_report
    do_speed_test debug w servers console =
        delimited w servers
          (if ltb 1 (length servers)
            then write_ui ctx.out
                (codes "Testing against " ++ (decimal (length servers) ++ codes " servers\n"))
                console
            else console)
          (csv_delimiter_byte debug opts.cli)
