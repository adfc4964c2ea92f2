-- ===== src/Helper/Run/Turn.antt =====
-- The test of one server in `do_speed_test` of src/helper.rs, phase by phase.
use speedtest_cli_rust.Base.{
  ℕ, zero, suc, Bool, not, ◌&&◌, Option, none, some, [], ◌++◌, Result, ok, err, if◌then◌else◌,
}
use speedtest_cli_rust.Base.Text.{Text, codes}
use speedtest_cli_rust.Base.Decimal.{decimal}
use speedtest_cli_rust.Base.Float.{Float}
use speedtest_cli_rust.Output.{Output, Console, write_ui, write_debug, write_ui_blank, stream_event}
use speedtest_cli_rust.Spinner
use speedtest_cli_rust.Spinner.{Spinner, draw}
use speedtest_cli_rust.Defs.Telemetry.{TelemetryLog}
use speedtest_cli_rust.Defs.Server.{Done}
use speedtest_cli_rust.Helper.Run.{
  RunOptions, TestContext, Failed, report_failure, ping_count, humanize_rate, Backend,
}

-- `write_ui_blank` where several servers are tested and the run is not quiet.
abbrev pub blank_between : Output → Bool → Console → Console
blank_between out several console =
    if several && not out.quiet then write_ui_blank console else console

-- Frames of a spinner without a suffix.
unfoldable pub draw_frames : ℕ → Spinner → Console → Spinner × Console
draw_frames zero s console = (s, console)
draw_frames (suc n) s console = let (s', console') = draw s [] console in draw_frames n s' console'

abbrev pub stopped : Option (Spinner × Console) → Text → Console → Console
stopped none final console = console
stopped (some (s, _)) final console = Spinner.stop s final console

module _ (float : Float) (opts : RunOptions) (ctx : TestContext) (b : Backend float) where
  open float use {F, of_nat, fixed}

  -- A phase's value with the console and the log behind it, or the failure of the run.
  abbrev pub Phased : Type 0 → Type 0
  Phased A = Result Failed (Done A)

  abbrev pub phase_event : Text → Text
  phase_event name = codes "{\"event\":\"phase\",\"phase\":\"" ++ (name ++ codes "\"}")

  -- What a transfer came to.
  abbrev pub transferred :
      Text → Text → Text → Console → TelemetryLog → Result Text (F × ℕ) → Phased (F × ℕ)
  transferred name failure moved console log (err e) = err (report_failure failure e console)
  transferred name failure moved console log (ok (mbps, bytes)) = ok (record {
    value = (mbps, bytes);
    console =
        write_debug ctx.out
          (name
            ++ (codes " test finished in "
                ++ (b.took name
                    ++ (codes ": "
                        ++ (humanize_rate float mbps opts.bytes opts.mebibytes
                            ++ (codes ", " ++ (decimal bytes ++ moved)))))))
          console;
    log = log;
  })

  abbrev skipped : Text → Console → TelemetryLog → Phased (F × ℕ)
  skipped name console log = ok (record {
    value = (of_nat 0, 0);
    console =
        write_debug ctx.out (name ++ codes " test skipped\n")
          (write_ui ctx.out (name ++ codes " test is disabled\n") console);
    log = log;
  })

  -- `Download.` and `Upload.` of the loop's body.
  unfoldable pub download_phase : TelemetryLog → Console → Phased (F × ℕ)
  download_phase log console =
      if opts.no_download
      then skipped (codes "Download") console log
      else let started = stream_event ctx.out (phase_event (codes "download")) (
          write_debug ctx.out
            (codes "Download test starting: "
              ++ (decimal opts.concurrent
                  ++ (codes " stream(s), "
                      ++ (decimal opts.chunks
                          ++ (codes " chunk(s), up to "
                              ++ (decimal opts.duration ++ codes "s\n"))))))
            console) in
        let d = b.download log started in
        transferred (codes "Download") (codes "Failed to get download speed")
          (codes " byte(s) received\n") d.console d.log d.value

  unfoldable pub upload_phase : TelemetryLog → Console → Phased (F × ℕ)
  upload_phase log console =
      if opts.no_upload
      then skipped (codes "Upload") console log
      else let started = stream_event ctx.out (phase_event (codes "upload")) (
          write_debug ctx.out
            (codes "Upload test starting: "
              ++ (decimal opts.concurrent
                  ++ (codes " stream(s), "
                      ++ (decimal opts.upload_size
                          ++ (codes " KiB per request, up to "
                              ++ (decimal opts.duration ++ codes "s\n"))))))
            console) in
        let d = b.upload log started in
        transferred (codes "Upload") (codes "Failed to get upload speed") (codes " byte(s) sent\n")
          d.console d.log d.value

  -- `Latency and jitter.`
  abbrev pub ping_spinner : Console → Option (Spinner × Console)
  ping_spinner console =
      if ctx.out.quiet
      then none
      else some (
          draw_frames b.frames_drawn
            (Spinner.start b.ui_is_terminal ctx.out (codes "Pinging server...  ")) console)

  abbrev pub console_of : Option (Spinner × Console) → Console → Console
  console_of none console = console
  console_of (some (_, console')) console = console'

  abbrev pub two_figures : F → F → Text → Text
  two_figures ping jitter between =
      fixed 2 ping ++ (codes " ms" ++ (between ++ (fixed 2 jitter ++ codes " ms\n")))

  abbrev pub pinged :
      Option (Spinner × Console) → Console → TelemetryLog → Result Text (F × F) → Phased (F × F)
  pinged spinner console log (err e) =
      err (report_failure (codes "Failed to get ping and jitter") e (stopped spinner [] console))
  pinged spinner console log (ok (ping, jitter)) = ok (record {
    value = (ping, jitter);
    console = stopped spinner (codes "Ping: " ++ two_figures ping jitter (codes "\tJitter: ")) (
        write_debug ctx.out
          (codes "Ping test finished in "
            ++ (b.took (codes "Ping")
                ++ (codes ": ping " ++ two_figures ping jitter (codes ", jitter "))))
          console);
    log = log;
  })

  unfoldable pub ping_phase : TelemetryLog → Console → Phased (F × F)
  unfolding draw_frames
  ping_phase log console =
      let spinner = ping_spinner console in
      let started = stream_event ctx.out (phase_event (codes "ping")) (
        write_debug ctx.out
          (codes "Ping test starting: "
            ++ (decimal ping_count
                ++ (codes " pings, ICMP: "
                    ++ (if ctx.no_icmp then codes "false\n" else codes "true\n"))))
          (console_of spinner console)) in
      let d = b.ping_and_jitter log started in pinged spinner d.console d.log d.value
