-- ===== src/Helper/Run/Laws.antt =====
-- What scripts read of a whole run of src/helper.rs.
use mathlib.Core.List.{append-nil}
use speedtest_cli_rust.Base.{
  ℕ, Bool, true, false, List, [], ◌∷◌, ◌++◌, Result, ok, err, ◌>>=◌, if◌then◌else◌, length, ltb,
  ◌≡◌, refl, sym, ap, ◌∙◌,
}
use speedtest_cli_rust.Base.Text.{Text}
use speedtest_cli_rust.Base.Float.{Float}
use speedtest_cli_rust.Url.{UrlCrate}
use speedtest_cli_rust.Output.{Console}
use speedtest_cli_rust.Output.Streams.{
  stdout_text, stdout_text-write_error, stdout_text-write_ui, stdout_text-write_out,
  stdout_text-stream_event,
}
use speedtest_cli_rust.Cli.{csv_delimiter_byte}
use speedtest_cli_rust.Speedtest.Servers.{Server}
use speedtest_cli_rust.Helper.Run.{RunOptions, TestContext, Failed, line_end, Backend, Progress}
use speedtest_cli_rust.Helper.Run.Loop.{
  test_server, json_reports, Writers, csv_written, stream_written, json_written, final_report,
  test_servers, ended, delimited, do_speed_test,
}
use speedtest_cli_rust.Helper.Run.Discreet.{Same, IsDiscreet}
use speedtest_cli_rust.Helper.Run.Goes.{Goes, Goes-from, if_Same, test_server-Goes}

module _ (float : Float) (opts : RunOptions) (ctx : TestContext)
    (unstreamed : ctx.out.stream ≡ false) (interactive : opts.cli.simple ≡ false) where
  -- What is printed for scripts behind the tests: the rows of the CSV report, or the JSON document and
  -- a line's end, or nothing.
  abbrev or_nothing : Result Text Text → Text → Text
  or_nothing (ok t) end = t ++ end
  or_nothing (err e) end = []

  unfoldable pub document : Writers float → ℕ → Progress float → Text
  document w delimiter p =
      if opts.cli.csv
      then or_nothing (w.csv_rows p.reps_csv delimiter) []
      else if opts.cli.json_stream
      then []
      else if opts.cli.json
      then or_nothing (w.to_go_json (json_reports p.reps_json)) line_end
      else []

  csv_written-stdout :
      (r : Result Text Text) (c : Console)
      → stdout_text (csv_written float opts ctx r c) ≡ stdout_text c ++ or_nothing r []
  csv_written-stdout (ok t) c =
      stdout_text-write_out t c ∙ ap (λ u. stdout_text c ++ u) (sym (append-nil t))
  csv_written-stdout (err e) c = stdout_text-write_error _ c ∙ sym (append-nil (stdout_text c))

  stream_written-stdout :
      (r : Result Text Text) (c : Console)
      → stdout_text (stream_written float opts ctx r c) ≡ stdout_text c ++ []
  stream_written-stdout (ok t) c = stdout_text-stream_event ctx.out _ c ∙ rw unstreamed refl
  stream_written-stdout (err e) c = stdout_text-write_error _ c ∙ sym (append-nil (stdout_text c))

  json_written-stdout :
      (r : Result Text Text) (c : Console)
      → stdout_text (json_written float opts ctx r c) ≡ stdout_text c ++ or_nothing r line_end
  json_written-stdout (ok t) c = stdout_text-write_out (t ++ line_end) c
  json_written-stdout (err e) c = stdout_text-write_error _ c ∙ sym (append-nil (stdout_text c))

  final_report-stdout :
      (w : Writers float) (delimiter : ℕ) (p : Progress float)
      → stdout_text (final_report float opts ctx w delimiter p)
        ≡ stdout_text p.console ++ document w delimiter p
  unfolding final_report document
  final_report-stdout w delimiter p = go opts.cli.csv opts.cli.json_stream opts.cli.json
    where
      go :
          (csv stream json : Bool)
          → stdout_text (
              if csv
              then csv_written float opts ctx (w.csv_rows p.reps_csv delimiter) p.console
              else if stream
              then stream_written float opts ctx (w.to_go_json (json_reports p.reps_json)) p.console
              else if json
              then json_written float opts ctx (w.to_go_json (json_reports p.reps_json)) p.console
              else p.console)
            ≡ stdout_text p.console
              ++ (if csv
                  then or_nothing (w.csv_rows p.reps_csv delimiter) []
                  else if stream
                  then []
                  else if json
                  then or_nothing (w.to_go_json (json_reports p.reps_json)) line_end
                  else [])
      go true stream json = csv_written-stdout (w.csv_rows p.reps_csv delimiter) p.console
      go false true json = stream_written-stdout (w.to_go_json (json_reports p.reps_json)) p.console
      go false false true = json_written-stdout (w.to_go_json (json_reports p.reps_json)) p.console
      go false false false = sym (append-nil (stdout_text p.console))

  module _ (crate : UrlCrate) (backend : Server → Backend float)
      (discreet : (s : Server) → IsDiscreet float ctx.out (backend s)) where
    -- A failed run has printed nothing for scripts; any other, the document of all its reports.
    abbrev pub Prints :
        (Text → Text) → Writers float → List Server → Console → Result Failed Console → Type 0
    Prints debug w servers c (err (e, c')) = Same c c'
    Prints debug w servers c (ok c') =
        (delimiter : ℕ) × (start : Console) × (p : Progress float) × (csv_delimiter_byte debug
            opts.cli
          ≡ ok delimiter)
        × (test_servers float opts ctx crate backend (ltb 1 (length servers)) servers
              (record { reps_json = []; reps_csv = []; console = start })
            ≡ ok p)
        × (stdout_text c' ≡ stdout_text c ++ document w delimiter p)

    test_servers-Goes :
        (several : Bool) (servers : List Server) (p : Progress float)
        → Goes p.console (test_servers float opts ctx crate backend several servers p)
    unfolding test_servers
    test_servers-Goes several [] p = refl
    test_servers-Goes several (s ∷ servers) p =
        go (test_server float opts ctx (backend s) several s crate p)
          (test_server-Goes float opts ctx unstreamed interactive (backend s) (discreet s) several s
            crate p)
          (λ q. test_servers-Goes several servers q)
      where
        go :
            (r : Result Failed (Progress float))
            → Goes p.console r
            → ((q : Progress float)
                → Goes q.console (test_servers float opts ctx crate backend several servers q))
            → Goes p.console (r >>= test_servers float opts ctx crate backend several servers)
        go (err (e, c')) same rest = same
        go (ok q) same rest =
            Goes-from p.console q.console
              (test_servers float opts ctx crate backend several servers q) same (rest q)

    ended-Prints :
        (debug : Text → Text) (w : Writers float) (servers : List Server) (c start : Console)
        (delimiter : ℕ) (r : Result Failed (Progress float))
        → csv_delimiter_byte debug opts.cli ≡ ok delimiter
        → Same c start
        → test_servers float opts ctx crate backend
            (ltb 1 (length servers))
            servers
            (record { reps_json = []; reps_csv = []; console = start })
          ≡ r
        → Goes start r
        → Prints debug w servers c (ended float opts ctx crate backend w delimiter r)
    ended-Prints debug w servers c start delimiter (err (e, c')) d same ran go = go ∙ same
    ended-Prints debug w servers c start delimiter (ok p) d same ran go = (
      delimiter,
      start,
      p,
      d,
      ran,
      final_report-stdout w delimiter p ∙ ap (λ t. t ++ document w delimiter p) (go ∙ same),
    )

    delimited-Prints :
        (debug : Text → Text) (w : Writers float) (servers : List Server) (c start : Console)
        (r : Result Text ℕ)
        → csv_delimiter_byte debug opts.cli ≡ r
        → Same c start
        → Prints debug w servers c (delimited float opts ctx crate backend w servers start r)
    delimited-Prints debug w servers c start (err e) d same = same
    delimited-Prints debug w servers c start (ok delimiter) d same =
        ended-Prints debug w servers c start delimiter _ d same refl (
          test_servers-Goes (ltb 1 (length servers)) servers
            (record { reps_json = []; reps_csv = []; console = start }))

    -- Unless progress is streamed or `--simple` is given, scripts read of a run that succeeds the one
    -- document of its reports, and of one that fails nothing: no message, figure or link of any phase.
    pub do_speed_test-Prints :
        (debug : Text → Text) (w : Writers float) (servers : List Server) (c : Console)
        → Prints debug w servers c (do_speed_test float opts ctx crate backend debug w servers c)
    unfolding do_speed_test
    do_speed_test-Prints debug w servers c =
        delimited-Prints debug w servers c _ (csv_delimiter_byte debug opts.cli) refl
          (if_Same (ltb 1 (length servers)) c _ c (stdout_text-write_ui ctx.out _ c) refl)
