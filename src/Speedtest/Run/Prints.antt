-- ===== src/Speedtest/Run/Prints.antt =====
-- What scripts read of `run` of src/speedtest.rs, from the options to the report.
use speedtest_cli_rust.Base.{ℕ, false, List, Result, ok, err, ◌≡◌, inl, inr, sym, ◌∙◌, subst}
use speedtest_cli_rust.Base.Float.{Float}
use speedtest_cli_rust.Url.{UrlCrate}
use speedtest_cli_rust.Output.{Console}
use speedtest_cli_rust.Speedtest.Servers.{Server}
use speedtest_cli_rust.Speedtest.Fastest.Pings.{IsQuiet}
use speedtest_cli_rust.Speedtest.Run.{Args, Stopped, World, Context}
use speedtest_cli_rust.Speedtest.Run.Settings.{output_of, Build, Settings, settle}
use speedtest_cli_rust.Speedtest.Run.Settings.Laws.{Calm, failed_calm}
use speedtest_cli_rust.Speedtest.Run.Flow.{test_context, reported, test, run}
use speedtest_cli_rust.Speedtest.Run.Laws.{
  the_context, the_load, Fits, Chosen, Reaches, run-Reaches,
}
use speedtest_cli_rust.Helper.Run.{Failed}
use speedtest_cli_rust.Helper.Run.Discreet.{Same, IsDiscreet}
use speedtest_cli_rust.Helper.Run.Laws.{Prints, do_speed_test-Prints}

module _ (float : Float) (crate : UrlCrate) (Client : Type 0) (w : World float crate Client)
    (cli : Args) (unstreamed : cli.tests.cli.json_stream ≡ false)
    (interactive : cli.tests.cli.simple ≡ false)
    (discreet : (ctx : Context Client) (s : Server)
      → IsDiscreet float ctx.out (w.backend ctx s)) where
  pub unstreamed_context :
      (st : Settings float crate Client w)
      → (the_context float crate Client w cli st).out.stream ≡ false
  unfolding output_of
  unstreamed_context st = unstreamed

  abbrev PrintsFrom :
      Settings float crate Client w → List Server → Console → Result Failed Console → Type 0
  PrintsFrom st servers c r =
      let ctx = the_context float crate Client w cli st in
      Prints float cli.tests (test_context float crate Client w ctx) (unstreamed_context st)
        interactive crate (w.backend ctx) (discreet ctx) w.debug w.writers servers c r

  -- The settings that the options give, and the servers of its own list that a run tests by them, with
  -- nothing said to scripts by then.
  abbrev pub Ready : Console → Settings float crate Client w → List Server → Console → Type 0
  Ready c st servers start =
      (found : List Server) × (settle float crate Client w cli c ≡ ok st)
      × Fits float crate Client w cli c st
      × ((the_load float crate Client w cli st).0 ≡ ok found)
      × Chosen float crate Client w cli (the_load float crate Client w cli st).1
          (the_context float crate Client w cli st) found servers
      × Same c start

  -- Of an early end or a failure scripts have read nothing, and it is no panic; of a run that succeeds,
  -- what the tests of its servers print.
  abbrev pub Printed : Console → Result Stopped Console → Type 0
  Printed c (err stopped) = Calm c stopped
  Printed c (ok c') =
      (st : Settings float crate Client w) × (servers : List Server) × (start : Console) × Ready c
        st servers start
      × PrintsFrom st servers start (ok c')

  reported-Printed :
      (st : Settings float crate Client w) (servers : List Server) (c start : Console)
      (r : Result Failed Console)
      → Ready c st servers start
      → PrintsFrom st servers start r
      → Printed c (reported float crate Client w r)
  reported-Printed st servers c start (err (e, c')) (_, _, _, _, _, same) prints =
      (failed_calm e, prints ∙ same)
  reported-Printed st servers c start (ok c') ready prints = (st, servers, start, ready, prints)

  test-Printed :
      (st : Settings float crate Client w) (servers : List Server) (c start : Console)
      → Ready c st servers start
      → Printed c
          (test float crate Client w cli (the_context float crate Client w cli st) servers start)
  unfolding test
  test-Printed st servers c start ready =
      let ctx = the_context float crate Client w cli st in
      reported-Printed st servers c start _ ready (
        do_speed_test-Prints float cli.tests (test_context float crate Client w ctx)
          (unstreamed_context st) interactive crate (w.backend ctx) (discreet ctx) w.debug w.writers
          servers start)

  Reaches-Printed :
      (c : Console) (r : Result Stopped Console)
      → Reaches float crate Client w cli c r
      → Printed c r
  Reaches-Printed c r (inl (stopped, e, calm)) = subst (Printed c) (sym e) calm
  Reaches-Printed c r (inr (st, found, settled, fits, l, (servers, start, chosen, same, e))) =
      subst (Printed c) (sym e)
        (test-Printed st servers c start (found, settled, fits, l, chosen, same))

  -- With neither `--version`, `--csv-header` nor `--list`, with `--json`, `--csv` or neither of them, and
  -- as long as pings and measurements keep off stdout, scripts read of a whole run that succeeds the
  -- document of its reports, and of one that ends early or fails nothing; and no run panics.
  pub run-Printed :
      ((ctx : Context Client) (idx : ℕ) → IsQuiet float (w.pinger ctx idx))
      → (build : Build) (c : Console) → cli.version ≡ false
      → cli.tests.cli.csv_header ≡ false
      → cli.list ≡ false
      → Printed c (run float crate Client w build cli c)
  run-Printed quiet build c no_version headless unlisted =
      Reaches-Printed c _
        (run-Reaches float crate Client w cli quiet build c no_version headless unlisted)
