-- ===== src/Speedtest/Run/Laws.antt =====
-- Where a run of src/speedtest.rs gets to: the tests, or an early end.
use speedtest_cli_rust.Base.{
  ℕ, Bool, true, false, not, ◌&&◌, ◌||◌, Option, none, some, List, [], ◌∷◌, Result, ok, err, ◌>>=◌,
  get_elem?, is_empty, ◌≡◌, ◌⊎◌, inl, inr, refl, sym, ap, ◌∙◌, subst, Bool-cases, if◌then◌else◌,
}
use speedtest_cli_rust.Base.Text.{Text, codes}
use speedtest_cli_rust.Base.Float.{Float}
use speedtest_cli_rust.Url.{UrlCrate}
use speedtest_cli_rust.Output.{Console, write_ui, write_out}
use speedtest_cli_rust.Output.Streams.{stdout_text-write_error, stdout_text-write_ui}
use speedtest_cli_rust.Cli.{csv_delimiter_byte}
use speedtest_cli_rust.Http.Family.{is_set}
use speedtest_cli_rust.Speedtest.Servers.{Server}
use speedtest_cli_rust.Speedtest.Load.{LoadError, load_servers}
use speedtest_cli_rust.Speedtest.Fastest.{ping_all, fastest}
use speedtest_cli_rust.Speedtest.Fastest.Laws.{fastest-All}
use speedtest_cli_rust.Speedtest.Fastest.Pings.{IsQuiet, Listed, AllOwn, ping_all-AllOwn}
use speedtest_cli_rust.Speedtest.Run.{Args, failed, Stopped, World, Context}
use speedtest_cli_rust.Speedtest.Run.Settings.{
  output_of, or_fail, Build, print_version, is_bound, no_icmp_of, Settings, settle,
}
use speedtest_cli_rust.Speedtest.Run.Settings.Laws.{
  Calm, Ends, failed_calm, exited_calm, Settles, settle-Ends,
}
use speedtest_cli_rust.Speedtest.Run.Flow.{
  list_options, list_servers, context_of, test, test_chosen, test_best, test_fastest, tested,
  listed, proceed, headed, run,
}
use speedtest_cli_rust.Helper.Run.Discreet.{Same}
use speedtest_cli_rust.Speedtest.Load.Streams.{load_servers-Same}

module _ (float : Float) (crate : UrlCrate) (Client : Type 0) (w : World float crate Client)
    (cli : Args) where
  open float use {F}

  abbrev pub the_load : Settings float crate Client w → Result LoadError (List Server) × Console
  the_load st =
      load_servers crate (w.get_bytes st.client) w.servers_from_slice w.fs w.stdin (output_of cli)
        (list_options cli) st.console

  abbrev pub the_context : Settings float crate Client w → Context Client
  the_context st = context_of float crate Client w cli st

  -- The pings of a list, whose console is the first argument.
  abbrev pub the_pings : Console → Context Client → List Server → List (ℕ × F) × Console
  the_pings c ctx servers =
      ping_all float crate ctx.out (w.pinger ctx) servers (w.completed servers)
        (write_ui ctx.out (codes "Selecting the fastest server based on ping\n") c)

  -- The servers that are tested: all that were loaded for `--server`; or else one of them, that of the
  -- fastest ping.
  abbrev pub Chosen : Console → Context Client → List Server → List Server → Type 0
  Chosen c ctx found servers =
      ((is_empty cli.server ≡ false) × (servers ≡ found))
      ⊎ ((is_empty cli.server ≡ true)
          × (best : ℕ × F) × (s : Server) × (fastest float (the_pings c ctx found).0 ≡ some best)
          × (get_elem? found best.0 ≡ some s)
          × (servers ≡ s ∷ []))

  -- The tests of the servers of a list, with nothing said to scripts by then.
  abbrev pub Tested :
      Console → Console → Context Client → List Server → Result Stopped Console → Type 0
  Tested c c' ctx found r =
      (servers : List Server) × (start : Console) × Chosen c' ctx found servers
      × Same c start
      × (r ≡ test float crate Client w cli ctx servers start)

  -- The settings: a source is of the family that is asked for, and ICMP is not used from an interface
  -- or with a mark.
  abbrev pub Fits : Console → Settings float crate Client w → Type 0
  Fits c st =
      Settles float crate Client w cli c st
      × ((the_context st).no_icmp ≡ (is_bound float crate Client w cli || cli.no_icmp))

  no_icmp_lem :
      (st : Settings float crate Client w)
      → (the_context st).no_icmp ≡ (is_bound float crate Client w cli || cli.no_icmp)
  unfolding no_icmp_of
  no_icmp_lem st = elim (Bool-cases (is_bound float crate Client w cli)) [
    | inl e ↦ rw e refl
    | inr e ↦ rw e refl
  ]

  -- An early end that is no panic and has said nothing to scripts; or tests, with the settings and the
  -- list behind them.
  abbrev pub Reaches : Console → Result Stopped Console → Type 0
  Reaches c r =
      ((stopped : Stopped) × (r ≡ err stopped) × Calm c stopped)
      ⊎ ((st : Settings float crate Client w) × (found : List Server) × (settle float crate Client w
              cli c
            ≡ ok st)
          × Fits c st
          × ((the_load st).0 ≡ ok found)
          × Tested c (the_load st).1 (the_context st) found r)

  module _ (quiet : (ctx : Context Client) (idx : ℕ) → IsQuiet float (w.pinger ctx idx)) where
    -- An early end, or tests.
    abbrev Goes : Console → Console → Context Client → List Server → Result Stopped Console → Type 0
    Goes c c' ctx found r =
        ((stopped : Stopped) × (r ≡ err stopped) × Calm c stopped) ⊎ Tested c c' ctx found r

    test_best-Goes :
        (c c' c'' : Console) (ctx : Context Client) (found : List Server) (best : Option (ℕ × F))
        → is_empty cli.server ≡ true
        → fastest float (the_pings c' ctx found).0 ≡ best
        → AllOwn float crate ctx.out found c ((the_pings c' ctx found).0, c'')
        → Goes c c' ctx found (test_best float crate Client w cli ctx found c'' best)
    test_best-Goes c c' c'' ctx found none no_server chosen (all, same) =
        inl (_, refl, (exited_calm, stdout_text-write_error _ c'' ∙ same))
    test_best-Goes c c' c'' ctx found (some best) no_server chosen (all, same) =
        let (s, here) = fastest-All float (λ p. Listed float found p.0) _ all chosen in
        inr (
          s ∷ [],
          c'',
          inr (no_server, best, s, chosen, here, refl),
          same,
          ap (test_chosen float crate Client w cli ctx c'') here,
        )

    test_fastest-Goes :
        (c c' : Console) (ctx : Context Client) (found : List Server)
        → is_empty cli.server ≡ true
        → Same c c'
        → Goes c c' ctx found (test_fastest float crate Client w cli ctx found c')
    unfolding test_fastest
    test_fastest-Goes c c' ctx found no_server same =
        let (all, later) =
          ping_all-AllOwn float crate ctx.out (w.pinger ctx) found (w.completed found)
            (write_ui ctx.out (codes "Selecting the fastest server based on ping\n") c')
            (quiet ctx) in
        test_best-Goes c c' (the_pings c' ctx found).1 ctx found _ no_server refl
          (all, later ∙ (stdout_text-write_ui ctx.out _ c' ∙ same))

    tested-Goes :
        (c c' : Console) (ctx : Context Client) (found : List Server)
        → cli.list ≡ false
        → Same c c'
        → Goes c c' ctx found (tested float crate Client w cli ctx found c')
    tested-Goes c c' ctx found unlisted same = go cli.list (is_empty cli.server) unlisted refl
      where
        go :
            (list no_server : Bool)
            → list ≡ false
            → is_empty cli.server ≡ no_server
            → Goes c c' ctx found (
                if list
                then ok (list_servers crate ctx.out found c')
                else if not no_server
                then test float crate Client w cli ctx found c'
                else test_fastest float crate Client w cli ctx found c')
        go true no_server e k = cc
        go false true e k = test_fastest-Goes c c' ctx found k same
        go false false e k = inr (found, c', inl (k, refl), same, refl)

    listed-Goes :
        (c : Console) (st : Settings float crate Client w)
        (l : Result LoadError (List Server) × Console)
        → cli.list ≡ false
        → settle float crate Client w cli c ≡ ok st
        → Fits c st
        → the_load st ≡ l
        → Same c l.1
        → Reaches c (listed float crate Client w cli (the_context st) l)
    listed-Goes c st (err e, c') unlisted settled fits l same =
        inl (_, refl, (failed_calm _, stdout_text-write_error _ c' ∙ same))
    listed-Goes c st (ok found, c') unlisted settled fits l same =
        elim (tested-Goes c c' (the_context st) found unlisted same) [
          | inl early ↦ inl early
          | inr (servers, start, chosen, kept, ran) ↦ inr (
            st,
            found,
            settled,
            fits,
            ap (λ p. p.0) l,
            (
              servers,
              start,
              subst (λ t. Chosen t (the_context st) found servers) (sym (ap (λ p. p.1) l)) chosen,
              kept,
              ran,
            ),
          )
        ]

    settled-Goes :
        (c : Console) (r : Result Stopped (Settings float crate Client w))
        → cli.list ≡ false
        → settle float crate Client w cli c ≡ r
        → Ends c (Settles float crate Client w cli c) r
        → Reaches c (r >>= proceed float crate Client w cli)
    unfolding proceed
    settled-Goes c (err stopped) unlisted settled calm = inl (stopped, refl, calm)
    settled-Goes c (ok st) unlisted settled (family, own, same) =
        listed-Goes c st (the_load st) unlisted settled ((family, own, same), no_icmp_lem st) refl
          (load_servers-Same crate (w.get_bytes st.client) w.servers_from_slice w.fs w.stdin
              (output_of cli) (list_options cli) st.console
            ∙ same)

    headed-Goes :
        (c : Console) (delimiter : Result Text ℕ)
        → cli.tests.cli.csv_header ≡ false
        → cli.list ≡ false
        → Reaches c (or_fail c delimiter >>= headed float crate Client w cli c)
    headed-Goes c (err e) headless unlisted = inl (_, refl, (failed_calm e, refl))
    headed-Goes c (ok delimiter) headless unlisted = go cli.tests.cli.csv_header headless
      where
        go :
            (header : Bool)
            → header ≡ false
            → Reaches c (
                if header
                then or_fail c (w.csv_header delimiter) >>= (λ h. ok (write_out h c))
                else settle float crate Client w cli c >>= proceed float crate Client w cli)
        go true e = cc
        go false e =
            settled-Goes c (settle float crate Client w cli c) unlisted refl
              (settle-Ends float crate Client w cli c)

    -- Without `--version`, `--csv-header` and `--list`, and as long as the pings say nothing to scripts,
    -- a run ends early, by an error or with a message but not by a panic, or it tests servers; and by
    -- then nothing was printed for scripts. The servers are all that were loaded, where `--server` is
    -- given, or else a single one of them, the one of the best ping. A source address is of the family
    -- that is asked for, and ICMP is off where it was refused, or an interface or a mark is given.
    pub run-Reaches :
        (build : Build) (c : Console)
        → cli.version ≡ false
        → cli.tests.cli.csv_header ≡ false
        → cli.list ≡ false
        → Reaches c (run float crate Client w build cli c)
    unfolding run
    run-Reaches build c no_version headless unlisted =
        go cli.version (is_set cli.source && is_set cli.interface) no_version
      where
        go :
            (version conflict : Bool)
            → version ≡ false
            → Reaches c (
                if version
                then ok (print_version build c)
                else if conflict
                then err (failed (codes "incompatible options 'source' and 'interface'"), c)
                else or_fail c (csv_delimiter_byte w.debug cli.tests.cli)
                  >>= headed float crate Client w cli c)
        go true conflict e = cc
        go false true e = inl (_, refl, (failed_calm _, refl))
        go false false e =
            headed-Goes c (csv_delimiter_byte w.debug cli.tests.cli) headless unlisted
