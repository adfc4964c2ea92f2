-- ===== src/Speedtest/Run/Flow.antt =====
-- `run` of src/speedtest.rs behind its settings: the servers that are loaded, listed or tested.
use speedtest_cli_rust.Base.{
  ℕ, not, ◌&&◌, Option, none, some, List, [], ◌∷◌, ◌++◌, Result, ok, err, ◌>>=◌, if◌then◌else◌,
  get_elem?, is_empty,
}
use speedtest_cli_rust.Base.Text.{Text, codes}
use speedtest_cli_rust.Base.Int.{show}
use speedtest_cli_rust.Base.Decimal.{decimal}
use speedtest_cli_rust.Base.Float.{Float}
use speedtest_cli_rust.Url.{UrlCrate}
use speedtest_cli_rust.Output.{Output, Console, write_out, write_error, write_ui}
use speedtest_cli_rust.Output.Sanitize.{sanitize}
use speedtest_cli_rust.Http.Family.{is_set}
use speedtest_cli_rust.Cli.{csv_delimiter_byte}
use speedtest_cli_rust.Defs.Telemetry.{get_level}
use speedtest_cli_rust.Defs.Server.{sponsor}
use speedtest_cli_rust.Speedtest.Servers.{
  Server, SelectionError, either_exclude_or_server, not_found,
}
use speedtest_cli_rust.Speedtest.Load.{
  ListOptions, LoadError, stdin_failed, stdin_too_long, file_failed, invalid_url, not_fetched,
  http_status, not_parsed, not_selected, max_local_json, load_servers,
}
use speedtest_cli_rust.Speedtest.Fastest.{ping_all, fastest}
use speedtest_cli_rust.Speedtest.Run.{Args, failed, panicked, Stopped, World, Context}
use speedtest_cli_rust.Speedtest.Run.Settings.{
  line_end, output_of, Build, print_version, fatally, or_fail, force_of, no_icmp_of, Settings,
  settle,
}
use speedtest_cli_rust.Helper.Run.{TestContext, Failed}
use speedtest_cli_rust.Helper.Run.Loop.{do_speed_test}

-- The options that `load_servers` reads.
abbrev pub list_options : Args → ListOptions
list_options cli = record {
  local_json = cli.local_json;
  server_json = cli.server_json;
  exclude = cli.exclude;
  server = cli.server;
  list = cli.list;
  force = force_of cli;
}

abbrev selection_error : SelectionError → Text
selection_error either_exclude_or_server = codes "either --exclude or --server can be used"
selection_error (not_found ids) = codes "specified server(s) not found: [" ++ (ids ++ codes "]")

-- A line of `--list`, which a script reads.
abbrev pub sponsor_msg : Text → Text
sponsor_msg by = if is_empty by then [] else codes " [Sponsor: " ++ (sanitize by ++ codes "]")

abbrev pub list_line : Server → Text → Text
list_line s by =
    show s.id
    ++ (codes ": "
        ++ (sanitize s.name
            ++ (codes " (" ++ (sanitize s.server ++ (codes ") " ++ sponsor_msg by)))))

module _ (crate : UrlCrate) where
  unfoldable pub list_servers : Output → List Server → Console → Console
  list_servers out [] console = console
  list_servers out (s ∷ servers) console =
      let (by, console') = sponsor crate out s console in
      list_servers out servers (write_out (list_line s by ++ line_end) console')

module _ (float : Float) (crate : UrlCrate) (Client : Type 0) (w : World float crate Client) where
  -- The chain of an error of `load_servers`, on one line.
  unfoldable pub load_error : LoadError → Text
  load_error (stdin_failed e) = codes "cannot read server list from stdin: " ++ e
  load_error stdin_too_long =
      codes "server list from stdin exceeds " ++ (decimal max_local_json ++ codes " bytes")
  load_error (file_failed e) = e
  load_error (invalid_url url) =
      codes "invalid server list URL: " ++ (url ++ (codes ": " ++ UrlCrate.parse_error crate url))
  load_error (not_fetched e) = e
  load_error (http_status n) = codes "server list request returned HTTP " ++ w.show_status n
  load_error (not_parsed e) = e
  load_error (not_selected e) = selection_error e

  abbrev pub context_of : Args → Settings float crate Client w → Context Client
  context_of cli st = record {
    client = st.client;
    telemetry = st.telemetry;
    family = st.family;
    source = st.source;
    no_icmp = no_icmp_of float crate Client w cli;
    out = output_of cli;
  }

  abbrev pub test_context : Context Client → TestContext
  test_context ctx = record {
    out = ctx.out;
    level = get_level ctx.telemetry;
    no_icmp = ctx.no_icmp;
  }

  abbrev pub reported : Result Failed Console → Result Stopped Console
  reported (err (e, console)) = err (failed e, console)
  reported (ok console) = ok console

  -- `helper::do_speed_test`
  unfoldable pub test : Args → Context Client → List Server → Console → Result Stopped Console
  test cli ctx servers console = reported (
      do_speed_test float cli.tests (test_context ctx) crate (w.backend ctx) w.debug w.writers
        servers console)

  abbrev pub test_chosen : Args → Context Client → Console → Option Server → Result Stopped Console
  test_chosen cli ctx console none = err (panicked, console)
  test_chosen cli ctx console (some s) = test cli ctx (s ∷ []) console

  -- The server of the best ping; `fastest` gives none only of no pings.
  abbrev pub test_best :
      Args
      → Context Client
      → List Server
      → Console
      → Option (ℕ × Float.F float)
      → Result Stopped Console
  test_best cli ctx servers console none =
      fatally (codes "No server is currently available, please try again later.") console
  test_best cli ctx servers console (some (best_idx, _)) =
      test_chosen cli ctx console (get_elem? servers best_idx)

  unfoldable pub test_fastest :
      Args → Context Client → List Server → Console → Result Stopped Console
  unfolding test
  test_fastest cli ctx servers console =
      let (ping_list, pinged) =
        ping_all float crate ctx.out (w.pinger ctx) servers (w.completed servers)
          (write_ui ctx.out (codes "Selecting the fastest server based on ping\n") console) in
      test_best cli ctx servers pinged (fastest float ping_list)

  abbrev pub tested : Args → Context Client → List Server → Console → Result Stopped Console
  tested cli ctx servers console =
      if cli.list
      then ok (list_servers crate ctx.out servers console)
      else if not (is_empty cli.server)
      then test cli ctx servers console
      else test_fastest cli ctx servers console

  abbrev pub listed :
      Args → Context Client → Result LoadError (List Server) × Console → Result Stopped Console
  listed cli ctx (err e, console) = err (
    failed (load_error e),
    write_error (codes "Error when fetching server list: " ++ (sanitize (load_error e) ++ line_end))
        console,
  )
  listed cli ctx (ok servers, console) = tested cli ctx servers console

  -- Behind the settings: the servers are loaded, then listed or tested.
  unfoldable pub proceed : Args → Settings float crate Client w → Result Stopped Console
  unfolding list_servers test_fastest load_error
  proceed cli st = listed cli (context_of cli st) (
      load_servers crate (w.get_bytes st.client) w.servers_from_slice w.fs w.stdin (output_of cli)
        (list_options cli) st.console)

  abbrev pub headed : Args → Console → ℕ → Result Stopped Console
  headed cli console delimiter =
      if cli.tests.cli.csv_header
      then or_fail console (w.csv_header delimiter) >>= (λ header. ok (write_out header console))
      else settle float crate Client w cli console >>= proceed cli

  -- `run`
  unfoldable pub run : Build → Args → Console → Result Stopped Console
  unfolding proceed
  run build cli console =
      if cli.version
      then ok (print_version build console)
      else if is_set cli.source && is_set cli.interface
      then err (failed (codes "incompatible options 'source' and 'interface'"), console)
      else or_fail console (csv_delimiter_byte w.debug cli.tests.cli) >>= headed cli console
