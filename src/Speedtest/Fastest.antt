-- ===== src/Speedtest/Fastest.antt =====
-- `ping_all` of src/speedtest.rs, and the choice of the fastest server in `run`. Ten servers are
-- pinged at a time, so that their results come in any order: the order of completion is an argument.
pub mod Laws
pub mod Pings
use speedtest_cli_rust.Base.{
  ℕ, Bool, true, false, not, Option, none, some, List, [], ◌∷◌, ◌++◌, Result, ok, err,
  if◌then◌else◌, keep, get_elem?,
}
use speedtest_cli_rust.Base.Text.{Text, codes}
use speedtest_cli_rust.Base.Float.{Float}
use speedtest_cli_rust.Url.{UrlCrate}
use speedtest_cli_rust.Output.{Output, Console, write_debug}
use speedtest_cli_rust.Output.Sanitize.{sanitize}
use speedtest_cli_rust.Defs.Telemetry.{TelemetryLog}
use speedtest_cli_rust.Defs.Telemetry
use speedtest_cli_rust.Defs.Server.{Done, ServerStatus, get_url}
use speedtest_cli_rust.Speedtest.Servers.{Server}

-- The probe of a server, and the ping of one echo, with the log and the console behind each.
pub record Pinger (float : Float) : Type 0 where
  pub is_up : TelemetryLog → Console → Done ServerStatus
  pub ping_and_jitter : TelemetryLog → Console → Done (Result Text (Float.F float × Float.F float))

abbrev pub host_or_default : Option Text → Text
host_or_default none = []
host_or_default (some host) = host

module _ (float : Float) where
  open float use {F, of_nat, lt, total_le}

  module _ (crate : UrlCrate) (out : Output) where
    open crate use {Url, host_str}

    abbrev skipping : Text → Text → Text → Text → Console → Console
    skipping before name shown why console =
        write_debug out
          (before ++ (sanitize name ++ (codes " (" ++ (sanitize shown ++ (codes ")" ++ why)))))
          console

    abbrev pub timed : ℕ → Server → Text → Console → Result Text (F × F) → Option (ℕ × F) × Console
    timed idx s hostname console (ok (ping, jitter)) = (some (idx, ping), console)
    timed idx s hostname console (err e) =
        (none, skipping (codes "Can't ping server ") s.name hostname (codes ", skipping\n") console)

    abbrev pub probed :
        ℕ → Server → Pinger float → Text → Done ServerStatus → Option (ℕ × F) × Console
    probed idx s p hostname d =
        if not d.value.up
        then (
          none,
          skipping (codes "Server ") s.name hostname (codes " doesn't seem to be up, skipping\n")
              d.console,
        )
        else let t = p.ping_and_jitter d.log d.console in timed idx s hostname t.console t.value

    abbrev pub addressed :
        ℕ → Server → Pinger float → Console → Result Text Url → Option (ℕ × F) × Console
    addressed idx s p console (err e) = (
      none,
      skipping (codes "Server URL is invalid for ") s.name s.server (codes ", skipping\n") console,
    )
    addressed idx s p console (ok u) =
        probed idx s p (host_or_default (host_str u)) (p.is_up Telemetry.new console)

    -- The task of one server: its number and its ping, if it answers.
    unfoldable pub ping_one : ℕ → Server → Pinger float → Console → Option (ℕ × F) × Console
    ping_one idx s p console = addressed idx s p console (get_url crate s)

    abbrev pub gathered :
        Option (ℕ × F) → (Console → List (ℕ × F) × Console) → Console → List (ℕ × F) × Console
    gathered none next console = next console
    gathered (some found) next console =
        let (more, console') = next console in (found ∷ more, console')

    -- The results in the order of completion.
    abbrev pub task : (ℕ → Pinger float) → ℕ → Option Server → Console → Option (ℕ × F) × Console
    task pinger idx none console = (none, console)
    task pinger idx (some s) console = ping_one idx s (pinger idx) console

    unfoldable pub ping_all :
        (ℕ → Pinger float) → List Server → List ℕ → Console → List (ℕ × F) × Console
    unfolding ping_one
    ping_all pinger servers [] console = ([], console)
    ping_all pinger servers (idx ∷ order) console =
        let (found, console') = task pinger idx (get_elem? servers idx) console in
        gathered found (ping_all pinger servers order) console'

  -- `min_by(total_cmp)`, which keeps the first of equals.
  unfoldable pub least_from : ℕ × F → List (ℕ × F) → ℕ × F
  least_from best [] = best
  least_from (i, a) ((j, b) ∷ pings) = least_from (if total_le a b then (i, a) else (j, b)) pings

  abbrev pub min_by : List (ℕ × F) → Option (ℕ × F)
  min_by [] = none
  min_by (p ∷ pings) = some (least_from p pings)

  abbrev pub is_positive : ℕ × F → Bool
  is_positive (i, ping) = lt (of_nat 0) ping

  abbrev pub or_first : List (ℕ × F) → Option (ℕ × F) → Option (ℕ × F)
  or_first pings (some best) = some best
  or_first [] none = none
  or_first (p ∷ pings) none = some p

  -- The best of the pings; `none` only where there are none.
  unfoldable pub fastest : List (ℕ × F) → Option (ℕ × F)
  unfolding least_from
  fastest pings = or_first pings (min_by (keep is_positive pings))
