-- ===== src/Speedtest/Fastest/Pings.antt =====
-- What `ping_all` of src/speedtest.rs prints, and which servers its pings are of.
use speedtest_cli_rust.Base.{
  ℕ, Option, none, some, List, [], ◌∷◌, Result, ok, err, get_elem?, All, ◌≡◌, refl, ap, ◌∙◌, inl,
  inr, Bool-cases,
}
use speedtest_cli_rust.Base.Text.{Text}
use speedtest_cli_rust.Base.Float.{Float}
use speedtest_cli_rust.Url.{UrlCrate}
use speedtest_cli_rust.Output.{Output, Console}
use speedtest_cli_rust.Output.Streams.{stdout_text-write_debug}
use speedtest_cli_rust.Defs.Telemetry.{TelemetryLog}
use speedtest_cli_rust.Defs.Telemetry
use speedtest_cli_rust.Defs.Server.{Done, ServerStatus, get_url}
use speedtest_cli_rust.Speedtest.Servers.{Server}
use speedtest_cli_rust.Speedtest.Fastest.{
  Pinger, host_or_default, timed, probed, addressed, ping_one, gathered, task, ping_all,
}
use speedtest_cli_rust.Helper.Run.Discreet.{Same}

module _ (float : Float) where
  open float use {F}

  -- A pinger that says nothing to scripts.
  pub record IsQuiet (p : Pinger float) : Type 0 where
    pub probes : (log : TelemetryLog) (c : Console) → Same c (p.is_up log c).console
    pub pings : (log : TelemetryLog) (c : Console) → Same c (p.ping_and_jitter log c).console

  -- A server's own number, or none, and a console with nothing new for scripts.
  abbrev Own : ℕ → Console → Option (ℕ × F) × Console → Type 0
  Own idx c (none, c') = Same c c'
  Own idx c (some found, c') = (found.0 ≡ idx) × Same c c'

  -- The number of a server in a list.
  abbrev pub Listed : List Server → ℕ → Type 0
  Listed servers idx = (s : Server) × (get_elem? servers idx ≡ some s)

  module _ (crate : UrlCrate) (out : Output) where
    timed-Own :
        (idx : ℕ) (s : Server) (hostname : Text) (c c' : Console) (r : Result Text (F × F))
        → Same c c'
        → Own idx c (timed float crate out idx s hostname c' r)
    timed-Own idx s hostname c c' (ok (ping, jitter)) same = (refl, same)
    timed-Own idx s hostname c c' (err e) same = stdout_text-write_debug out _ c' ∙ same

    probed-Own :
        (idx : ℕ) (s : Server) (p : Pinger float) (hostname : Text) (c : Console)
        (d : Done ServerStatus)
        → IsQuiet p
        → Same c d.console
        → Own idx c (probed float crate out idx s p hostname d)
    probed-Own idx s p hostname c d quiet same = elim (Bool-cases d.value.up) [
      | inl e ↦ rw e (timed-Own idx s hostname c _ _ (quiet.pings d.log d.console ∙ same))
      | inr e ↦ rw e (stdout_text-write_debug out _ d.console ∙ same)
    ]

    ping_one-Own :
        (idx : ℕ) (s : Server) (p : Pinger float) (c : Console)
        → IsQuiet p
        → Own idx c (ping_one float crate out idx s p c)
    unfolding ping_one
    ping_one-Own idx s p c quiet = go (get_url crate s)
      where
        go :
            (r : Result Text (UrlCrate.Url crate))
            → Own idx c (addressed float crate out idx s p c r)
        go (err e) = stdout_text-write_debug out _ c
        go (ok u) =
            probed-Own idx s p (host_or_default (UrlCrate.host_str crate u)) c
              (p.is_up Telemetry.new c) quiet (quiet.probes Telemetry.new c)

    -- Pings, each of a server of the list, and a console with nothing new for scripts.
    abbrev pub AllOwn : List Server → Console → List (ℕ × F) × Console → Type 0
    AllOwn servers c (pings, c') = All (λ p. Listed servers p.0) pings × Same c c'

    joined :
        (servers : List Server) (idx : ℕ) (s : Server) (c : Console)
        (found : Option (ℕ × F) × Console) (next : Console → List (ℕ × F) × Console)
        → get_elem? servers idx ≡ some s
        → Own idx c found
        → ((c' : Console) → AllOwn servers c' (next c'))
        → AllOwn servers c (gathered float crate out found.0 next found.1)
    joined servers idx s c (none, c') next e same more =
        let (all, later) = more c' in (all, later ∙ same)
    joined servers idx s c (some (i, ping), c') next e (own, same) more =
        let (all, later) = more c' in (((s, ap (get_elem? servers) own ∙ e), all), later ∙ same)

    pub ping_all-AllOwn :
        (pinger : ℕ → Pinger float) (servers : List Server) (order : List ℕ) (c : Console)
        → ((idx : ℕ) → IsQuiet (pinger idx))
        → AllOwn servers c (ping_all float crate out pinger servers order c)
    unfolding ping_all
    ping_all-AllOwn pinger servers [] c quiet = (tt, refl)
    ping_all-AllOwn pinger servers (idx ∷ order) c quiet =
        go (get_elem? servers idx) refl (λ c'. ping_all-AllOwn pinger servers order c' quiet)
      where
        go :
            (s : Option Server)
            → get_elem? servers idx ≡ s
            → ((c' : Console)
                → AllOwn servers c' (ping_all float crate out pinger servers order c'))
            → AllOwn servers c (
                let (found, c') = task float crate out pinger idx s c in
                gathered float crate out found (ping_all float crate out pinger servers order) c')
        go none e more = more c
        go (some s) e more =
            joined servers idx s c (ping_one float crate out idx s (pinger idx) c)
              (ping_all float crate out pinger servers order) e
              (ping_one-Own idx s (pinger idx) c (quiet idx)) more
