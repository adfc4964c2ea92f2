-- ===== src/Defs/Server/Pings.antt =====
-- `ping_and_jitter` and `icmp_ping_and_jitter` of src/defs/server.rs, with what they write and log.
-- The HTTP requests, name resolution and ICMP are arguments.
use speedtest_cli_rust.Base.{
  ℕ, zero, suc, ◌+◌, Bool, true, false, Option, none, some, List, [], ◌∷◌, ◌++◌, Result, ok, err,
  if◌then◌else◌, length, drop, ltb,
}
use speedtest_cli_rust.Base.Text.{Text, codes, eq_text}
use speedtest_cli_rust.Base.Decimal.{decimal}
use speedtest_cli_rust.Base.Float.{Float}
use speedtest_cli_rust.Url.{UrlCrate}
use speedtest_cli_rust.Url.Join.{url_join_path}
use speedtest_cli_rust.Util.Numbers.{avg, stddev}
use speedtest_cli_rust.Ping.{compute_jitter}
use speedtest_cli_rust.Output.{Output, Console, write_debug}
use speedtest_cli_rust.Output.Sanitize.{sanitize}
use speedtest_cli_rust.Defs.Telemetry.{TelemetryLog, logf}
use speedtest_cli_rust.Defs.Server.{Done, get_url}
use speedtest_cli_rust.Speedtest.Servers.{Server}

-- The address of a peer: how it is written, and its family.
pub record Peer : Type 0 where
  pub shown : Text
  pub is_ipv4 : Bool

abbrev family_of : Bool → Text
family_of is_ipv4 = if is_ipv4 then codes "IPv4" else codes "IPv6"

-- `remotes.contains(&peer)`
unfoldable pub has_peer : List Peer → Text → Bool
has_peer [] shown = false
has_peer (p ∷ peers) shown = if eq_text p.shown shown then true else has_peer peers shown

abbrev pub with_peer : Option Peer → List Peer → List Peer
with_peer none remotes = remotes
with_peer (some p) remotes = if has_peer remotes p.shown then remotes else remotes ++ p ∷ []

module _ (float : Float) where
  open float use {F, fixed, min, max, infinity, neg_infinity}

  -- One request of the HTTP ping: the milliseconds it took, and the connection's peer.
  pub record Timed : Type 0 where
    pub ms : F
    pub drained : Result Text (Option Peer)

  -- What a run of requests has gathered.
  abbrev pub Gathered : Type 0
  Gathered = List F × List Peer

  abbrev pub sampled :
      F
      → Result Text (Option Peer)
      → Gathered
      → (Gathered → Result Text Gathered)
      → Result Text Gathered
  sampled ms (err e) g next = err e
  sampled ms (ok peer) (pings, remotes) next = next (pings ++ ms ∷ [], with_peer peer remotes)

  -- `for _ in 0..count`, from the request of the given number on; the first error ends it.
  unfoldable pub gather : (ℕ → Timed) → ℕ → ℕ → Gathered → Result Text Gathered
  gather request zero i g = ok g
  gather request (suc left) i g =
      sampled (request i).ms (request i).drained g (gather request left (i + 1))

  -- Without the first sample, unless it is the only one.
  abbrev pub settled : List F → List F
  settled pings = if ltb 1 (length pings) then drop 1 pings else pings

  abbrev pub measured : List F → F × F
  measured vals = (avg float vals, compute_jitter float vals)

  module _ (crate : UrlCrate) (out : Output) (stamp elapsed : Text) where
    open crate use {Url, host_str}

    unfoldable pub write_remotes : List Peer → Console → Console
    write_remotes [] console = console
    write_remotes (p ∷ peers) console = write_remotes peers (
        write_debug out
          (codes "Pinging "
            ++ (p.shown ++ (codes " over TCP (" ++ (family_of p.is_ipv4 ++ codes ")\n"))))
          console)

    abbrev pub pinged : TelemetryLog → Console → Result Text Gathered → Done (Result Text (F × F))
    pinged log console (err e) = record { value = err e; console = console; log = log }
    pinged log console (ok (pings, remotes)) = record {
      value = ok (measured (settled pings));
      console = write_remotes remotes console;
      log = logf log stamp (codes "TCP ping took " ++ elapsed);
    }

    abbrev pub pinged_at :
        Server
        → (Url → ℕ → Timed)
        → ℕ
        → TelemetryLog
        → Console
        → Result Text Url
        → Done (Result Text (F × F))
    pinged_at s get_drained count log console (err e) = record {
      value = err e;
      console = console;
      log = log;
    }
    pinged_at s get_drained count log console (ok u) =
        pinged log console
          (gather (get_drained (url_join_path crate u s.ping_url)) count 0 ([], []))

    -- `Server::ping_and_jitter`; `get_drained` gives the request of a number.
    unfoldable pub ping_and_jitter :
        Server → (Url → ℕ → Timed) → ℕ → TelemetryLog → Console → Done (Result Text (F × F))
    unfolding gather write_remotes
    ping_and_jitter s get_drained count log console =
        pinged_at s get_drained count log console (get_url crate s)

    -- `resolve_host`, and `icmp_rtts` at an address, for the run's source, interface and family.
    module _ (resolve_host : Text → Result Text Peer)
        (icmp_rtts : Peer → Result Text (List F)) where
      abbrev tcp_instead : Text → Text → Console → Console
      tcp_instead what e console =
          write_debug out (codes "Will try TCP ping\n")
            (write_debug out (what ++ (e ++ codes "\n")) console)

      -- The smallest and the largest of the samples.
      abbrev least : F → List F → F
      least m [] = m
      least m (v ∷ vals) = least (min m v) vals

      abbrev greatest : F → List F → F
      greatest m [] = m
      greatest m (v ∷ vals) = greatest (max m v) vals

      abbrev write_spread : Peer → ℕ → List F → Console → Console
      write_spread target count rtts console =
          write_debug out
            (codes "Ping over ICMP: min "
              ++ (fixed 2 (least infinity rtts)
                  ++ (codes " ms, avg "
                      ++ (fixed 2 (avg float rtts)
                          ++ (codes " ms, max "
                              ++ (fixed 2 (greatest neg_infinity rtts)
                                  ++ (codes " ms, stddev "
                                      ++ (fixed 2 (stddev float rtts)
                                          ++ (codes " ms, "
                                              ++ (decimal (length rtts)
                                                  ++ (b'/'
                                                      ∷ (decimal count
                                                          ++ codes " replies\n"))))))))))))
            (write_debug out
              (codes "Pinging "
                ++ (target.shown
                    ++ (codes " over ICMP (" ++ (family_of target.is_ipv4 ++ codes ")\n"))))
              console)

      module _ (s : Server) (get_drained : Url → ℕ → Timed) (count : ℕ) (log : TelemetryLog) where
        abbrev pub over_http : Console → Done (Result Text (F × F))
        over_http console = ping_and_jitter s get_drained (count + 2) log console

        abbrev pub echoed :
            Text → Peer → Console → Result Text (List F) → Done (Result Text (F × F))
        echoed host target console (err e) =
            over_http (tcp_instead (codes "Failed to ping target host: ") e console)
        echoed host target console (ok []) = over_http (
            write_debug out
              (codes "No ICMP pings returned for server "
                ++ (sanitize s.name
                    ++ (codes " (" ++ (sanitize host ++ codes "), trying TCP ping\n"))))
              console)
        echoed host target console (ok (v ∷ rtts)) = record {
          value = ok (measured (v ∷ rtts));
          console = write_spread target count (v ∷ rtts) console;
          log = logf log stamp (codes "ICMP ping took " ++ elapsed);
        }

        abbrev pub resolved : Text → Console → Result Text Peer → Done (Result Text (F × F))
        resolved host console (err e) =
            over_http (tcp_instead (codes "Failed to resolve ping target: ") e console)
        resolved host console (ok target) = echoed host target console (icmp_rtts target)

        abbrev pub hosted : Console → Option Text → Done (Result Text (F × F))
        hosted console none = record {
          value = err (codes "server URL has no host");
          console = console;
          log = log;
        }
        hosted console (some host) = resolved host console (resolve_host host)

        abbrev pub addressed : Console → Result Text Url → Done (Result Text (F × F))
        addressed console (err e) = record { value = err e; console = console; log = log }
        addressed console (ok u) = hosted console (host_str u)

        -- `Server::icmp_ping_and_jitter`
        unfoldable pub icmp_ping_and_jitter : Bool → Console → Done (Result Text (F × F))
        icmp_ping_and_jitter no_icmp console =
            if no_icmp
            then over_http (
                write_debug out
                  (codes "Skipping ICMP for server "
                    ++ (sanitize s.name ++ codes ", will use HTTP ping\n"))
                  console)
            else addressed console (get_url crate s)
