-- ===== src/Defs/Server/Fallback.antt =====
-- When latency is measured over ICMP and when over HTTP: src/defs/server.rs.
use speedtest_cli_rust.Base.{
  ℕ, ◌+◌, Bool, true, false, Option, none, some, List, [], ◌∷◌, Result, ok, err, ◌≡◌, ◌⊎◌, inl, inr,
  refl, ◌∙◌,
}
use speedtest_cli_rust.Base.Text.{Text, codes}
use speedtest_cli_rust.Base.Float.{Float}
use speedtest_cli_rust.Url.{UrlCrate}
use speedtest_cli_rust.Output.{Output, Console}
use speedtest_cli_rust.Output.Streams.{stdout_text, stdout_text-write_debug}
use speedtest_cli_rust.Defs.Telemetry.{TelemetryLog}
use speedtest_cli_rust.Defs.Server.{Done, get_url}
use speedtest_cli_rust.Defs.Server.Pings.{
  Peer, Timed, measured, ping_and_jitter, echoed, resolved, hosted, addressed, icmp_ping_and_jitter,
}
use speedtest_cli_rust.Speedtest.Servers.{Server}
use speedtest_cli_rust.Defs.Server.Requests.{Measures, ping_and_jitter-Measures}

module _ (float : Float) where
  open float use {F}

  module _ (crate : UrlCrate) (out : Output) (stamp elapsed : Text) where
    open crate use {Url, host_str}

    module _ (resolve_host : Text → Result Text Peer)
        (icmp_rtts : Peer → Result Text (List F)) where
      module _ (s : Server) (get_drained : Url → ℕ → Timed float) (count : ℕ)
          (log : TelemetryLog) where
        -- ICMP is not used, or it gives no sample.
        abbrev pub NoEcho : Bool → Type 0
        NoEcho no_icmp =
            (no_icmp ≡ true)
            ⊎ (((e : Text) × (get_url crate s ≡ err e))
                ⊎ ((u : Url) × (host : Text) × (get_url crate s ≡ ok u)
                    × (host_str u ≡ some host)
                    × (((e : Text) × (resolve_host host ≡ err e))
                        ⊎ ((target : Peer) × (resolve_host host ≡ ok target)
                            × (((e : Text) × (icmp_rtts target ≡ err e))
                                ⊎ (icmp_rtts target ≡ ok []))))))

        -- The samples of a server's host.
        abbrev pub Echoes : Bool → List F → Type 0
        Echoes no_icmp rtts =
            (no_icmp ≡ false)
            × ((u : Url) × (host : Text) × (target : Peer) × (get_url crate s ≡ ok u)
                × (host_str u ≡ some host)
                × (resolve_host host ≡ ok target)
                × (icmp_rtts target ≡ ok rtts))

        -- How latency is measured: by the echos that were answered; where there are none, over HTTP with
        -- two requests more than echos; and not at all where the URL has no host.
        abbrev pub Falls : Bool → Result Text (F × F) → Type 0
        Falls no_icmp v =
            ((rtt : F) × (rtts : List F) × Echoes no_icmp (rtt ∷ rtts)
              × (v ≡ ok (measured float (rtt ∷ rtts))))
            ⊎ ((NoEcho no_icmp × Measures float crate out stamp elapsed s get_drained (count + 2) v)
                ⊎ ((no_icmp ≡ false)
                    × ((u : Url) × (get_url crate s ≡ ok u) × (host_str u ≡ none))
                    × (v ≡ err (codes "server URL has no host"))))

        abbrev Goes : Bool → Console → Done (Result Text (F × F)) → Type 0
        Goes no_icmp c d = Falls no_icmp d.value × (stdout_text d.console ≡ stdout_text c)

        http-Goes :
            (no_icmp : Bool) (c c' : Console)
            → NoEcho no_icmp
            → stdout_text c' ≡ stdout_text c
            → Goes no_icmp c
                (ping_and_jitter float crate out stamp elapsed s get_drained (count + 2) log c')
        http-Goes no_icmp c c' unheard same =
            let (m, o) =
              ping_and_jitter-Measures float crate out stamp elapsed s get_drained (count + 2) log
                c' in
            (inr (inl (unheard, m)), o ∙ same)

        module _ (u : Url) (host : Text) (parsed : get_url crate s ≡ ok u)
            (named : host_str u ≡ some host) (c : Console) where
          echoed-Goes :
              (target : Peer)
              → resolve_host host ≡ ok target
              → (r : Result Text (List F)) → icmp_rtts target ≡ r
              → Goes false c (
                  echoed float crate out stamp elapsed resolve_host icmp_rtts s get_drained count
                    log host target c r)
          echoed-Goes target found (err e) p =
              http-Goes false c _
                (inr (inr (u, host, parsed, named, inr (target, found, inl (e, p)))))
                (stdout_text-write_debug out _ _ ∙ stdout_text-write_debug out _ c)
          echoed-Goes target found (ok []) p =
              http-Goes false c _ (inr (inr (u, host, parsed, named, inr (target, found, inr p))))
                (stdout_text-write_debug out _ c)
          echoed-Goes target found (ok (v ∷ rtts)) p = (
            inl (v, rtts, (refl, (u, host, target, parsed, named, found, p)), refl),
            stdout_text-write_debug out _ _ ∙ stdout_text-write_debug out _ c,
          )

          resolved-Goes :
              (r : Result Text Peer)
              → resolve_host host ≡ r
              → Goes false c (
                  resolved float crate out stamp elapsed resolve_host icmp_rtts s get_drained count
                    log host c r)
          resolved-Goes (err e) p =
              http-Goes false c _ (inr (inr (u, host, parsed, named, inl (e, p))))
                (stdout_text-write_debug out _ _ ∙ stdout_text-write_debug out _ c)
          resolved-Goes (ok target) p = echoed-Goes target p (icmp_rtts target) refl

        hosted-Goes :
            (u : Url) (c : Console)
            → get_url crate s ≡ ok u
            → (h : Option Text) → host_str u ≡ h
            → Goes false c (
                hosted float crate out stamp elapsed resolve_host icmp_rtts s get_drained count log
                  c h)
        hosted-Goes u c p none q = (inr (inr (refl, (u, p, q), refl)), refl)
        hosted-Goes u c p (some host) q = resolved-Goes u host p q c (resolve_host host) refl

        addressed-Goes :
            (c : Console) (r : Result Text Url)
            → get_url crate s ≡ r
            → Goes false c (
                addressed float crate out stamp elapsed resolve_host icmp_rtts s get_drained count
                  log c r)
        addressed-Goes c (err e) p = (inr (inl (inr (inl (e, p)), inl (e, p, refl))), refl)
        addressed-Goes c (ok u) p = hosted-Goes u c p (host_str u) refl

        -- Latency is measured by the echos that were answered; where ICMP is not wanted, cannot be used
        -- or gives no sample, by HTTP requests, two more than echos; and it is an error only where the
        -- URL has no host or the HTTP ping has one. Nothing of it reaches the stream that scripts read.
        pub icmp_ping_and_jitter-Falls :
            (no_icmp : Bool) (c : Console)
            → let r =
                icmp_ping_and_jitter float crate out stamp elapsed resolve_host icmp_rtts s
                  get_drained count log no_icmp c in
              Falls no_icmp r.value × (stdout_text r.console ≡ stdout_text c)
        unfolding icmp_ping_and_jitter
        icmp_ping_and_jitter-Falls true c =
            http-Goes true c _ (inl refl) (stdout_text-write_debug out _ c)
        icmp_ping_and_jitter-Falls false c = addressed-Goes c (get_url crate s) refl
