-- ===== src/Defs/Server/Requests.antt =====
-- What latency over HTTP is measured by: `ping_and_jitter` of src/defs/server.rs.
use mathlib.Core.List.{append_assoc, append-nil}
use speedtest_cli_rust.Base.{
  ℕ, zero, suc, ◌+◌, Option, List, [], ◌∷◌, ◌++◌, Result, ok, err, ◌≡◌, ◌⊎◌, inl, inr, refl, sym,
  ap, ◌∙◌, true, ltb, length, arith,
}
use speedtest_cli_rust.Base.Text.{Text}
use speedtest_cli_rust.Base.Float.{Float}
use speedtest_cli_rust.Url.{UrlCrate}
use speedtest_cli_rust.Url.Join.{url_join_path}
use speedtest_cli_rust.Output.{Output, Console}
use speedtest_cli_rust.Output.Streams.{stdout_text, stdout_text-write_debug}
use speedtest_cli_rust.Defs.Telemetry.{TelemetryLog}
use speedtest_cli_rust.Defs.Server.{get_url}
use speedtest_cli_rust.Defs.Server.Pings.{
  Peer, with_peer, Timed, Gathered, sampled, settled, gather, measured, write_remotes, pinged,
  pinged_at, ping_and_jitter,
}
use speedtest_cli_rust.Speedtest.Servers.{Server}

module _ (float : Float) where
  open float use {F}

  -- The samples of requests one after the other, all answered.
  unfoldable pub times : (ℕ → Timed float) → ℕ → ℕ → List F
  times request zero i = []
  times request (suc left) i = (request i).ms ∷ times request left (i + 1)

  abbrev pub Answered : (ℕ → Timed float) → ℕ → ℕ → Type 0
  Answered request zero i = Unit
  Answered request (suc left) i =
      ((peer : Option Peer) × ((request i).drained ≡ ok peer)) × Answered request left (i + 1)

  -- The first that is not answered, behind those that were.
  abbrev pub FailsFirst : (ℕ → Timed float) → ℕ → ℕ → Text → Type 0
  FailsFirst request zero i e = ⊥
  FailsFirst request (suc left) i e =
      ((request i).drained ≡ err e)
      ⊎ (((peer : Option Peer) × ((request i).drained ≡ ok peer))
          × FailsFirst request left (i + 1) e)

  -- The samples of as many requests as were asked for, that latency is measured by: the first is left
  -- out, unless it is the only one.
  unfoldable pub counted_times : (ℕ → Timed float) → ℕ → List F
  counted_times request zero = []
  counted_times request (suc zero) = (request 0).ms ∷ []
  counted_times request (suc (suc more)) = times request (suc more) 1

  settled-times :
      (request : ℕ → Timed float) (count : ℕ)
      → settled float (times request count 0) ≡ counted_times request count
  unfolding times counted_times
  settled-times request zero = refl
  settled-times request (suc zero) = refl
  settled-times request (suc (suc more)) =
      let many : ltb 1 (length (times request (suc (suc more)) 0)) ≡ true = ground arith in
      rw many refl

  -- Either every request is answered and its time is a sample, or the first that is not is the error.
  abbrev Gathers : (ℕ → Timed float) → ℕ → ℕ → List F → Result Text (Gathered float) → Type 0
  Gathers request left i before r =
      (Answered request left i
        × ((remotes : List Peer) × (r ≡ ok (before ++ times request left i, remotes))))
      ⊎ ((e : Text) × FailsFirst request left i e × (r ≡ err e))

  sampled-Gathers :
      (request : ℕ → Timed float) (left i : ℕ) (g : Gathered float) (r : Result Text (Option Peer))
      → (request i).drained ≡ r
      → ((peer : Option Peer)
          → Gathers request left
              (i + 1)
              (g.0 ++ (request i).ms ∷ [])
              (gather float request left (i + 1) (g.0 ++ (request i).ms ∷ [], with_peer peer g.1)))
      → Gathers request
          (suc left)
          i
          g.0
          (sampled float (request i).ms r g (gather float request left (i + 1)))
  unfolding times
  sampled-Gathers request left i g (err e) p next = inr (e, inl p, refl)
  sampled-Gathers request left i g (ok peer) p next = elim (next peer) [
    | inl (all, (remotes, e)) ↦ inl (
      ((peer, p), all),
      (
        remotes,
        e
            ∙ ap (λ pings. ok (pings, remotes))
                (append_assoc g.0 ((request i).ms ∷ []) (times request left (i + 1))),
      ),
    )
    | inr (e, first, q) ↦ inr (e, inr ((peer, p), first), q)
  ]

  gather-Gathers :
      (request : ℕ → Timed float) (left i : ℕ) (g : Gathered float)
      → Gathers request left i g.0 (gather float request left i g)
  unfolding gather times
  gather-Gathers request zero i g =
      inl (tt, (g.1, ap (λ pings. ok (pings, g.1)) (sym (append-nil g.0))))
  gather-Gathers request (suc left) i g =
      sampled-Gathers request left i g (request i).drained refl (λ peer.
        gather-Gathers request left (i + 1) (g.0 ++ (request i).ms ∷ [], with_peer peer g.1))

  module _ (crate : UrlCrate) (out : Output) (stamp elapsed : Text) where
    open crate use {Url, host_str}

    write_remotes-stdout :
        (peers : List Peer) (c : Console)
        → stdout_text (write_remotes float crate out stamp elapsed peers c) ≡ stdout_text c
    unfolding write_remotes
    write_remotes-stdout [] c = refl
    write_remotes-stdout (p ∷ peers) c =
        write_remotes-stdout peers _ ∙ stdout_text-write_debug out _ c

    pinged-stdout :
        (log : TelemetryLog) (c : Console) (r : Result Text (Gathered float))
        → stdout_text (pinged float crate out stamp elapsed log c r).console ≡ stdout_text c
    pinged-stdout log c (err e) = refl
    pinged-stdout log c (ok (pings, remotes)) = write_remotes-stdout remotes c

    -- What the HTTP ping comes to: the error of an address that is no URL, the average and the jitter
    -- of all samples but the first, or the error of the first request that failed.
    abbrev pub Measures : Server → (Url → ℕ → Timed float) → ℕ → Result Text (F × F) → Type 0
    Measures s get_drained count v =
        ((e : Text) × (get_url crate s ≡ err e) × (v ≡ err e))
        ⊎ ((u : Url) × (get_url crate s ≡ ok u)
            × (let request = get_drained (url_join_path crate u s.ping_url) in
                (Answered request count 0 × (v ≡ ok (measured float (counted_times request count))))
                ⊎ ((e : Text) × FailsFirst request count 0 e × (v ≡ err e))))

    pinged-Measures :
        (request : ℕ → Timed float) (count : ℕ) (log : TelemetryLog) (c : Console)
        (r : Result Text (Gathered float))
        → Gathers request count 0 [] r
        → (let v = (pinged float crate out stamp elapsed log c r).value in
            (Answered request count 0 × (v ≡ ok (measured float (counted_times request count))))
            ⊎ ((e : Text) × FailsFirst request count 0 e × (v ≡ err e)))
    pinged-Measures request count log c r (inl (all, (remotes, e))) =
        inl (all, rw e (ap (λ pings. ok (measured float pings)) (settled-times request count)))
    pinged-Measures request count log c r (inr (e, first, q)) = inr (e, first, rw q refl)

    -- Latency over HTTP is measured by all the requests that were asked for, less the first sample
    -- where there are more, or fails with the first request that does; and nothing of it reaches the
    -- stream that scripts read.
    pub ping_and_jitter-Measures :
        (s : Server) (get_drained : Url → ℕ → Timed float) (count : ℕ) (log : TelemetryLog)
        (c : Console)
        → let r = ping_and_jitter float crate out stamp elapsed s get_drained count log c in
          Measures s get_drained count r.value × (stdout_text r.console ≡ stdout_text c)
    unfolding ping_and_jitter
    ping_and_jitter-Measures s get_drained count log c = go (get_url crate s) refl
      where
        go :
            (r : Result Text Url)
            → get_url crate s ≡ r
            → let p = pinged_at float crate out stamp elapsed s get_drained count log c r in
              Measures s get_drained count p.value × (stdout_text p.console ≡ stdout_text c)
        go (err e) p = (inl (e, p, refl), refl)
        go (ok u) p =
            let request = get_drained (url_join_path crate u s.ping_url) in
            (
              inr (
                u,
                p,
                pinged-Measures request count log c (gather float request count 0 ([], []))
                    (gather-Gathers request count 0 ([], [])),
              ),
              pinged-stdout log c (gather float request count 0 ([], [])),
            )
