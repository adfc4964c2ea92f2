-- ===== src/Defs/Server/Probe.antt =====
-- What the probe of a server in src/defs/server.rs decides, and where it writes.
use speedtest_cli_rust.Base.{
  ℕ, true, ◌&&◌, Option, none, some, List, [], ◌∷◌, ◌++◌, Result, ok, err, ◌≡◌, refl, sym, ap, ◌∙◌,
  ◌↔◌, ◌⊎◌, inl, inr, ◌==◌, arith, is_empty, Bool-cases, Option-cases,
}
use speedtest_cli_rust.Base.Text.{Text, Bytes, codes, eq_text}
use speedtest_cli_rust.Url.{UrlCrate}
use speedtest_cli_rust.Url.Join.{url_join_path}
use speedtest_cli_rust.Output.{Output, Console}
use speedtest_cli_rust.Output.Streams.{stdout_text, stdout_text-write_debug}
use speedtest_cli_rust.Quote.{Chunk}
use speedtest_cli_rust.Defs.Ip.{GetIpResult}
use speedtest_cli_rust.Defs.Telemetry.{TelemetryLog, logf}
use speedtest_cli_rust.Speedtest.Servers.{Server}
use speedtest_cli_rust.Defs.Server.{
  TlsFacts, Done, Answer, invalid_server_url, get_url, write_facts, probed, is_up, info_of,
  received, asked, get_ip_info,
}

is_empty-nil : (b : Bytes) → is_empty b ≡ true → b ≡ []
is_empty-nil [] h = refl
is_empty-nil (_ ∷ _) h = cc

-- The answer of a healthy server.
answers :
    (facts : Option TlsFacts) (a : Answer)
    → ◌≡◌ {A = Result Text Answer} (ok a) (ok (record { status = 200; body = []; facts = facts }))
    → (is_empty a.body && a.status == 200) ≡ true
answers facts a e =
    let same : a ≡ record { status = 200; body = []; facts = facts } = cc in rw same refl

same_answer :
    (a : Answer) (facts : Option TlsFacts)
    → a.status ≡ 200
    → a.body ≡ []
    → a.facts ≡ facts
    → a ≡ record { status = 200; body = []; facts = facts }
same_answer a facts s b f =
    ap (λ n. record { status = n; body = a.body; facts = a.facts }) s
    ∙ (ap (λ x. record { status = 200; body = x; facts = a.facts }) b
        ∙ ap (λ x. record { status = 200; body = []; facts = x }) f)

module _ (crate : UrlCrate) where
  open crate use {Url, parse, scheme}

  -- The ping URL answers 200 with an empty body.
  abbrev pub IsHealthy : Server → (Url → Result Text Answer) → Type 0
  IsHealthy s get_prefix =
      (u : Url) × (facts : Option TlsFacts) × (parse s.server ≡ some u)
      × (get_prefix (url_join_path crate u s.ping_url)
          ≡ ok (record { status = 200; body = []; facts = facts }))

  facts_off_stdout :
      (out : Output) (url : Url) (facts : Option TlsFacts) (c : Console)
      → stdout_text (write_facts crate out url facts c) ≡ stdout_text c
  facts_off_stdout out url (some t) c = stdout_text-write_debug out _ c
  facts_off_stdout out url none c = elim (Bool-cases (eq_text (scheme url) (codes "https"))) [
    | inl e ↦ rw e (stdout_text-write_debug out _ c)
    | inr e ↦ rw e (stdout_text-write_debug out _ c)
  ]

  get_url-cases :
      (s : Server)
      → ((e : Text) × (get_url crate s ≡ err e) × (parse s.server ≡ none))
        ⊎ ((u : Url) × (get_url crate s ≡ ok u) × (parse s.server ≡ some u))
  unfolding get_url
  get_url-cases s = elim (Option-cases (parse s.server)) [
    | inl e ↦ inl (
      invalid_server_url crate s ++ (codes ": " ++ UrlCrate.parse_error crate s.server),
      rw e refl,
      e,
    )
    | inr (u, e) ↦ inr (u, rw e refl, e)
  ]

  same_server :
      (s : Server) (get_prefix : Url → Result Text Answer) (u v : Url) (facts : Option TlsFacts)
      → parse s.server ≡ some u
      → parse s.server ≡ some v
      → get_prefix (url_join_path crate v s.ping_url)
        ≡ ok (record { status = 200; body = []; facts = facts })
      → get_prefix (url_join_path crate u s.ping_url)
        ≡ ok (record { status = 200; body = []; facts = facts })
  same_server s get_prefix u v facts p q e = let same : u ≡ v = cc in rw same e

  module _ (out : Output) (utf8_chunks : Bytes → List Chunk) (elapsed stamp : Text) where
    probed-stdout :
        (url : Url) (log : TelemetryLog) (c : Console) (r : Result Text Answer)
        → stdout_text (probed crate out utf8_chunks elapsed stamp url log c r).console
          ≡ stdout_text c
    probed-stdout url log c (err e) = stdout_text-write_debug out _ c
    probed-stdout url log c (ok a) = elim (Bool-cases (is_empty a.body)) [
      | inl e ↦ rw e (facts_off_stdout out url a.facts c)
      | inr e ↦ rw e (
          stdout_text-write_debug out _ (write_facts crate out url a.facts c)
          ∙ facts_off_stdout out url a.facts c)
    ]

    up_value :
        (url : Url) (log : TelemetryLog) (c : Console) (a : Answer)
        → (probed crate out utf8_chunks elapsed stamp url log c (ok a)).value.up
          ≡ (is_empty a.body && a.status == 200)
    up_value url log c a = elim (Bool-cases (is_empty a.body)) [
      | inl e ↦ rw e refl
      | inr e ↦ rw e refl
    ]

    probed-up :
        (url : Url) (log : TelemetryLog) (c : Console) (r : Result Text Answer)
        → ((probed crate out utf8_chunks elapsed stamp url log c r).value.up ≡ true) ↔ (
            (facts : Option TlsFacts) × (r
              ≡ ok (record { status = 200; body = []; facts = facts })))
    probed-up url log c (err e) = (λ h. cc, λ h. cc (h.1))
    probed-up url log c (ok a) = (
      λ h. healthy (sym (up_value url log c a) ∙ h),
      λ h. up_value url log c a ∙ answers h.0 a h.1,
    )
      where
        healthy :
            (is_empty a.body && a.status == 200) ≡ true
            → (facts : Option TlsFacts) × ◌≡◌ {A = Result Text Answer}
                (ok a)
                (ok (record { status = 200; body = []; facts = facts }))
        healthy h = (
          a.facts,
          ap ok (same_answer a a.facts (ground arith) (is_empty-nil a.body (ground arith)) refl),
        )

    -- A server is up exactly when its address parses and its ping URL answers 200 with an empty
    -- body. Whatever it answers, nothing reaches the stream that scripts read.
    pub is_up_lem :
        (s : Server) (get_prefix : Url → Result Text Answer) (log : TelemetryLog) (c : Console)
        → (((is_up crate out utf8_chunks elapsed stamp s get_prefix log c).value.up ≡ true)
            ↔ IsHealthy s get_prefix)
          × (stdout_text (is_up crate out utf8_chunks elapsed stamp s get_prefix log c).console
              ≡ stdout_text c)
    unfolding is_up
    is_up_lem s get_prefix log c = elim (get_url-cases s) [
      | inl (e, g, p) ↦ rw g ((λ h. cc, λ h. cc (h.2, p)), stdout_text-write_debug out _ c)
      | inr (u, g, p) ↦
          let url = url_join_path crate u s.ping_url in
          let log' = logf log stamp (codes "Check backend is up took " ++ elapsed) in
          rw g (
            (
              λ h.
                  let answer = (probed-up url log' c (get_prefix url)).0 h in
                  (u, answer.0, p, answer.1),
              λ h.
                  (probed-up url log' c (get_prefix url)).1
                    (h.1, same_server s get_prefix u h.0 h.1 p h.2 h.3),
            ),
            probed-stdout url log' c (get_prefix url),
          )
    ]

    module _ (from_slice : Bytes → Result Text GetIpResult) (lossy : Bytes → Text)
        (empty : GetIpResult) where
      -- What a body is taken for: nothing, the document that it is, or a text to show.
      abbrev pub IsTakenFor : Bytes → GetIpResult → Type 0
      IsTakenFor body info =
          ((body ≡ []) × (info ≡ empty))
          ⊎ ((from_slice body ≡ ok info)
              ⊎ ((e : Text) × (from_slice body ≡ err e)
                  × (info ≡ record empty { processed_string = lossy body })))

      abbrev pub Informs :
          Server → (Url → Result Text (ℕ × Bytes)) → Console → Done GetIpResult → Type 0
      Informs s get_bytes c d =
          (url : Url) × (status : ℕ) × (body : Bytes) × (get_bytes url ≡ ok (status, body))
          × IsTakenFor body d.value
          × (stdout_text d.console ≡ stdout_text c)

      info_of-taken :
          (body : Bytes) (log : TelemetryLog) (c : Console)
          → IsTakenFor body
              (info_of crate out utf8_chunks elapsed stamp from_slice lossy empty body log c
                (from_slice body)).value
            × (stdout_text
                  (info_of crate out utf8_chunks elapsed stamp from_slice lossy empty body log c
                    (from_slice body)).console
                ≡ stdout_text c)
      info_of-taken body log c = go (from_slice body) refl
        where
          go :
              (r : Result Text GetIpResult)
              → from_slice body ≡ r
              → IsTakenFor body
                  (info_of crate out utf8_chunks elapsed stamp from_slice lossy empty body log c
                    r).value
                × (stdout_text
                      (info_of crate out utf8_chunks elapsed stamp from_slice lossy empty body log c
                        r).console
                    ≡ stdout_text c)
          go (ok info) e = (inr (inl e), refl)
          go (err x) e = (
            inr (inr (x, e, refl)),
            stdout_text-write_debug out _ _ ∙ stdout_text-write_debug out _ c,
          )

      received-Informs :
          (s : Server) (get_bytes : Url → Result Text (ℕ × Bytes)) (log : TelemetryLog)
          (c : Console) (url : Url) (r : Result Text (ℕ × Bytes)) {d : Done GetIpResult}
          → get_bytes url ≡ r
          → received crate out utf8_chunks elapsed stamp from_slice lossy empty log c r ≡ ok d
          → Informs s get_bytes c d
      received-Informs s get_bytes log c url (err e) g h = cc
      received-Informs s get_bytes log c url (ok (status, [])) {d} g h =
          let same : record {
            value = empty;
            console = c;
            log = logf log stamp (codes "Get IP info took " ++ elapsed);
          }
              ≡ d =
            cc in
          rw (sym same) (url, status, [], g, inl (refl, refl), refl)
      received-Informs s get_bytes log c url (ok (status, b ∷ body)) {d} g h =
          let log' = logf log stamp (codes "Get IP info took " ++ elapsed) in
          let same : info_of crate out utf8_chunks elapsed stamp from_slice lossy empty (b ∷ body)
                log' c (from_slice (b ∷ body))
              ≡ d =
            cc in
          let (value, console) = info_of-taken (b ∷ body) log' c in
          rw (sym same) (url, status, b ∷ body, g, value, console)

      pub get_ip_info-Informs :
          (s : Server) (get_bytes : Url → Result Text (ℕ × Bytes)) (unit : Text)
          (log : TelemetryLog) (c : Console) {d : Done GetIpResult}
          → get_ip_info crate out utf8_chunks elapsed stamp from_slice lossy empty s get_bytes unit
              log c
            ≡ ok d
          → Informs s get_bytes c d
      unfolding get_ip_info
      get_ip_info-Informs s get_bytes unit log c {d} h = go (get_url crate s) h
        where
          go :
              (r : Result Text Url)
              → asked crate out utf8_chunks elapsed stamp from_slice lossy empty s get_bytes unit
                  log c r
                ≡ ok d
              → Informs s get_bytes c d
          go (err e) k = cc
          go (ok u) k = received-Informs s get_bytes log c _ _ refl k
