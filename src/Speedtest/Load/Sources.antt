-- ===== src/Speedtest/Load/Sources.antt =====
-- Where the servers of a run come from: `load_servers` of src/speedtest.rs.
use speedtest_cli_rust.Base.{
  ℕ, ◌+◌, ◌≤◌, false, not, Option, none, some, List, ◌++◌, Result, ok, err, >>=-eq-ok, ◌≡◌, ◌≢◌,
  ◌⊎◌, refl, sym, ap, subst, ◌∙◌, Bool-cases, inl, inr, ltb, within, length, take, take_all,
  length-take, arith,
}
use speedtest_cli_rust.Base.Text.{Text, Bytes, codes, eq_text, eq_text_iff, eq_text_refl}
use speedtest_cli_rust.Url.{UrlCrate}
use speedtest_cli_rust.Output.{Output, Console, write_ui}
use speedtest_cli_rust.Output.Streams.{stdout_text, human_messages_off_stdout}
use speedtest_cli_rust.Speedtest.Files.{FileSystem, read_file}
use speedtest_cli_rust.Speedtest.Servers.{Server, SelectionError, preprocess_servers}
use speedtest_cli_rust.Speedtest.Load.{
  ListOptions, LoadError, selected, preprocessed, from_stdin, from_file, or_default, parsed,
  fetched, fetch_servers, well_known, retried, local, loaded, load_servers, max_local_json,
}

module _ (crate : UrlCrate) (get_bytes : UrlCrate.Url crate → Result Text (ℕ × Bytes))
    (from_slice : Bytes → Result Text (List Server)) where
  open crate use {Url, parse, origin}

  -- A document was answered at an address, with a status of success.
  abbrev pub Answers : Text → Bytes → Type 0
  Answers url raw =
      (u : Url) × (status : ℕ) × (parse url ≡ some u)
      × (get_bytes u ≡ ok (status, raw))
      × (200 ≤ status)
      × (status ≤ 299)

  -- The servers are those that the options select of the list that the document has.
  abbrev pub Selects : ListOptions → Bytes → List Server → Type 0
  Selects o raw r =
      (servers : List Server) × (from_slice raw ≡ ok servers)
      × (preprocess_servers servers o.force o.exclude o.server (not o.list) ≡ ok r)

  -- The address of the second try: at the root of the site, or, of an address that is no URL, behind it.
  abbrev pub IsDiscovery : Text → Text → Type 0
  IsDiscovery url retry =
      ((u : Url) × (parse url ≡ some u) × (retry ≡ origin u ++ codes "/.well-known/librespeed"))
      ⊎ ((parse url ≡ none) × (retry ≡ url ++ codes "/.well-known/librespeed"))

  selected-eq-ok :
      (x : Result SelectionError (List Server)) {r : List Server} → selected x ≡ ok r → x ≡ ok r
  selected-eq-ok (ok servers) e = cc
  selected-eq-ok (err _) e = cc

  preprocessed-Selects :
      (o : ListOptions) (raw : Bytes) {r : List Server}
      → preprocessed o (from_slice raw) ≡ ok r
      → Selects o raw r
  preprocessed-Selects o raw {r} e = go (from_slice raw) refl e
    where
      go :
          (x : Result Text (List Server))
          → from_slice raw ≡ x
          → preprocessed o x ≡ ok r
          → Selects o raw r
      go (err _) q h = cc
      go (ok servers) q h = (servers, q, selected-eq-ok _ h)

  parsed-eq-ok :
      (url : Text) (u : Option Url) {v : Url}
      → parsed crate get_bytes from_slice url u ≡ ok v
      → u ≡ some v
  parsed-eq-ok url none e = cc
  parsed-eq-ok url (some u) e = cc

  fetched-eq-ok :
      (r : Result Text (ℕ × Bytes)) {raw : Bytes}
      → fetched crate get_bytes from_slice r ≡ ok raw
      → (status : ℕ) × (r ≡ ok (status, raw)) × (200 ≤ status) × (status ≤ 299)
  fetched-eq-ok (err x) e = cc
  fetched-eq-ok (ok (status, body)) {raw} e = elim (Bool-cases (within 200 299 status)) [
    | inl h ↦
        let same : body ≡ raw = cc (rw h at e) in
        (status, ap (λ b. ok (status, b)) same, ground arith, ground arith)
    | inr h ↦ cc (rw h at e)
  ]

  -- What a fetch gives is selected of a document that was answered there.
  abbrev Fetches : ListOptions → Text → List Server → Type 0
  Fetches o url r = (raw : Bytes) × Answers url raw × Selects o raw r

  fetch_servers-Fetches :
      (o : ListOptions) (url : Text) {r : List Server}
      → fetch_servers crate get_bytes from_slice o url ≡ ok r
      → Fetches o url r
  unfolding fetch_servers
  fetch_servers-Fetches o url e =
      let (u, a, e1) = >>=-eq-ok (parsed crate get_bytes from_slice url (parse url)) _ e in
      let (raw, b, e2) = >>=-eq-ok (fetched crate get_bytes from_slice (get_bytes u)) _ e1 in
      let (status, answer, low, high) = fetched-eq-ok (get_bytes u) b in
      (
        raw,
        (u, status, parsed-eq-ok url (parse url) a, answer, low, high),
        preprocessed-Selects o raw e2,
      )

  local-Selects :
      (o : ListOptions) (read : Result LoadError Bytes) {r : List Server}
      → local crate get_bytes from_slice o read ≡ ok r
      → (raw : Bytes) × (read ≡ ok raw) × Selects o raw r
  local-Selects o read e =
      let (raw, b, e1) = >>=-eq-ok read _ e in (raw, b, preprocessed-Selects o raw e1)

  well_known-IsDiscovery :
      (url : Text) (u : Option Url)
      → parse url ≡ u
      → IsDiscovery url (well_known crate get_bytes from_slice url u)
  well_known-IsDiscovery url none e = inr (e, refl)
  well_known-IsDiscovery url (some u) e = inl (u, e, refl)

  -- From the web: of what the list's address has answered, or, where that gave no servers, of what the
  -- discovery endpoint has.
  abbrev pub FromWeb : ListOptions → Text → Bytes → Type 0
  FromWeb o url raw =
      Answers url raw
      ⊎ (((e : LoadError) × (fetch_servers crate get_bytes from_slice o url ≡ err e))
          × ((retry : Text) × IsDiscovery url retry × Answers retry raw))

  ui_off_stdout :
      (out : Output) (t : Text) (c : Console) → stdout_text (write_ui out t c) ≡ stdout_text c
  ui_off_stdout out t c = (human_messages_off_stdout out t c).0

  retried-Selects :
      (out : Output) (o : ListOptions) (url : Text) (c : Console)
      (first : Result LoadError (List Server)) {r : List Server}
      → fetch_servers crate get_bytes from_slice o url ≡ first
      → (retried crate get_bytes from_slice out o url c first).0 ≡ ok r
      → (raw : Bytes) × FromWeb o url raw × Selects o raw r
  retried-Selects out o url c (ok servers) p e =
      let (raw, answers, selects) = fetch_servers-Fetches o url (p ∙ e) in
      (raw, inl answers, selects)
  retried-Selects out o url c (err x) p e =
      let retry = well_known crate get_bytes from_slice url (parse url) in
      let (raw, answers, selects) = fetch_servers-Fetches o retry e in
      (raw, inr ((x, p), (retry, well_known-IsDiscovery url (parse url) refl, answers)), selects)

  retried-stdout :
      (out : Output) (o : ListOptions) (url : Text) (c : Console)
      (first : Result LoadError (List Server))
      → stdout_text (retried crate get_bytes from_slice out o url c first).1 ≡ stdout_text c
  retried-stdout out o url c (ok servers) = refl
  retried-stdout out o url c (err _) = ui_off_stdout out _ c

  module _ (fs : FileSystem) (stdin : Result Text Bytes) (out : Output) where
    -- Where a document comes from, by `--local-json` and `--server-json`: all of standard input, at
    -- most 8 MiB; a file; or the web.
    abbrev pub IsRead : ListOptions → Option Text → Bytes → Type 0
    IsRead o none raw = FromWeb o (or_default o.server_json) raw
    IsRead o (some path) raw =
        ((path ≡ codes "-") × (stdin ≡ ok raw) × (length raw ≤ max_local_json))
        ⊎ ((path ≢ codes "-") × (read_file fs path max_local_json ≡ ok raw))

    from_stdin-eq-ok :
        (input : Result Text Bytes) {raw : Bytes}
        → from_stdin input ≡ ok raw
        → (input ≡ ok raw) × (length raw ≤ max_local_json)
    from_stdin-eq-ok (err x) e = cc
    from_stdin-eq-ok (ok input) {raw} e =
        elim (Bool-cases (ltb max_local_json (length (take (max_local_json + 1) input)))) [
          | inl over ↦ cc (rw over at e)
          | inr fits ↦
              let short : length input ≤ max_local_json =
                ground (arith, length-take (max_local_json + 1) input) in
              let whole : take (max_local_json + 1) input ≡ input =
                take_all (max_local_json + 1) input (omega arith) in
              let same : take (max_local_json + 1) input ≡ raw = cc (rw fits at e) in
              let all : input ≡ raw = sym whole ∙ same in
              (ap ok all, subst (λ b. length b ≤ max_local_json) all short)
        ]

    from_file-eq-ok :
        (file : Result Text Bytes) {raw : Bytes} → from_file file ≡ ok raw → file ≡ ok raw
    from_file-eq-ok (err x) e = cc
    from_file-eq-ok (ok bytes) e = cc

    loaded-Selects :
        (o : ListOptions) (path : Option Text) (c : Console) {r : List Server}
        → (loaded crate get_bytes from_slice fs stdin out o path c).0 ≡ ok r
        → (raw : Bytes) × IsRead o path raw × Selects o raw r
    loaded-Selects o none c e =
        let url = or_default o.server_json in
        retried-Selects out o url _ (fetch_servers crate get_bytes from_slice o url) refl e
    loaded-Selects o (some path) c {r} e = elim (Bool-cases (eq_text path (codes "-"))) [
      | inl h ↦
          let (raw, read, selects) = local-Selects o (from_stdin stdin) (rw h at e) in
          let (input, fits) = from_stdin-eq-ok stdin read in
          (raw, inl ((eq_text_iff path (codes "-")).0 h, input, fits), selects)
      | inr h ↦
          let (raw, read, selects) =
            local-Selects o (from_file (read_file fs path max_local_json)) (rw h at e) in
          (raw, inr (other_path h, from_file-eq-ok _ read), selects)
    ]
      where
        other_path : eq_text path (codes "-") ≡ false → path ≢ codes "-"
        other_path h k = cc (ap (λ t. eq_text t (codes "-")) k, eq_text_refl (codes "-"))

    loaded-stdout :
        (o : ListOptions) (path : Option Text) (c : Console)
        → stdout_text (loaded crate get_bytes from_slice fs stdin out o path c).1 ≡ stdout_text c
    loaded-stdout o none c = retried-stdout out o _ _ _ ∙ ui_off_stdout out _ c
    loaded-stdout o (some path) c = elim (Bool-cases (eq_text path (codes "-"))) [
      | inl h ↦ rw h (ui_off_stdout out _ c)
      | inr h ↦ rw h (ui_off_stdout out _ c)
    ]

    -- The servers of a run are those that its options select of the list in a document: that of
    -- standard input or of the file, as `--local-json` says; without it, that which the address of the
    -- list has answered with a status of success; or, if that failed or gave no servers, that which the
    -- discovery endpoint has. What is said of it stays off the stream that scripts read.
    pub load_servers-Selects :
        (o : ListOptions) (c : Console) {r : List Server}
        → (load_servers crate get_bytes from_slice fs stdin out o c).0 ≡ ok r
        → ((raw : Bytes) × IsRead o o.local_json raw × Selects o raw r)
          × (stdout_text (load_servers crate get_bytes from_slice fs stdin out o c).1
              ≡ stdout_text c)
    unfolding load_servers
    load_servers-Selects o c e = (loaded-Selects o o.local_json c e, loaded-stdout o o.local_json c)
