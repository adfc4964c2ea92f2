-- ===== src/Http/Tls/Trust.antt =====
-- What `client_config` of src/http/tls.rs trusts.
use mathlib.Core.List.{append_assoc, append-nil}
use speedtest_cli_rust.Base.{
  Bool, true, false, Option, none, some, List, [], ◌∷◌, ◌++◌, Result, ok, err, ◌>>=◌, >>=-eq-ok,
  is_ok, keep, is_empty, ap, if◌then◌else◌, ◌≡◌, refl, sym, ◌∙◌,
}
use speedtest_cli_rust.Base.Text.{Text, Bytes}
use speedtest_cli_rust.Output.{Console}
use speedtest_cli_rust.Output.Streams.{stdout_text, stdout_text-write_error}
use speedtest_cli_rust.Http.Tls.{
  TlsSettings, TlsLibrary, Config, roots, no_verifier, or_unreadable, some_certs, read_ca_bundle,
  add_all, stored, add_parsable, some_roots, trust_store, unverified, skipping, client_config,
}

module _ (lib : TlsLibrary) where
  open lib use {read, pem_certs, native_certs, add, protocol_versions}

  -- The bundle at a path holds exactly these certificates.
  abbrev pub IsBundle : Text → List Bytes → Type 0
  IsBundle path certs = (pem : Bytes) × (read path ≡ ok pem) × (pem_certs pem ≡ ok certs)

  or_unreadable-eq-ok :
      (path : Text) (r : Result Text Bytes) {pem : Bytes}
      → or_unreadable lib path r ≡ ok pem
      → r ≡ ok pem
  or_unreadable-eq-ok path (err e) h = cc
  or_unreadable-eq-ok path (ok pem) h = h

  some_certs-eq-ok :
      (path : Text) (certs : List Bytes) {found : List Bytes}
      → some_certs lib path certs ≡ ok found
      → (certs ≡ found) × (is_empty found ≡ false)
  some_certs-eq-ok path [] h = cc
  some_certs-eq-ok path (c ∷ certs) h =
      let same : c ∷ certs ≡ _ = ok_injective h in (same, ap is_empty (sym same))
    where
      ok_injective : {a b : List Bytes} → ◌≡◌ {A = Result Text (List Bytes)} (ok a) (ok b) → a ≡ b
      ok_injective e = cc

  read_ca_bundle-IsBundle :
      (path : Text) (certs : List Bytes)
      → read_ca_bundle lib path ≡ ok certs
      → IsBundle path certs × (is_empty certs ≡ false)
  unfolding read_ca_bundle
  read_ca_bundle-IsBundle path certs h =
      let (pem, opened, parsed) =
        >>=-eq-ok (or_unreadable lib path (read path))
          (λ pem. pem_certs pem >>= some_certs lib path) h in
      let (found, held, kept) = >>=-eq-ok (pem_certs pem) (some_certs lib path) parsed in
      let (same, some_cert) = some_certs-eq-ok path found kept in
      ((pem, or_unreadable-eq-ok path (read path) opened, rw (sym same) held), some_cert)

  add_all-eq-ok :
      (store certs : List Bytes) {rs : List Bytes}
      → add_all lib store certs ≡ ok rs
      → rs ≡ store ++ certs
  unfolding add_all
  add_all-eq-ok store [] h = let same : store ≡ _ = cc in sym same ∙ sym (append-nil store)
  add_all-eq-ok store (cert ∷ certs) h =
      let (_, added, rest) = >>=-eq-ok (add cert) (λ _. add_all lib (store ++ cert ∷ []) certs) h in
      add_all-eq-ok (store ++ cert ∷ []) certs rest ∙ append_assoc store (cert ∷ []) certs

  add_parsable_lem :
      (store certs : List Bytes)
      → add_parsable lib store certs ≡ store ++ keep (λ c. is_ok (add c)) certs
  unfolding add_parsable
  add_parsable_lem store [] = sym (append-nil store)
  add_parsable_lem store (cert ∷ certs) = go (add cert) (λ s. add_parsable_lem s certs)
    where
      go :
          (r : Result Text Bool)
          → ((s : List Bytes) → add_parsable lib s certs ≡ s ++ keep (λ c. is_ok (add c)) certs)
          → add_parsable lib (stored lib store cert r) certs
            ≡ store
              ++ (if is_ok r
                  then cert ∷ keep (λ c. is_ok (add c)) certs
                  else keep (λ c. is_ok (add c)) certs)
      go (ok _) ih = ih (store ++ cert ∷ []) ∙ append_assoc store (cert ∷ []) _
      go (err _) ih = ih store

  -- The roots are the certificates of the bundle that was named, or those of the system that rustls
  -- accepts; there is at least one.
  abbrev pub FromStore : Option Text → List Bytes → Type 0
  FromStore (some path) rs = IsBundle path rs
  FromStore none rs = rs ≡ keep (λ c. is_ok (add c)) native_certs

  abbrev pub Trusts : TlsSettings → Result Text Config → Type 0
  Trusts tls (err e) = Unit
  Trusts tls (ok no_verifier) = tls.skip_verify ≡ true
  Trusts tls (ok (roots rs)) =
      (tls.skip_verify ≡ false) × (is_empty rs ≡ false) × FromStore tls.ca_cert rs

  some_roots-eq-ok :
      (store : List Bytes) {rs : List Bytes}
      → some_roots lib store ≡ ok rs
      → (rs ≡ store) × (is_empty rs ≡ false)
  some_roots-eq-ok [] h = cc
  some_roots-eq-ok (c ∷ store) h =
      let same : c ∷ store ≡ _ = cc in (sym same, ap is_empty (sym same))

  trust_store-FromStore :
      (ca_cert : Option Text) (rs : List Bytes)
      → trust_store lib ca_cert ≡ ok rs
      → (is_empty rs ≡ false) × FromStore ca_cert rs
  unfolding trust_store
  trust_store-FromStore (some path) rs h =
      let (certs, bundle, added) = >>=-eq-ok (read_ca_bundle lib path) (add_all lib []) h in
      let (held, some_cert) = read_ca_bundle-IsBundle path certs bundle in
      let same : rs ≡ certs = add_all-eq-ok [] certs added in rw same (some_cert, held)
  trust_store-FromStore none rs h =
      let (same, some_cert) = some_roots-eq-ok (add_parsable lib [] native_certs) h in
      (some_cert, same ∙ add_parsable_lem [] native_certs)

  -- What is configured and printed: a configuration that is sound, and nothing new for scripts.
  abbrev pub IsSound : TlsSettings → Console → Result Text Config × Console → Type 0
  IsSound tls c (r, c') = Trusts tls r × (stdout_text c' ≡ stdout_text c)

  no_verifier-Trusts :
      (tls : TlsSettings) (r : Result Text Bool)
      → tls.skip_verify ≡ true
      → Trusts tls (r >>= (λ _. ok no_verifier))
  no_verifier-Trusts tls (err e) skip = tt
  no_verifier-Trusts tls (ok _) skip = skip

  skipping-IsSound :
      (tls : TlsSettings) (c : Console) (ca_cert : Option Text)
      → tls.skip_verify ≡ true
      → IsSound tls c (skipping lib ca_cert c)
  skipping-IsSound tls c none skip = (no_verifier-Trusts tls protocol_versions skip, refl)
  skipping-IsSound tls c (some path) skip = go (read_ca_bundle lib path)
    where
      go : (r : Result Text (List Bytes)) → IsSound tls c (unverified lib c r path)
      go (err e) = (tt, refl)
      go (ok certs) = (no_verifier-Trusts tls protocol_versions skip, stdout_text-write_error _ c)

  verified-Trusts :
      (tls : TlsSettings) (r : Result Text (List Bytes))
      → tls.skip_verify ≡ false
      → trust_store lib tls.ca_cert ≡ r
      → Trusts tls (r >>= (λ store. protocol_versions >>= (λ _. ok (roots store))))
  verified-Trusts tls (err e) verify h = tt
  verified-Trusts tls (ok rs) verify h = go protocol_versions
    where
      go : (v : Result Text Bool) → Trusts tls (v >>= (λ _. ok (roots rs)))
      go (err e) = tt
      go (ok _) =
          let (some_cert, held) = trust_store-FromStore tls.ca_cert rs h in
          (verify, some_cert, held)

  -- A certificate is accepted unverified only with --skip-cert-verify. Otherwise the roots are exactly
  -- the certificates of the bundle of --ca-cert, or without one those of the system that are accepted
  -- as roots; and there is at least one. Nothing is printed for scripts.
  pub client_config-IsSound :
      (tls : TlsSettings) (c : Console) → IsSound tls c (client_config lib tls c)
  unfolding client_config
  client_config-IsSound tls c = go tls.skip_verify refl
    where
      go :
          (skip : Bool)
          → tls.skip_verify ≡ skip
          → IsSound tls c (
              if skip then skipping lib tls.ca_cert c else (
                trust_store lib tls.ca_cert
                    >>= (λ store. protocol_versions >>= (λ _. ok (roots store))),
                c,
              ))
      go true e = skipping-IsSound tls c tls.ca_cert e
      go false e = (verified-Trusts tls (trust_store lib tls.ca_cert) e refl, refl)
