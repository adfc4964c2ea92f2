-- ===== src/Http/Tls.antt =====
-- Which certificates a client trusts, in src/http/tls.rs with the rustls backend: `read_ca_bundle`,
-- `client_config`, and the names of versions and ciphers. A certificate is its DER bytes; reading PEM,
-- the system's store and the checks of rustls are arguments.
pub mod Pem
pub mod Trust
use speedtest_cli_rust.Base.{
  ℕ, Bool, true, false, Option, none, some, List, [], ◌∷◌, ◌++◌, Result, ok, err, ◌>>=◌,
  if◌then◌else◌, is_empty,
}
use speedtest_cli_rust.Base.Text.{Text, Bytes, codes, strip_prefix}
use speedtest_cli_rust.Output.{Console, write_error}

-- `struct TlsSettings`
pub record TlsSettings : Type 0 where
  pub ca_cert : Option Text
  pub skip_verify : Bool
  pub http2 : Bool

-- `rustls::ProtocolVersion`, as far as it is told apart, and `rustls::CipherSuite` by its name.
pub data ProtocolVersion : Type 0 where
  tls_1_3 tls_1_2 tls_1_1 tls_1_0 : ProtocolVersion
  another_version : Text → ProtocolVersion

unfoldable pub version_name : ProtocolVersion → Text
version_name tls_1_3 = codes "TLS 1.3"
version_name tls_1_2 = codes "TLS 1.2"
version_name tls_1_1 = codes "TLS 1.1"
version_name tls_1_0 = codes "TLS 1.0"
version_name (another_version shown) = shown

abbrev pub named : Text → Option Text → Text
named name (some rest) = codes "TLS_" ++ rest
named name none = name

-- A suite without a name is shown by its `Debug` form, the second argument.
unfoldable pub cipher_name : Option Text → Text → Text
cipher_name (some name) shown = named name (strip_prefix name (codes "TLS13_"))
cipher_name none shown = shown

-- The libraries: `std::fs::read`, the certificates of a PEM bundle, those of the system, the check of
-- a root, and the protocol versions of the provider.
pub record TlsLibrary : Type 0 where
  pub read : Text → Result Text Bytes
  pub pem_certs : Bytes → Result Text (List Bytes)
  pub native_certs : List Bytes
  pub add : Bytes → Result Text Bool
  pub protocol_versions : Result Text Bool

-- What a configuration accepts: servers whose certificate one of the roots has signed, or any.
pub data Config : Type 0 where
  roots : List Bytes → Config
  no_verifier : Config

abbrev pub line_end : Text
line_end = b'\n' ∷ []

module _ (lib : TlsLibrary) where
  open lib use {read, pem_certs, native_certs, add, protocol_versions}

  abbrev pub some_certs : Text → List Bytes → Result Text (List Bytes)
  some_certs path certs =
      if is_empty certs then err (codes "no certificates found in " ++ path) else ok certs

  abbrev pub or_unreadable : Text → Result Text Bytes → Result Text Bytes
  or_unreadable path (err e) =
      err (codes "cannot read CA certificate bundle " ++ (path ++ (codes ": " ++ e)))
  or_unreadable path (ok pem) = ok pem

  unfoldable pub read_ca_bundle : Text → Result Text (List Bytes)
  read_ca_bundle path =
      or_unreadable path (read path) >>= (λ pem. pem_certs pem >>= some_certs path)

  -- `for cert in … { roots.add(cert)?; }`
  unfoldable pub add_all : List Bytes → List Bytes → Result Text (List Bytes)
  add_all store [] = ok store
  add_all store (cert ∷ certs) = add cert >>= (λ _. add_all (store ++ cert ∷ []) certs)

  abbrev pub stored : List Bytes → Bytes → Result Text Bool → List Bytes
  stored store cert (ok _) = store ++ cert ∷ []
  stored store cert (err _) = store

  -- `let _ = roots.add(cert);`
  unfoldable pub add_parsable : List Bytes → List Bytes → List Bytes
  add_parsable store [] = store
  add_parsable store (cert ∷ certs) = add_parsable (stored store cert (add cert)) certs

  abbrev pub some_roots : List Bytes → Result Text (List Bytes)
  some_roots store =
      if is_empty store
      then err (codes "could not load any certificate from the system trust store")
      else ok store

  unfoldable pub trust_store : Option Text → Result Text (List Bytes)
  unfolding read_ca_bundle add_all add_parsable
  trust_store (some path) = read_ca_bundle path >>= add_all []
  trust_store none = some_roots (add_parsable [] native_certs)

  abbrev pub overridden : Text → Console → Console
  overridden path console =
      write_error
        (codes "--skip-cert-verify overrides --ca-cert: "
          ++ (path ++ (codes " is not used" ++ line_end)))
        console

  -- The bundle is read and reported, though nothing is verified by it.
  abbrev pub unverified : Console → Result Text (List Bytes) → Text → Result Text Config × Console
  unverified console (err e) path = (err e, console)
  unverified console (ok _) path =
      (protocol_versions >>= (λ _. ok no_verifier), overridden path console)

  abbrev pub skipping : Option Text → Console → Result Text Config × Console
  skipping none console = (protocol_versions >>= (λ _. ok no_verifier), console)
  skipping (some path) console = unverified console (read_ca_bundle path) path

  unfoldable pub client_config : TlsSettings → Console → Result Text Config × Console
  unfolding trust_store
  client_config tls console = if tls.skip_verify then skipping tls.ca_cert console else (
    trust_store tls.ca_cert >>= (λ store. protocol_versions >>= (λ _. ok (roots store))),
    console,
  )
