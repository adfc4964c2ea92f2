-- ===== src/Speedtest/Run/Settings/Laws.antt =====
-- How the checks of `run` of src/speedtest.rs end.
use speedtest_cli_rust.Base.{
  ℕ, true, Option, some, none, List, [], ◌∷◌, Result, ok, err, ◌>>=◌, ◌==◌, ◌≡◌, ◌≢◌, refl, ◌∙◌,
  inl, inr, Bool-cases,
}
use speedtest_cli_rust.Base.Text.{Text, Bytes}
use speedtest_cli_rust.Base.Float.{Float}
use speedtest_cli_rust.Url.{UrlCrate}
use speedtest_cli_rust.Output.{Output, Console}
use speedtest_cli_rust.Output.Streams.{stdout_text-write_error, stdout_text-write_debug}
use speedtest_cli_rust.Http.Family.{IpAddr, SocketAddr, IpFamily, accepts, BindOptions, validate}
use speedtest_cli_rust.Http.Family.Laws.{Serves, resolve-Serves}
use speedtest_cli_rust.Http.Tls.{Config, client_config}
use speedtest_cli_rust.Http.Tls.Trust.{client_config-IsSound}
use speedtest_cli_rust.Defs.Telemetry.{TelemetryServer}
use speedtest_cli_rust.Helper.Run.Discreet.{Same}
use speedtest_cli_rust.Speedtest.Files.{read_file, u64_max}
use speedtest_cli_rust.Speedtest.Telemetry.{Failure, cannot_read, cannot_parse, fatal}
use speedtest_cli_rust.Speedtest.Run.{Args, failed, exited, panicked, Stopped, World}
use speedtest_cli_rust.Speedtest.Run.Settings.{
  output_of, or_fail, telemetry_stop, telemetry_or_stop, family_of, looked_up, parsed_source,
  parse_source, source_of, readable, ca_cert_readable, some_concurrent, is_bound, validated,
  bind_of, Settings, settings, tls_of, configured, connected, settle,
}

-- An early end that is no panic, and that has printed nothing for scripts.
abbrev pub Calm : Console → Stopped → Type 0
Calm c (stop, c') = (stop ≢ panicked) × Same c c'

-- A step that ends calmly, or gives what `Holds` says.
abbrev pub Ends : {A : Type 0} → Console → (A → Type 0) → Result Stopped A → Type 0
Ends c Holds (err stopped) = Calm c stopped
Ends c Holds (ok a) = Holds a

pub Ends-bind :
    {A B : Type 0} (c : Console) (P : A → Type 0) (Q : B → Type 0) (m : Result Stopped A)
    (next : A → Result Stopped B)
    → Ends c P m
    → ((a : A) → P a → Ends c Q (next a))
    → Ends c Q (m >>= next)
Ends-bind c P Q (err stopped) next calm go = calm
Ends-bind c P Q (ok a) next holds go = go a holds

pub failed_calm : (e : Text) → failed e ≢ panicked
failed_calm e h = cc

pub exited_calm : exited ≢ panicked
exited_calm h = cc

abbrev pub Any : {A : Type 0} → A → Type 0
Any a = Unit

pub or_fail-Ends :
    {A : Type 0} (c c' : Console) (r : Result Text A) → Same c c' → Ends c Any (or_fail c' r)
or_fail-Ends c c' (err e) same = (failed_calm e, same)
or_fail-Ends c c' (ok a) same = tt

telemetry_or_stop-Ends :
    (c : Console) (r : Result Failure TelemetryServer) → Ends c Any (telemetry_or_stop c r)
unfolding telemetry_stop
telemetry_or_stop-Ends c (ok t) = tt
telemetry_or_stop-Ends c (err (cannot_read path e)) = (failed_calm e, stdout_text-write_error _ c)
telemetry_or_stop-Ends c (err (cannot_parse path e)) = (failed_calm e, stdout_text-write_error _ c)
telemetry_or_stop-Ends c (err (fatal message)) = (exited_calm, stdout_text-write_error _ c)

module _ (float : Float) (crate : UrlCrate) (Client : Type 0) (w : World float crate Client) where
  -- What a source is: of the family that is asked for, with nothing said to scripts.
  abbrev pub Sourced : IpFamily → Console → IpAddr × Console → Type 0
  Sourced family c (ip, c') = (accepts family ip ≡ true) × Same c c'

  looked_up-Ends :
      (out : Output) (family : IpFamily) (c : Console) (r : Result Text (List SocketAddr))
      → Serves family r
      → Ends c (Sourced family c) (looked_up float crate Client w out c r)
  looked_up-Ends out family c (err e) serves = (failed_calm _, refl)
  looked_up-Ends out family c (ok []) serves = cc
  looked_up-Ends out family c (ok (a ∷ addrs)) serves =
      (serves.1.0, stdout_text-write_debug out _ c)

  parsed_source-Ends :
      (out : Output) (src : Text) (family : IpFamily) (c : Console) (parsed : Option IpAddr)
      → Ends c (Sourced family c) (parsed_source float crate Client w out src family c parsed)
  parsed_source-Ends out src family c none =
      looked_up-Ends out family c _ (resolve-Serves w.lookup_host src 0 family)
  parsed_source-Ends out src family c (some ip) = elim (Bool-cases (accepts family ip)) [
    | inl e ↦ rw e (e, stdout_text-write_debug out _ c)
    | inr e ↦ rw e (failed_calm _, refl)
  ]

  -- A source is of the family that is asked for, or the run is told why there is none.
  pub parse_source-Ends :
      (out : Output) (src : Text) (family : IpFamily) (c : Console)
      → Ends c (Sourced family c) (parse_source float crate Client w out src family c)
  unfolding parse_source
  parse_source-Ends out src family c = parsed_source-Ends out src family c (w.parse_ip src)

  abbrev IsSourced : IpFamily → Console → Option IpAddr × Console → Type 0
  IsSourced family c (none, c') = Same c c'
  IsSourced family c (some ip, c') = Sourced family c (ip, c')

  source_of-Ends :
      (out : Output) (family : IpFamily) (c : Console) (given : Option Text)
      → Ends c (IsSourced family c) (source_of float crate Client w out family c given)
  source_of-Ends out family c none = refl
  source_of-Ends out family c (some s) =
      Ends-bind c (Sourced family c) (IsSourced family c)
        (parse_source float crate Client w out s family c) _ (parse_source-Ends out s family c)
        (λ given sourced. sourced)

  IsSourced-Same :
      (family : IpFamily) (c : Console) (sourced : Option IpAddr × Console)
      → IsSourced family c sourced
      → Same c sourced.1
  IsSourced-Same family c (none, c') same = same
  IsSourced-Same family c (some ip, c') (own, same) = same

  IsSourced-Same_to :
      (family : IpFamily) (c c' d : Console) (source : Option IpAddr)
      → Same c' d
      → IsSourced family c (source, c')
      → IsSourced family c (source, d)
  IsSourced-Same_to family c c' d none kept own = kept ∙ own
  IsSourced-Same_to family c c' d (some ip) kept (accepted, own) = (accepted, kept ∙ own)

  ca_cert_readable-Ends :
      (c : Console) (path : Option Text) → Ends c Any (ca_cert_readable float crate Client w c path)
  ca_cert_readable-Ends c none = tt
  ca_cert_readable-Ends c (some path) = go (read_file w.fs path u64_max)
    where
      go : (r : Result Text Bytes) → Ends c Any (readable float crate Client w c r)
      go (err e) = (exited_calm, stdout_text-write_error _ c)
      go (ok bytes) = tt

  some_concurrent-Ends :
      (concurrent : ℕ) (c : Console)
      → Ends c Any (some_concurrent float crate Client w concurrent c)
  some_concurrent-Ends concurrent c = elim (Bool-cases (concurrent == 0)) [
    | inl e ↦ rw e (failed_calm _, stdout_text-write_error _ c)
    | inr e ↦ rw e tt
  ]

  validated-Ends :
      (cli : Args) (bind : BindOptions) (c c' : Console)
      → Same c c'
      → Ends c Any (validated float crate Client w cli bind c')
  validated-Ends cli bind c c' same = elim (Bool-cases (is_bound float crate Client w cli)) [
    | inl e ↦ rw e (or_fail-Ends c c' (validate w.platform bind) same)
    | inr e ↦ rw e tt
  ]

  -- What the settings keep: the source is of the family, and scripts have read nothing.
  abbrev pub Settles : Args → Console → Settings float crate Client w → Type 0
  Settles cli c st =
      (st.family ≡ family_of cli)
      × IsSourced (family_of cli) c (st.source, st.console)
      × Same c st.console

  connected-Ends :
      (cli : Args) (telemetry : TelemetryServer) (c : Console) (sourced : Option IpAddr × Console)
      → IsSourced (family_of cli) c sourced
      → Ends c (Settles cli c) (connected float crate Client w cli telemetry sourced)
  connected-Ends cli telemetry c (source, c') own =
      Ends-bind c Any (Settles cli c)
        (validated float crate Client w cli (bind_of float crate Client w cli source) c') _
        (validated-Ends cli _ c c' same)
        λ _ _.
          made (client_config w.tls (tls_of float crate Client w cli) c')
            ((client_config-IsSound w.tls (tls_of float crate Client w cli) c').1)
    where
      same : Same c c'
      same = IsSourced-Same (family_of cli) c (source, c') own

      built :
          (d : Console) (r : Result Text Client)
          → Same c' d
          → Ends c (Settles cli c) (
              or_fail d r
              >>= (λ client. ok (settings float crate Client w cli telemetry (source, d) client)))
      built d (err e) kept = (failed_calm e, kept ∙ same)
      built d (ok client) kept =
          (refl, IsSourced-Same_to (family_of cli) c c' d source kept own, kept ∙ same)

      made :
          (r : Result Text Config × Console)
          → Same c' r.1
          → Ends c (Settles cli c) (configured float crate Client w cli telemetry source r)
      made (err e, d) kept = (failed_calm e, kept ∙ same)
      made (ok config, d) kept =
          built d
            (w.build_client (bind_of float crate Client w cli source) config cli.http2 cli.timeout
              cli.tests.concurrent w.user_agent)
            kept

  pub settle-Ends :
      (cli : Args) (c : Console) → Ends c (Settles cli c) (settle float crate Client w cli c)
  unfolding settle
  settle-Ends cli c =
      Ends-bind c Any (Settles cli c) (telemetry_or_stop c _) _ (telemetry_or_stop-Ends c _)
        λ telemetry _.
          Ends-bind c Any (Settles cli c) (some_concurrent float crate Client w _ c) _
            (some_concurrent-Ends cli.tests.concurrent c)
            λ _ _.
              Ends-bind c Any (Settles cli c) (ca_cert_readable float crate Client w c cli.ca_cert)
                _ (ca_cert_readable-Ends c cli.ca_cert)
                λ _ _.
                  Ends-bind c (IsSourced (family_of cli) c) (Settles cli c)
                    (source_of float crate Client w (output_of cli) (family_of cli) c cli.source) _
                    (source_of-Ends (output_of cli) (family_of cli) c cli.source)
                    (connected-Ends cli telemetry c)
