-- ===== src/Speedtest/Run/Settings.antt =====
-- The checks and the settings of `run` of src/speedtest.rs, up to the HTTP client: `print_version`,
-- `resolve_telemetry`'s errors, the family, `parse_source` and the bind options.
pub mod Laws
use speedtest_cli_rust.Base.{
  ℕ, Bool, true, false, not, ◌&&◌, ◌||◌, Option, none, some, List, [], ◌∷◌, ◌++◌, Result, ok, err,
  ◌>>=◌, ◌==◌, if◌then◌else◌, ltb,
}
use speedtest_cli_rust.Base.Text.{Text, Bytes, codes, eq_text}
use speedtest_cli_rust.Base.Float.{Float}
use speedtest_cli_rust.Url.{UrlCrate}
use speedtest_cli_rust.Output.{Output, Console, write_out, write_error, write_debug}
use speedtest_cli_rust.Http.Family.{
  IpAddr, is_ipv4, is_ipv6, SocketAddr, IpFamily, any_family, only_v4, only_v6, accepts,
  BindOptions, validate, resolve, is_set,
}
use speedtest_cli_rust.Http.Tls.{TlsSettings, Config, client_config}
use speedtest_cli_rust.Cli.{silent, csv_delimiter_byte}
use speedtest_cli_rust.Defs.Telemetry.{TelemetryServer}
use speedtest_cli_rust.Speedtest.Files.{read_file, u64_max}
use speedtest_cli_rust.Speedtest.Scheme.{ForceScheme, nothing, https, http}
use speedtest_cli_rust.Speedtest.Telemetry.{
  Failure, cannot_read, cannot_parse, fatal, resolve_telemetry,
}
use speedtest_cli_rust.Speedtest.Run.{Args, Stop, failed, exited, panicked, Stopped, World}

abbrev pub line_end : Text
line_end = b'\n' ∷ []

-- `let out = Output { … }`
unfoldable pub output_of : Args → Output
output_of cli = record {
  debug = cli.debug;
  quiet = silent cli.tests.cli;
  stream = cli.tests.cli.json_stream;
}

-- What `build.rs` and Cargo fill in.
pub record Build : Type 0 where
  pub version : Text
  pub date : Text
  pub revision : Text
  pub repository : Text

unfoldable pub print_version : Build → Console → Console
print_version b console =
    let name = codes "librespeed-cli " ++ b.version in
    let first =
      if eq_text b.revision (codes "unknown")
      then name ++ (codes " (built on " ++ (b.date ++ codes ")\n"))
      else name
        ++ (codes " (" ++ (b.revision ++ (codes ", built on " ++ (b.date ++ codes ")\n")))) in
    write_out (codes "librespeed-cli\tCopyright (C) 2020 Maddie Zhan\n") (
      write_out (codes "LibreSpeed\tCopyright (C) 2016-2020 Federico Dossena\n") (
        write_out (codes "Licensed under GNU Lesser General Public License v3.0\n")
          (write_out (b.repository ++ line_end) (write_out first console))))

-- `output::fatal`
abbrev pub fatally : {A : Type 0} → Text → Console → Result Stopped A
fatally message console = err (exited, write_error (message ++ line_end) console)

-- `?` on a call that prints nothing.
abbrev pub or_fail : {A : Type 0} → Console → Result Text A → Result Stopped A
or_fail console (err e) = err (failed e, console)
or_fail console (ok a) = ok a

-- The lines that `resolve_telemetry` prints before it hands an error on.
unfoldable pub telemetry_stop : Failure → Console → Stopped
telemetry_stop (cannot_read path e) console = (
  failed e,
  write_error (codes "Cannot read " ++ (path ++ (codes ": " ++ (e ++ line_end)))) console,
)
telemetry_stop (cannot_parse path e) console = (
  failed e,
  write_error (codes "Error parsing " ++ (path ++ (codes ": " ++ (e ++ line_end)))) console,
)
telemetry_stop (fatal message) console = (exited, write_error (message ++ line_end) console)

abbrev pub telemetry_or_stop :
    Console → Result Failure TelemetryServer → Result Stopped TelemetryServer
telemetry_or_stop console (err e) = err (telemetry_stop e console)
telemetry_or_stop console (ok t) = ok t

unfoldable pub family_of : Args → IpFamily
family_of cli = if cli.ipv4 then only_v4 else if cli.ipv6 then only_v6 else any_family

unfoldable pub force_of : Args → ForceScheme
force_of cli = if cli.secure then https else if cli.insecure then http else nothing

-- The name of a family in `parse_source`, where it is `want`.
abbrev pub wanted : IpFamily → Text
wanted only_v6 = codes "IPv6"
wanted _ = codes "IPv4"

module _ (float : Float) (crate : UrlCrate) (Client : Type 0) (w : World float crate Client) where
  abbrev pub using : Output → Text → Console → Console
  using out text console =
      write_debug out (codes "Using " ++ (text ++ codes " as source IP\n")) console

  abbrev pub looked_up :
      Output → Console → Result Text (List SocketAddr) → Result Stopped (IpAddr × Console)
  looked_up out console (err e) = err (failed (codes "Error parsing source IP: " ++ e), console)
  looked_up out console (ok []) = err (panicked, console)
  looked_up out console (ok (a ∷ _)) = ok (a.ip, using out (w.show_ip a.ip) console)

  abbrev pub parsed_source :
      Output → Text → IpFamily → Console → Option IpAddr → Result Stopped (IpAddr × Console)
  parsed_source out src family console (some ip) =
      if not (accepts family ip)
      then err (
        failed (
            codes "Address "
            ++ (src ++ (codes " is not a valid " ++ (wanted family ++ codes " address")))),
        console,
      )
      else ok (ip, using out src console)
  parsed_source out src family console none =
      looked_up out console (resolve w.lookup_host src 0 family)

  -- `parse_source`; `addrs[0]` panics where there are no addresses.
  unfoldable pub parse_source :
      Output → Text → IpFamily → Console → Result Stopped (IpAddr × Console)
  unfolding accepts resolve
  parse_source out src family console = parsed_source out src family console (w.parse_ip src)

  abbrev pub source_given : IpAddr × Console → Option IpAddr × Console
  source_given (ip, console) = (some ip, console)

  abbrev pub source_of :
      Output → IpFamily → Console → Option Text → Result Stopped (Option IpAddr × Console)
  source_of out family console none = ok (none, console)
  source_of out family console (some s) =
      parse_source out s family console >>= (λ given. ok (source_given given))

  -- The bundle of `--ca-cert`, which is read to say early that it cannot be.
  abbrev pub readable : Console → Result Text Bytes → Result Stopped Bool
  readable console (err e) = fatally e console
  readable console (ok _) = ok true

  abbrev pub ca_cert_readable : Console → Option Text → Result Stopped Bool
  ca_cert_readable console none = ok true
  ca_cert_readable console (some path) = readable console (read_file w.fs path u64_max)

  abbrev pub some_concurrent : ℕ → Console → Result Stopped Bool
  some_concurrent concurrent console =
      if concurrent == 0
      then err (
        failed (codes "invalid concurrent requests setting"),
        write_error (codes "Concurrent requests cannot be lower than 1: 0 is given\n") console,
      )
      else ok true

  -- ICMP cannot be bound to an interface.
  unfoldable pub is_bound : Args → Bool
  is_bound cli = is_set cli.interface || ltb 0 cli.fwmark

  unfoldable pub no_icmp_of : Args → Bool
  unfolding is_bound
  no_icmp_of cli = if is_bound cli then true else cli.no_icmp

  abbrev pub validated : Args → BindOptions → Console → Result Stopped Bool
  validated cli bind console =
      if is_bound cli then or_fail console (validate w.platform bind) else ok true

  -- The settings that the checks come to.
  pub record Settings : Type 0 where
    pub telemetry : TelemetryServer
    pub family : IpFamily
    pub source : Option IpAddr
    pub client : Client
    pub console : Console

  abbrev pub bind_of : Args → Option IpAddr → BindOptions
  bind_of cli source = record {
    source = source;
    interface = cli.interface;
    fwmark = cli.fwmark;
    family = family_of cli;
  }

  abbrev pub tls_of : Args → TlsSettings
  tls_of cli = record {
    ca_cert = cli.ca_cert;
    skip_verify = cli.skip_cert_verify;
    http2 = cli.http2;
  }

  abbrev pub settings : Args → TelemetryServer → Option IpAddr × Console → Client → Settings
  settings cli telemetry (source, console) client = record {
    telemetry = telemetry;
    family = family_of cli;
    source = source;
    client = client;
    console = console;
  }

  -- `HttpClient::new`, behind the configuration of TLS.
  abbrev pub configured :
      Args
      → TelemetryServer
      → Option IpAddr
      → Result Text Config × Console
      → Result Stopped Settings
  configured cli telemetry source (err e, console) = err (failed e, console)
  configured cli telemetry source (ok config, console) =
      or_fail console (
        w.build_client (bind_of cli source) config cli.http2 cli.timeout cli.tests.concurrent
          w.user_agent)
      >>= (λ client. ok (settings cli telemetry (source, console) client))

  -- The client, where the socket can be bound as it is asked for.
  abbrev pub connected : Args → TelemetryServer → Option IpAddr × Console → Result Stopped Settings
  connected cli telemetry (source, console) =
      validated cli (bind_of cli source) console
      >>= (λ _. configured cli telemetry source (client_config w.tls (tls_of cli) console))

  -- The checks behind the answers to `--version` and `--csv-header`, up to the client.
  unfoldable pub settle : Args → Console → Result Stopped Settings
  unfolding parse_source no_icmp_of family_of telemetry_stop
  settle cli console = do
    telemetry ←
        telemetry_or_stop console (resolve_telemetry w.fs w.telemetry_from_slice cli.telemetry)
    _ ← some_concurrent cli.tests.concurrent console
    _ ← ca_cert_readable console cli.ca_cert
    sourced ← source_of (output_of cli) (family_of cli) console cli.source
    connected cli telemetry sourced
