-- ===== src/Speedtest/Run.antt =====
-- `run` of src/speedtest.rs: the options in the order in which they are checked, the list of servers,
-- and the servers that are tested. What lies outside the repository is in `World`, what a server
-- answers in the pingers and the backends.
pub mod Settings
pub mod Flow
pub mod Laws
pub mod Listing
pub mod Prints
use speedtest_cli_rust.Base.{
  ℕ, Bool, true, false, not, ◌&&◌, Option, none, some, List, [], ◌∷◌, ◌++◌, Result, ok, err, ◌==◌,
  if◌then◌else◌,
}
use speedtest_cli_rust.Base.Text.{Text, Bytes, codes}
use speedtest_cli_rust.Base.Int.{ℤ}
use speedtest_cli_rust.Base.Float.{Float}
use speedtest_cli_rust.Url.{UrlCrate}
use speedtest_cli_rust.Output.{Output, Console}
use speedtest_cli_rust.Http.Tls.{TlsLibrary, Config}
use speedtest_cli_rust.Http.Family.{IpAddr, SocketAddr, IpFamily, BindOptions, Platform}
use speedtest_cli_rust.Defs.Telemetry.{TelemetryServer}
use speedtest_cli_rust.Speedtest.Files.{FileSystem}
use speedtest_cli_rust.Speedtest.Servers.{Server}
use speedtest_cli_rust.Speedtest.Telemetry.{Options}
use speedtest_cli_rust.Speedtest.Fastest.{Pinger}
use speedtest_cli_rust.Helper.Run.{RunOptions, Backend}
use speedtest_cli_rust.Helper.Run.Loop.{Writers}

-- What `run` itself reads of `struct Cli`, with the options of the telemetry and of the tests as records
-- of their own; `help` is read by nothing, and `distance` and `no_pre_allocate` by the backend.
pub record Args : Type 0 where
  pub tests : RunOptions
  pub telemetry : Options
  pub version : Bool
  pub debug : Bool
  pub source : Option Text
  pub interface : Option Text
  pub fwmark : ℕ
  pub ipv4 : Bool
  pub ipv6 : Bool
  pub no_icmp : Bool
  pub ca_cert : Option Text
  pub skip_cert_verify : Bool
  pub http2 : Bool
  pub timeout : ℕ
  pub secure : Bool
  pub insecure : Bool
  pub local_json : Option Text
  pub server_json : Option Text
  pub exclude : List ℤ
  pub server : List ℤ
  pub list : Bool

-- How a run ends early: with an error that `main` reports, by `output::fatal`, which has written its
-- message, or by a panic.
pub data Stop : Type 0 where
  failed : Text → Stop
  exited : Stop
  panicked : Stop

-- What has been stopped, and what was printed by then.
abbrev pub Stopped : Type 0
Stopped = Stop × Console

-- `TestContext`
pub record Context (Client : Type 0) : Type 0 where
  pub client : Client
  pub telemetry : TelemetryServer
  pub family : IpFamily
  pub source : Option IpAddr
  pub no_icmp : Bool
  pub out : Output

-- The machine, the libraries and the network. Errors are their messages, those of a URL by the text
-- that does not parse, and a status is shown by its number and its reason.
pub record World (float : Float) (crate : UrlCrate) (Client : Type 0) : Type 0 where
  pub platform : Platform
  pub fs : FileSystem
  pub stdin : Result Text Bytes
  pub servers_from_slice : Bytes → Result Text (List Server)
  pub telemetry_from_slice : Bytes → Result Text TelemetryServer
  pub show_status : ℕ → Text
  pub debug : Text → Text
  pub csv_header : ℕ → Result Text Text
  pub parse_ip : Text → Option IpAddr
  pub show_ip : IpAddr → Text
  pub lookup_host : Text → ℕ → Result Text (List SocketAddr)
  pub user_agent : Text
  pub tls : TlsLibrary
  pub build_client : BindOptions → Config → Bool → ℕ → ℕ → Text → Result Text Client
  pub get_bytes : Client → UrlCrate.Url crate → Result Text (ℕ × Bytes)
  pub pinger : Context Client → ℕ → Pinger float
  pub completed : List Server → List ℕ
  pub backend : Context Client → Server → Backend float
  pub writers : Writers float
