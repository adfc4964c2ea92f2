-- ===== src/Speedtest/Load.antt =====
-- `load_servers` and `fetch_servers` of src/speedtest.rs. The client's GET, standard input, the file
-- system and serde_json are arguments.
pub mod Sources
pub mod Streams
use speedtest_cli_rust.Base.{
  ℕ, ◌+◌, ◌*◌, Bool, true, false, not, Option, none, some, List, [], ◌∷◌, ◌++◌, Result, ok, err,
  ◌>>=◌, within, if◌then◌else◌, ltb, length, take,
}
use speedtest_cli_rust.Base.Text.{Text, Bytes, codes, eq_text}
use speedtest_cli_rust.Base.Int.{ℤ}
use speedtest_cli_rust.Url.{UrlCrate}
use speedtest_cli_rust.Output.{Output, Console, write_ui}
use speedtest_cli_rust.Speedtest.Files.{FileSystem, read_file}
use speedtest_cli_rust.Speedtest.Scheme.{ForceScheme}
use speedtest_cli_rust.Speedtest.Servers.{Server, SelectionError, preprocess_servers}

abbrev pub server_list_url : Text
server_list_url = codes "https://librespeed.org/backend-servers/servers.php"

-- `MAX_LOCAL_JSON`
abbrev pub max_local_json : ℕ
max_local_json = 8 * 1024 * 1024

-- The options of `struct Cli` that are read here, with the scheme that they force.
pub record ListOptions : Type 0 where
  pub local_json : Option Text
  pub server_json : Option Text
  pub exclude : List ℤ
  pub server : List ℤ
  pub list : Bool
  pub force : ForceScheme

pub data LoadError : Type 0 where
  stdin_failed : Text → LoadError
  stdin_too_long : LoadError
  file_failed : Text → LoadError
  invalid_url : Text → LoadError
  not_fetched : Text → LoadError
  http_status : ℕ → LoadError
  not_parsed : Text → LoadError
  not_selected : SelectionError → LoadError

abbrev newline : Text
newline = b'\n' ∷ []

abbrev pub selected : Result SelectionError (List Server) → Result LoadError (List Server)
selected (ok servers) = ok servers
selected (err e) = err (not_selected e)

abbrev pub preprocessed : ListOptions → Result Text (List Server) → Result LoadError (List Server)
preprocessed o (err e) = err (not_parsed e)
preprocessed o (ok servers) =
    selected (preprocess_servers servers o.force o.exclude o.server (not o.list))

-- Standard input is read to one byte past the cap.
abbrev pub capped : Bytes → Result LoadError Bytes
capped buf = if ltb max_local_json (length buf) then err stdin_too_long else ok buf

abbrev pub from_stdin : Result Text Bytes → Result LoadError Bytes
from_stdin (err e) = err (stdin_failed e)
from_stdin (ok input) = capped (take (max_local_json + 1) input)

abbrev pub from_file : Result Text Bytes → Result LoadError Bytes
from_file (err e) = err (file_failed e)
from_file (ok bytes) = ok bytes

abbrev pub or_default : Option Text → Text
or_default none = server_list_url
or_default (some url) = url

module _ (crate : UrlCrate) (get_bytes : UrlCrate.Url crate → Result Text (ℕ × Bytes))
    (from_slice : Bytes → Result Text (List Server)) where
  open crate use {Url, parse, origin}

  abbrev pub parsed : Text → Option Url → Result LoadError Url
  parsed url none = err (invalid_url url)
  parsed url (some u) = ok u

  abbrev pub fetched : Result Text (ℕ × Bytes) → Result LoadError Bytes
  fetched (err e) = err (not_fetched e)
  fetched (ok (status, body)) =
      if not (within 200 299 status) then err (http_status status) else ok body

  unfoldable pub fetch_servers : ListOptions → Text → Result LoadError (List Server)
  fetch_servers o url =
      parsed url (parse url)
      >>= (λ u. fetched (get_bytes u) >>= (λ body. preprocessed o (from_slice body)))

  -- The discovery endpoint, at the root of the site.
  abbrev pub well_known : Text → Option Url → Text
  well_known server_url none = server_url ++ codes "/.well-known/librespeed"
  well_known server_url (some u) = origin u ++ codes "/.well-known/librespeed"

  -- The second try, where the first has failed.
  abbrev pub retried :
      Output
      → ListOptions
      → Text
      → Console
      → Result LoadError (List Server)
      → Result LoadError (List Server) × Console
  retried out o server_url console (ok servers) = (ok servers, console)
  retried out o server_url console (err _) = (
    fetch_servers o (well_known server_url (parse server_url)),
    write_ui out (codes "Retry with /.well-known/librespeed" ++ newline) console,
  )

  abbrev pub local : ListOptions → Result LoadError Bytes → Result LoadError (List Server)
  local o raw = raw >>= (λ bytes. preprocessed o (from_slice bytes))

  module _ (fs : FileSystem) (stdin : Result Text Bytes) (out : Output) where
    abbrev pub loaded :
        ListOptions → Option Text → Console → Result LoadError (List Server) × Console
    loaded o none console =
        let server_url = or_default o.server_json in
        retried out o server_url
          (write_ui out (codes "Retrieving server list from " ++ (server_url ++ newline)) console)
          (fetch_servers o server_url)
    loaded o (some path) console =
        if eq_text path (codes "-")
        then (
          local o (from_stdin stdin),
          write_ui out (codes "Using local JSON server list from stdin" ++ newline) console,
        )
        else (
          local o (from_file (read_file fs path max_local_json)),
          write_ui out (codes "Using local JSON server list: " ++ (path ++ newline)) console,
        )

    unfoldable pub load_servers : ListOptions → Console → Result LoadError (List Server) × Console
    load_servers o console = loaded o o.local_json console
