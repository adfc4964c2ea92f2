-- ===== src/Speedtest/Load/Streams.antt =====
-- `load_servers` of src/speedtest.rs says nothing to scripts.
use speedtest_cli_rust.Base.{
  ℕ, Option, none, some, List, Result, ok, err, inl, inr, ◌∙◌, Bool-cases,
}
use speedtest_cli_rust.Base.Text.{Text, Bytes, eq_text, codes}
use speedtest_cli_rust.Url.{UrlCrate}
use speedtest_cli_rust.Output.{Output, Console}
use speedtest_cli_rust.Output.Streams.{stdout_text-write_ui}
use speedtest_cli_rust.Speedtest.Servers.{Server}
use speedtest_cli_rust.Speedtest.Files.{FileSystem}
use speedtest_cli_rust.Speedtest.Load.{
  ListOptions, LoadError, or_default, fetch_servers, retried, loaded, load_servers,
}
use speedtest_cli_rust.Helper.Run.Discreet.{Same}

module _ (crate : UrlCrate) (get_bytes : UrlCrate.Url crate → Result Text (ℕ × Bytes))
    (from_slice : Bytes → Result Text (List Server)) (fs : FileSystem) (stdin : Result Text Bytes)
    (out : Output) (o : ListOptions) where
  retried-Same :
      (url : Text) (c c' : Console) (r : Result LoadError (List Server))
      → Same c c'
      → Same c (retried crate get_bytes from_slice out o url c' r).1
  retried-Same url c c' (ok servers) same = same
  retried-Same url c c' (err e) same = stdout_text-write_ui out _ c' ∙ same

  -- Loading a list says nothing to scripts.
  pub load_servers-Same :
      (c : Console) → Same c (load_servers crate get_bytes from_slice fs stdin out o c).1
  unfolding load_servers
  load_servers-Same c = go o.local_json
    where
      go : (path : Option Text) → Same c (loaded crate get_bytes from_slice fs stdin out o path c).1
      go none =
          retried-Same (or_default o.server_json) c _
            (fetch_servers crate get_bytes from_slice o (or_default o.server_json))
            (stdout_text-write_ui out _ c)
      go (some path) = elim (Bool-cases (eq_text path (codes "-"))) [
        | inl e ↦ rw e (stdout_text-write_ui out _ c)
        | inr e ↦ rw e (stdout_text-write_ui out _ c)
      ]
