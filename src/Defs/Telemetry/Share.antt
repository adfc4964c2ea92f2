-- ===== src/Defs/Telemetry/Share.antt =====
-- The share link of src/defs/telemetry.rs.
use speedtest_cli_rust.Base.{true, some, ◌++◌, ◌≡◌, refl, ok}
use speedtest_cli_rust.Base.Text.{codes, starts_with}
use speedtest_cli_rust.Util.Path.{path_join}
use speedtest_cli_rust.Util.Path.Laws.{IsRooted, path_join-IsRooted}
use speedtest_cli_rust.Url.{UrlCrate}
use speedtest_cli_rust.Defs.Telemetry.{TelemetryServer, get_share}

module _ (crate : UrlCrate) where
  open crate use {Url, parse, path, set_path}

  -- The share link of a telemetry server whose address has a path with a slash in front, as every
  -- `http` and `https` URL has, is that address with the share path joined to its own and a slash
  -- behind it, where the joined path is the root or a list of named entries with no `..` in it.
  get_share_lem :
      (t : TelemetryServer) (base : Url)
      → parse t.server ≡ some base
      → starts_with (path base) (codes "/") ≡ true
      → (get_share crate t ≡ ok (set_path base (path_join (path base) t.share ++ codes "/")))
        × IsRooted (path_join (path base) t.share)
  unfolding get_share
  get_share_lem t base e h =
      let rooted = path_join-IsRooted (path base) t.share h in (rw (e, rooted.0) refl, rooted)
