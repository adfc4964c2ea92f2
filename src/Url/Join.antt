-- ===== src/Url/Join.antt =====
-- `url_join_path` of src/util.rs.
use speedtest_cli_rust.Base.{true, [], ◌∷◌, ◌≡◌, refl, ap, is_empty, if◌then◌else◌}
use speedtest_cli_rust.Base.Text.{Text, codes, starts_with}
use speedtest_cli_rust.Util.Path.{path_join}
use speedtest_cli_rust.Util.Path.Laws.{IsRooted, path_join-IsRooted}
use speedtest_cli_rust.Url.{UrlCrate}

-- The path that is set: a slash goes before a relative one.
abbrev pub slashed : Text → Text
slashed joined =
    if is_empty joined then [] else if starts_with joined (codes "/") then joined else b'/' ∷ joined

module _ (crate : UrlCrate) where
  open crate use {Url, path, set_path}

  unfoldable pub url_join_path : Url → Text → Url
  url_join_path base sub = set_path base (slashed (path_join (path base) sub))

slashed-IsRooted : (q : Text) → IsRooted q → slashed q ≡ q
slashed-IsRooted [] h = refl
slashed-IsRooted (c ∷ q) h = rw (h.0) refl

module _ (crate : UrlCrate) where
  open crate use {Url, path, set_path}

  -- Joined to a base whose path begins with a slash, as the path of every `http` and `https` URL
  -- does, any text gives the base with the path `path_join` makes, and that path is a root or a
  -- list of named entries under it, with no `..` to climb out by.
  url_join_path_lem :
      (base : Url) (sub : Text)
      → starts_with (path base) (codes "/") ≡ true
      → (url_join_path crate base sub ≡ set_path base (path_join (path base) sub))
        × IsRooted (path_join (path base) sub)
  unfolding url_join_path
  url_join_path_lem base sub h =
      let rooted = path_join-IsRooted (path base) sub h in
      (ap (set_path base) (slashed-IsRooted (path_join (path base) sub) rooted), rooted)
