-- ===== src/Http/Origin.antt =====
-- `same_origin` and `origin_of` of src/http/mod.rs.
use speedtest_cli_rust.Base.{
  ℕ, Bool, true, false, ◌&&◌, [], ◌∷◌, ◌++◌, ◌≡◌, ◌↔◌, Option, none, some, arith, ◌==◌,
}
use speedtest_cli_rust.Base.Text.{Text, codes, eq_text, eq_text_iff}
use speedtest_cli_rust.Base.Decimal.{decimal}
use speedtest_cli_rust.Url.{UrlCrate}

-- `==` on `Option<&str>` and `Option<u16>`
unfoldable pub eq_host : Option Text → Option Text → Bool
eq_host none none = true
eq_host (some a) (some b) = eq_text a b
eq_host _ _ = false

unfoldable pub eq_port : Option ℕ → Option ℕ → Bool
eq_port none none = true
eq_port (some a) (some b) = a == b
eq_port _ _ = false

-- `unwrap_or_default` on a host
abbrev pub host_or_empty : Option Text → Text
host_or_empty none = []
host_or_empty (some h) = h

module _ (crate : UrlCrate) where
  open crate use {Url, scheme, host_str, port, port_or_known_default}

  unfoldable pub same_origin : Url → Url → Bool
  same_origin a b =
      eq_text (scheme a) (scheme b)
      && eq_host (host_str a) (host_str b)
      && eq_port (port_or_known_default a) (port_or_known_default b)

  unfoldable pub origin_of : Url → Text
  origin_of url = elim (port url) [
    | some p ↦ scheme url ++ (codes "://" ++ (host_or_empty (host_str url) ++ (b':' ∷ decimal p)))
    | none ↦ scheme url ++ (codes "://" ++ host_or_empty (host_str url))
  ]

  eq_host_iff : (a b : Option Text) → (eq_host a b ≡ true) ↔ (a ≡ b)
  unfolding eq_host
  eq_host_iff (some a) (some b) = ground (arith, eq_text_iff a b)
  eq_host_iff _ _ = ground arith

  eq_port_iff : (a b : Option ℕ) → (eq_port a b ≡ true) ↔ (a ≡ b)
  unfolding eq_port
  eq_port_iff (some a) (some b) = ground arith
  eq_port_iff _ _ = ground arith

  -- Two URLs have one origin exactly when scheme, host and effective port agree.
  pub same_origin_iff :
      (a b : Url)
      → (same_origin a b ≡ true) ↔ (
          (scheme a ≡ scheme b)
          × (host_str a ≡ host_str b)
          × (port_or_known_default a ≡ port_or_known_default b))
  unfolding same_origin
  same_origin_iff a b = ground (
    arith,
    eq_text_iff (scheme a) (scheme b),
    eq_host_iff (host_str a) (host_str b),
    eq_port_iff (port_or_known_default a) (port_or_known_default b),
  )
