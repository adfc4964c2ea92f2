-- ===== src/Http/Family.antt =====
-- The address families and the bind options of src/http/connector.rs: `IpFamily`, `BindOptions`,
-- `resolve`, the check of a source address in `connect_one`, and the addresses that
-- `BoundConnector::call` dials. Looking up a name and the calls on a socket are arguments.
pub mod Laws
use speedtest_cli_rust.Base.{
  ℕ, Bool, true, false, not, ◌&&◌, Option, none, some, List, [], ◌∷◌, ◌++◌, Result, ok, err, ◌>>=◌,
  ◌==◌, if◌then◌else◌, is_empty, keep, reverse, ltb,
}
use speedtest_cli_rust.Base.Text.{Text, codes, eq_text}

-- `std::net::IpAddr`, by its octets.
pub data IpAddr : Type 0 where
  v4 v6 : List ℕ → IpAddr

pub record SocketAddr : Type 0 where
  pub ip : IpAddr
  pub port : ℕ

abbrev pub is_ipv4 : IpAddr → Bool
is_ipv4 (v4 _) = true
is_ipv4 (v6 _) = false

abbrev pub is_ipv6 : IpAddr → Bool
is_ipv6 ip = not (is_ipv4 ip)

-- `enum IpFamily`
pub data IpFamily : Type 0 where
  any_family only_v4 only_v6 : IpFamily

-- `IpFamily::accepts`, of an address without its port.
unfoldable pub accepts : IpFamily → IpAddr → Bool
accepts any_family ip = true
accepts only_v4 ip = is_ipv4 ip
accepts only_v6 ip = is_ipv6 ip

-- `IpFamily::network`
unfoldable pub network : IpFamily → Text
network any_family = codes "ip"
network only_v4 = codes "ip4"
network only_v6 = codes "ip6"

-- `struct BindOptions`
pub record BindOptions : Type 0 where
  pub source : Option IpAddr
  pub interface : Option Text
  pub fwmark : ℕ
  pub family : IpFamily

-- What `target_os` tells apart: Linux, Android and Fuchsia; macOS and iOS; anything else.
pub data Platform : Type 0 where
  linux apple another_platform : Platform

abbrev pub is_set : Option Text → Bool
is_set none = false
is_set (some _) = true

-- No binding is refused where there is nothing to bind.
unfoldable pub validate : Platform → BindOptions → Result Text Bool
validate platform o =
    if not (is_set o.interface) && o.fwmark == 0 then ok true else honoured platform
  where
    honoured : Platform → Result Text Bool
    honoured linux = ok true
    honoured apple =
        if ltb 0 o.fwmark
        then err (codes "cannot set a firewall mark on this platform")
        else ok true
    honoured another_platform =
        if ltb 0 o.fwmark
        then err (codes "cannot set a firewall mark on this platform")
        else err (codes "cannot bound to interface on this platform")

-- `trim_start_matches(c)` and `trim_end_matches(c)`
unfoldable pub trim_start : ℕ → Text → Text
trim_start c [] = []
trim_start c (d ∷ s) = if d == c then trim_start c s else d ∷ s

-- The name without the brackets of an IPv6 literal.
unfoldable pub unbracketed : Text → Text
unfolding trim_start
unbracketed host = reverse (trim_start b']' (reverse (trim_start b'[' host)))

module _ (lookup_host : Text → ℕ → Result Text (List SocketAddr)) where
  abbrev pub or_not_available : Text → IpFamily → List SocketAddr → Result Text (List SocketAddr)
  or_not_available host family addrs =
      if is_empty addrs
      then err (codes "no " ++ (network family ++ (codes " address found for " ++ host)))
      else ok addrs

  unfoldable pub resolve : Text → ℕ → IpFamily → Result Text (List SocketAddr)
  unfolding unbracketed network accepts
  resolve host port family = lookup_host (unbracketed host) port >>= (λ addrs.
      or_not_available (unbracketed host) family (keep (λ a. accepts family a.ip) addrs))

  -- A URI as the connector reads it: its host, its port and its scheme.
  pub record Destination : Type 0 where
    pub host : Option Text
    pub port : Option ℕ
    pub scheme : Option Text

  abbrev pub is_https : Option Text → Bool
  is_https none = false
  is_https (some scheme) = eq_text scheme (codes "https")

  abbrev pub or_default_port : Option Text → Option ℕ → ℕ
  or_default_port scheme (some port) = port
  or_default_port scheme none = if is_https scheme then 443 else 80

  abbrev pub hosted : BindOptions → Destination → Option Text → Result Text (List SocketAddr)
  hosted opts dst none = err (codes "URI has no host")
  hosted opts dst (some host) = resolve host (or_default_port dst.scheme dst.port) opts.family

  -- The addresses that `BoundConnector::call` dials.
  unfoldable pub call : BindOptions → Destination → Result Text (List SocketAddr)
  unfolding resolve
  call opts dst = hosted opts dst dst.host

-- What a socket does: options are set on it, it is bound to an address, and it is connected.
pub record Socket (Stream : Type 0) : Type 0 where
  pub opened : Bool → Result Text Bool
  pub options_set : BindOptions → SocketAddr → Result Text Bool
  pub bind : SocketAddr → Result Text Bool
  pub connect : Option IpAddr → SocketAddr → Result Text Stream

abbrev pub same_family : Bool → Bool → Bool
same_family true b = b
same_family false b = not b

module _ {Stream : Type 0} (socket : Socket Stream) where
  -- A source address is bound only to a socket of its family.
  abbrev pub bound : Option IpAddr → SocketAddr → Result Text (Option IpAddr)
  bound none addr = ok none
  bound (some src) addr =
      if same_family (is_ipv4 src) (is_ipv4 addr.ip)
      then socket.bind (record { ip = src; port = 0 }) >>= (λ _. ok (some src))
      else err (codes "source address family does not match destination")

  unfoldable pub connect_one : SocketAddr → BindOptions → Result Text Stream
  connect_one addr opts = do
    _ ← socket.opened (is_ipv4 addr.ip)
    _ ← socket.options_set opts addr
    source ← bound opts.source addr
    socket.connect source addr
