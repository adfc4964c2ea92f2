-- ===== src/Tests/Web.antt =====
-- URLs of the form `scheme://host/path`, and a transport with one redirect.
use speedtest_cli_rust.Base.{ℕ, true, Option, none, some, List, [], ◌∷◌, ◌++◌}
use speedtest_cli_rust.Base.Text.{Text, codes}
use speedtest_cli_rust.Base.Find.{find}
use speedtest_cli_rust.Url.{UrlCrate}
use speedtest_cli_rust.Http.Message.{Response}
use speedtest_cli_rust.Http.Request.{Request, Wire}

pub record Address : Type 0 where
  pub scheme : Text
  pub host : Text
  pub path : Text
  pub query : Text

abbrev with_path : Text → Text → Option (Text × Text) → Address
with_path s rest none = record { scheme = s; host = rest; path = codes "/"; query = [] }
with_path s rest (some (host, path)) = record {
  scheme = s;
  host = host;
  path = b'/' ∷ path;
  query = [];
}

abbrev parsed : Option (Text × Text) → Option Address
parsed none = none
parsed (some (s, rest)) = some (with_path s rest (find (codes "/") rest))

unfoldable pub parse_address : Text → Option Address
parse_address t = parsed (find (codes "://") t)

-- A target with a scheme, or a path on the same host.
abbrev joined : Address → Text → Option Address → Option Address
joined base t (some u) = some u
joined base t none = some (record base { path = t })

abbrev pub web : UrlCrate
web = record {
  Url = Address;
  parse = parse_address;
  parse_error = λ t. codes "relative URL without a base";
  join_url = λ base t. joined base t (parse_address t);
  scheme = λ u. u.scheme;
  host_str = λ u. some u.host;
  port = λ u. none;
  port_or_known_default = λ u. some 443;
  path = λ u. u.path;
  set_path = λ u p. record u { path = p };
  append_pair = λ u n v. record u { query = n ++ (b'=' ∷ v) };
  as_str = λ u. u.scheme ++ (codes "://" ++ (u.host ++ (u.path ++ u.query)));
  origin = λ u. u.scheme ++ (codes "://" ++ u.host);
}

-- The first request is redirected with the given status, and later ones are answered.
abbrev first_then : ℕ → Text → List (Request Address) → Option Response
first_then status location [] =
    some (record { status = status; location = some location; body = [] })
first_then status location (_ ∷ _) = some (record { status = 200; location = none; body = [] })

abbrev pub redirecting : ℕ → Text → Wire Address
redirecting status location = record {
  reply = λ history request. first_then status location history;
  is_uri = λ t. true;
  header_text = λ b. some b;
}

abbrev pub start : Address
start = record { scheme = codes "https"; host = codes "a"; path = codes "/x"; query = [] }

abbrev pub moved : Address
moved = record start { path = codes "/y" }
