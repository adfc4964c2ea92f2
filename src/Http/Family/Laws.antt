-- ===== src/Http/Family/Laws.antt =====
-- The addresses that src/http/connector.rs dials, and the source that it binds there.
use speedtest_cli_rust.Base.{
  ℕ, Bool, true, false, Option, some, none, List, [], ◌∷◌, Result, ok, err, ◌>>=◌, keep, is_empty,
  All, All_imp, ◌≡◌, ◌≢◌, subst, refl, inl, inr, Bool-cases,
}
use speedtest_cli_rust.Base.Text.{Text}
use speedtest_cli_rust.Http.Family.{
  IpAddr, v4, v6, SocketAddr, is_ipv4, IpFamily, any_family, only_v4, only_v6, accepts, BindOptions,
  unbracketed, or_not_available, resolve, Destination, or_default_port, hosted, call, Socket,
  same_family, bound, connect_one,
}

abbrev pub Accepted : IpFamily → SocketAddr → Type 0
Accepted family a = accepts family a.ip ≡ true

keep-Accepted :
    (family : IpFamily) (addrs : List SocketAddr)
    → All (Accepted family) (keep (λ a. accepts family a.ip) addrs)
keep-Accepted family [] = tt
keep-Accepted family (a ∷ addrs) = elim (Bool-cases (accepts family a.ip)) [
  | inl e ↦ rw e (e, keep-Accepted family addrs)
  | inr e ↦ rw e (keep-Accepted family addrs)
]

-- What comes of a lookup: there is an address, and each is of the family.
abbrev pub Serves : IpFamily → Result Text (List SocketAddr) → Type 0
Serves family (err e) = Unit
Serves family (ok addrs) = (is_empty addrs ≡ false) × All (Accepted family) addrs

module _ (lookup_host : Text → ℕ → Result Text (List SocketAddr)) where
  or_not_available-Serves :
      (host : Text) (family : IpFamily) (addrs : List SocketAddr)
      → All (Accepted family) addrs
      → Serves family (or_not_available lookup_host host family addrs)
  or_not_available-Serves host family [] all = tt
  or_not_available-Serves host family (a ∷ addrs) all = (refl, all)

  pub resolve-Serves :
      (host : Text) (port : ℕ) (family : IpFamily)
      → Serves family (resolve lookup_host host port family)
  unfolding resolve
  resolve-Serves host port family = looked (lookup_host (unbracketed host) port)
    where
      looked :
          (r : Result Text (List SocketAddr))
          → Serves family (
              r >>= (λ addrs.
                or_not_available lookup_host
                  (unbracketed host)
                  family
                  (keep (λ a. accepts family a.ip) addrs)))
      looked (err e) = tt
      looked (ok addrs) =
          or_not_available-Serves (unbracketed host) family (keep (λ a. accepts family a.ip) addrs)
            (keep-Accepted family addrs)

  hosted-Serves :
      (opts : BindOptions) (dst : Destination lookup_host) (host : Option Text)
      → Serves opts.family (hosted lookup_host opts dst host)
  hosted-Serves opts dst none = tt
  hosted-Serves opts dst (some host) =
      resolve-Serves host (or_default_port lookup_host dst.scheme dst.port) opts.family

-- A source of a family that is asked for is of the family of every address that is of it.
same_family_lem :
    (family : IpFamily) (src a : IpAddr)
    → family ≢ any_family
    → accepts family src ≡ true
    → accepts family a ≡ true
    → same_family (is_ipv4 src) (is_ipv4 a) ≡ true
unfolding accepts
same_family_lem any_family src a one s t = elim (one refl) [ ]
same_family_lem only_v4 src a one s t = rw (s, t) refl
same_family_lem only_v6 (v6 _) (v6 _) one s t = refl
same_family_lem only_v6 (v4 _) a one s t = cc
same_family_lem only_v6 (v6 _) (v4 _) one s t = cc

module _ {Stream : Type 0} (socket : Socket Stream) where
  -- A connection from the source: only the calls on the socket can fail.
  abbrev pub Binds : BindOptions → IpAddr → SocketAddr → Type 0
  Binds opts src addr = connect_one socket addr opts ≡ (
      socket.opened (is_ipv4 addr.ip) >>= (λ _. socket.options_set opts addr >>= (λ _.
        socket.bind (record { ip = src; port = 0 }) >>= (λ _. socket.connect (some src) addr))))

  bound-binds :
      (src : IpAddr) (addr : SocketAddr)
      → same_family (is_ipv4 src) (is_ipv4 addr.ip) ≡ true
      → (bound socket (some src) addr >>= (λ source. socket.connect source addr))
        ≡ (socket.bind (record { ip = src; port = 0 }) >>= (λ _. socket.connect (some src) addr))
  bound-binds src addr same = rw same (go (socket.bind (record { ip = src; port = 0 })))
    where
      go :
          (r : Result Text Bool)
          → (r >>= (λ _. ok (some src)) >>= (λ source. socket.connect source addr))
            ≡ (r >>= (λ _. socket.connect (some src) addr))
      go (err e) = refl
      go (ok _) = refl

  connect_one-Binds :
      (opts : BindOptions) (src : IpAddr) (addr : SocketAddr)
      → opts.source ≡ some src
      → same_family (is_ipv4 src) (is_ipv4 addr.ip) ≡ true
      → Binds opts src addr
  unfolding connect_one
  connect_one-Binds opts src addr e same = rw (e, bound-binds src addr same) refl

  -- Where one family is asked for, and a source is given that is of it, the addresses that a request
  -- dials are at least one, all of the family, and from each the source is bound: no connection is
  -- refused for the family of its source.
  pub call-Binds :
      (lookup_host : Text → ℕ → Result Text (List SocketAddr)) (opts : BindOptions)
      (dst : Destination lookup_host) (src : IpAddr) {addrs : List SocketAddr}
      → opts.family ≢ any_family
      → opts.source ≡ some src
      → accepts opts.family src ≡ true
      → call lookup_host opts dst ≡ ok addrs
      → (is_empty addrs ≡ false)
        × All (λ a. (accepts opts.family a.ip ≡ true) × Binds opts src a) addrs
  unfolding call
  call-Binds lookup_host opts dst src {addrs} one given own called =
      let (some_address, all) =
        subst (Serves opts.family) called (hosted-Serves lookup_host opts dst dst.host) in
      (
        some_address,
        All_imp (Accepted opts.family) (λ a. (accepts opts.family a.ip ≡ true) × Binds opts src a)
            addrs
            (λ a h. (
              h,
              connect_one-Binds opts src a given (same_family_lem opts.family src a.ip one own h),
            ))
            all,
      )
