-- ===== src/Speedtest/Telemetry/Laws.antt =====
-- What telemetry settings a run of src/speedtest.rs ends up with.
use speedtest_cli_rust.Base.{
  ◌≤◌, Bool, true, false, ◌||◌, Option, none, some, [], ◌∷◌, ◌≡◌, refl, sym, ◌∙◌, ap, subst, ◌⊎◌,
  inl, inr, is_empty, Bool-cases, Result, ok, err, arith,
}
use speedtest_cli_rust.Base.Text.{Text, Bytes, eq_text}
use speedtest_cli_rust.Defs.Telemetry.{TelemetryServer, default, levels, level_basic, get_level}
use speedtest_cli_rust.Speedtest.Files.{FileSystem}
use speedtest_cli_rust.Speedtest.Telemetry.{
  Options, Failure, any_telemetry_option, apply_default, among, apply_level, apply_defaults,
  defaulted, after_load, default_server, default_path, default_share, load, resolve_telemetry,
}

-- A setting: the option of the command line, or else what the file has, or else the default.
abbrev pub setting : Option Text → Text → Text → Text
setting (some v) file value = v
setting none [] value = value
setting none (c ∷ file) value = c ∷ file

apply_default_lem :
    (field : Text) (flag : Option Text) (d : Text)
    → apply_default field flag d ≡ setting flag field d
unfolding apply_default
apply_default_lem field (some v) d = refl
apply_default_lem [] none d = refl
apply_default_lem (c ∷ field) none d = refl

abbrev pub settings : Options → TelemetryServer → TelemetryServer
settings o file = record {
  level = setting o.telemetry_level file.level level_basic;
  server = setting o.telemetry_server file.server default_server;
  path = setting o.telemetry_path file.path default_path;
  share = setting o.telemetry_share file.share default_share;
}

-- A level of the command line is one of the four.
abbrev pub IsSupported : Option Text → Type 0
IsSupported none = Unit
IsSupported (some level) = among levels level ≡ true

-- `--share` is given, or `--telemetry-json`, `--telemetry-level`, `--telemetry-server`,
-- `--telemetry-path` or `--telemetry-share`.
pub data Asked (o : Options) : Type 0 where
  by_share : o.share ≡ true → Asked o
  by_json : (path : Text) → o.telemetry_json ≡ some path → Asked o
  by_level : (level : Text) → o.telemetry_level ≡ some level → Asked o
  by_server : (server : Text) → o.telemetry_server ≡ some server → Asked o
  by_path : (path : Text) → o.telemetry_path ≡ some path → Asked o
  by_share_path : (path : Text) → o.telemetry_share ≡ some path → Asked o

-- None of the six is given.
pub record IsUnasked (o : Options) : Type 0 where
  pub no_share : o.share ≡ false
  pub no_json : o.telemetry_json ≡ none
  pub no_level : o.telemetry_level ≡ none
  pub no_server : o.telemetry_server ≡ none
  pub no_path : o.telemetry_path ≡ none
  pub no_share_path : o.telemetry_share ≡ none

-- The code's test.
abbrev asked : Options → Bool
asked o = o.share || any_telemetry_option o

option-cases : (t : Option Text) → (t ≡ none) ⊎ ((v : Text) × (t ≡ some v))
option-cases none = inl refl
option-cases (some v) = inr (v, refl)

-- The test is true exactly where one of the six is given.
asked-cases : (o : Options) → ((asked o ≡ true) × Asked o) ⊎ ((asked o ≡ false) × IsUnasked o)
unfolding any_telemetry_option
asked-cases o = elim (Bool-cases o.share) [
  | inl a ↦ inl (ground arith, by_share a)
  | inr a ↦ elim (option-cases o.telemetry_json) [
    | inr (v, b) ↦ inl (rw (a, b) refl, by_json v b)
    | inl b ↦ elim (option-cases o.telemetry_level) [
      | inr (v, d) ↦ inl (rw (a, b, d) refl, by_level v d)
      | inl d ↦ elim (option-cases o.telemetry_server) [
        | inr (v, e) ↦ inl (rw (a, b, d, e) refl, by_server v e)
        | inl e ↦ elim (option-cases o.telemetry_path) [
          | inr (v, f) ↦ inl (rw (a, b, d, e, f) refl, by_path v f)
          | inl f ↦ elim (option-cases o.telemetry_share) [
            | inr (v, g) ↦ inl (rw (a, b, d, e, f, g) refl, by_share_path v g)
            | inl g ↦ inr (
              rw (a, b, d, e, f, g) refl,
              record {
                no_share = a;
                no_json = b;
                no_level = d;
                no_server = e;
                no_path = f;
                no_share_path = g;
              },
            )
          ]
        ]
      ]
    ]
  ]
]

abbrev NoneAsked : Options → TelemetryServer → Type 0
NoneAsked o t = IsUnasked o × (t ≡ default)

-- The settings of a run come to nothing, or from its options and its file.
abbrev pub Settles : Options → Result Failure TelemetryServer → TelemetryServer → Type 0
Settles o loaded t =
    NoneAsked o t
    ⊎ (Asked o
        × (file : TelemetryServer) × (loaded ≡ ok file)
        × IsSupported o.telemetry_level
        × (t ≡ settings o file))

is_empty-cases :
    (l : Text)
    → ((is_empty l ≡ true) × (setting none l level_basic ≡ level_basic))
      ⊎ ((is_empty l ≡ false) × (setting none l level_basic ≡ l))
is_empty-cases [] = inl (refl, refl)
is_empty-cases (c ∷ l) = inr (refl, refl)

apply_level_lem :
    (t : TelemetryServer) (flag : Option Text) {t' : TelemetryServer}
    → apply_level t flag ≡ ok t'
    → IsSupported flag × (t' ≡ record t { level = setting flag t.level level_basic })
unfolding apply_level
apply_level_lem t (some level) {t'} e = elim (Bool-cases (among levels level)) [
  | inl h ↦ (h, cc)
  | inr h ↦ cc
]
apply_level_lem t none {t'} e = elim (is_empty-cases t.level) [
  | inl h ↦ (tt, cc)
  | inr (n, s) ↦ (tt, cc)
]

defaulted_lem :
    (o : Options) (file : TelemetryServer)
    → defaulted o (record file { level = setting o.telemetry_level file.level level_basic })
      ≡ settings o file
defaulted_lem o file =
    rw
      (
        apply_default_lem file.server o.telemetry_server default_server,
        apply_default_lem file.path o.telemetry_path default_path,
        apply_default_lem file.share o.telemetry_share default_share,
      )
      refl

after_load_lem :
    (o : Options) (loaded : Result Failure TelemetryServer) {t : TelemetryServer}
    → Asked o
    → after_load o loaded ≡ ok t
    → Settles o loaded t
after_load_lem o (err e) a h = cc
after_load_lem o (ok file) {t} a h = go (apply_level file o.telemetry_level) refl h
  where
    go :
        (r : Result Failure TelemetryServer)
        → apply_level file o.telemetry_level ≡ r
        → apply_defaults o r ≡ ok t
        → Settles o (ok file) t
    go (err e) q k = cc
    go (ok leveled) q k =
        let (supported, e) = apply_level_lem file o.telemetry_level q in
        let d : defaulted o leveled ≡ t = cc in
        inr (a, file, refl, supported, sym d ∙ (ap (defaulted o) e ∙ defaulted_lem o file))

silent : {t : TelemetryServer} → t ≡ default → 1 ≤ get_level t → ⊥
unfolding get_level eq_text
silent e l = zero_level (subst (λ s. 1 ≤ get_level s) e l)
  where
    zero_level : 1 ≤ get_level default → ⊥
    zero_level k = omega arith

module _ (fs : FileSystem) (from_slice : Bytes → Result Text TelemetryServer) where
  resolved :
      (o : Options) {r : Result Failure TelemetryServer}
      → asked o ≡ true
      → resolve_telemetry fs from_slice o ≡ r
      → after_load o (load fs from_slice o.telemetry_json) ≡ r
  unfolding resolve_telemetry
  resolved o a h = ground arith

  unasked :
      (o : Options) {t : TelemetryServer}
      → asked o ≡ false
      → resolve_telemetry fs from_slice o ≡ ok t
      → default ≡ t
  unfolding resolve_telemetry
  unasked o a h = ground arith

  -- The settings of a run that gets any: those of no telemetry at all where neither `--share` nor one of
  -- the five telemetry options is given; and otherwise, for each setting, the option of the command
  -- line, or, where there is none, what the file of `--telemetry-json` has, or the default, with a level
  -- of the command line that is supported. The help text of `--telemetry-json` says that the file
  -- overrides the options; it does not.
  pub resolve_telemetry-Settles :
      (o : Options) {t : TelemetryServer}
      → resolve_telemetry fs from_slice o ≡ ok t
      → Settles o (load fs from_slice o.telemetry_json) t
  resolve_telemetry-Settles o {t} h = elim (asked-cases o) [
    | inl (a, given) ↦ after_load_lem o (load fs from_slice o.telemetry_json) given (resolved o a h)
    | inr (a, none_given) ↦ inl (none_given, sym (unasked o a h))
  ]

  -- A run sends no telemetry that was not asked for: a level over 0 comes from `--share` or from one
  -- of `--telemetry-json`, `--telemetry-level`, `--telemetry-server`, `--telemetry-path` and
  -- `--telemetry-share`.
  pub resolve_telemetry-Asked :
      (o : Options) {t : TelemetryServer}
      → resolve_telemetry fs from_slice o ≡ ok t
      → 1 ≤ get_level t
      → Asked o
  resolve_telemetry-Asked o {t} h l = elim (resolve_telemetry-Settles o h) [
    | inl (a, d) ↦ absurd (silent d l)
    | inr (a, _, _, _, _) ↦ a
  ]
