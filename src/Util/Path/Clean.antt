-- ===== src/Util/Path/Clean.antt =====
-- The form of a cleaned path, from its segments: src/util.rs, `path_clean` and `path_join`.
use mathlib.Core.List.{foldl}
use speedtest_cli_rust.Base.{
  ℕ, ◌==◌, Bool, true, false, List, [], ◌∷◌, ◌++◌, ◌≡◌, ◌≢◌, refl, sym, ◌∙◌, ap, inl, inr, reverse,
  if◌then◌else◌, All, All-reverse,
}
use speedtest_cli_rust.Base.Text.{Text, codes, eq_text, starts_with}
use speedtest_cli_rust.Base.Split.{Lacks, split, join, split-All, split-join, split-append-cons}
use speedtest_cli_rust.Util.Path.{dot, dotdot, path_render, path_step, path_clean}
use speedtest_cli_rust.Util.Path.Steps.{IsPlain, IsCleaned, fold-IsCleaned, fold-reverse}

-- The vector that the loop leaves for a path.
unfoldable pub segments : Text → List Text
segments p = foldl (path_step (starts_with p (codes "/"))) [] (split b'/' p)

pub segments-IsCleaned : (p : Text) → IsCleaned (starts_with p (codes "/")) (segments p)
unfolding segments
segments-IsCleaned p =
    fold-IsCleaned (starts_with p (codes "/")) (split b'/' p) [] (split-All b'/' p) tt

-- What `path_render` gives when it is split again.
unfoldable pub pieces : Bool → List Text → List Text
pieces true [] = [] ∷ [] ∷ []
pieces true (s ∷ ss) = [] ∷ s ∷ ss
pieces false [] = dot ∷ []
pieces false (s ∷ ss) = s ∷ ss

unfoldable pub rendered : Bool → List Text → Text
rendered rooted out = path_render rooted (join b'/' (reverse out))

pub path_clean-rendered :
    (c : ℕ) (p : Text)
    → path_clean (c ∷ p) ≡ rendered (starts_with (c ∷ p) (codes "/")) (segments (c ∷ p))
unfolding path_clean rendered segments
path_clean-rendered c p = refl

-- Every segment can be told from the slashes around it, and is not empty.
abbrev IsSegment : Text → Type 0
IsSegment s = (s ≢ []) × Lacks b'/' s

IsPlain-IsSegment : (s : Text) → IsPlain s → IsSegment s
IsPlain-IsSegment [] p = cc (p.not_empty)
IsPlain-IsSegment (c ∷ s) p = (λ e. cc, p.no_slash)

dotdots-IsSegment : (out : List Text) → All (λ t. t ≡ dotdot) out → All IsSegment out
dotdots-IsSegment [] h = tt
dotdots-IsSegment (s ∷ out) h = (rw (h.0) (λ e. cc, (refl, (refl, tt))), dotdots-IsSegment out h.1)

pub IsCleaned-IsSegment : (r : Bool) (out : List Text) → IsCleaned r out → All IsSegment out
IsCleaned-IsSegment r [] h = tt
IsCleaned-IsSegment r (s ∷ out) (inl (p, h)) = (IsPlain-IsSegment s p, IsCleaned-IsSegment r out h)
IsCleaned-IsSegment r (s ∷ out) (inr (e, _, h)) = dotdots-IsSegment (s ∷ out) (e, h)

IsSegment-Lacks : (ss : List Text) → All IsSegment ss → All (Lacks b'/') ss
IsSegment-Lacks [] h = tt
IsSegment-Lacks (s ∷ ss) h = (h.0.1, IsSegment-Lacks ss h.1)

-- The first character of joined segments.
joined_head :
    (s : Text) (ss : List Text)
    → IsSegment s
    → (c : ℕ) × (rest : Text) × (join b'/' (s ∷ ss) ≡ c ∷ rest) × ((c == b'/') ≡ false)
unfolding join
joined_head [] ss h = absurd (h.0 refl)
joined_head (c ∷ s) [] h = (c, s, refl, h.1.0)
joined_head (c ∷ s) (t ∷ ss) h = (c, s ++ (b'/' ∷ join b'/' (t ∷ ss)), refl, h.1.0)

path_render_joined :
    (r : Bool) (s : Text) (ss : List Text)
    → IsSegment s
    → path_render r (join b'/' (s ∷ ss))
      ≡ (if r then b'/' ∷ join b'/' (s ∷ ss) else join b'/' (s ∷ ss))
unfolding path_render
path_render_joined true s ss h = let (c, rest, e, _) = joined_head s ss h in rw e refl
path_render_joined false s ss h = let (c, rest, e, _) = joined_head s ss h in rw e refl

split-path_render :
    (r : Bool) (ss : List Text)
    → All IsSegment ss
    → split b'/' (path_render r (join b'/' ss)) ≡ pieces r ss
unfolding pieces
split-path_render true [] h = unfold path_render join split in refl
split-path_render false [] h = unfold path_render join split in refl
split-path_render true (s ∷ ss) h =
    ap (split b'/') (path_render_joined true s ss h.0)
    ∙ split-append-cons b'/' [] (join b'/' (s ∷ ss)) tt
    ∙ ap (◌∷◌ []) (split-join b'/' s ss (IsSegment-Lacks (s ∷ ss) h))
split-path_render false (s ∷ ss) h =
    ap (split b'/') (path_render_joined false s ss h.0)
    ∙ split-join b'/' s ss (IsSegment-Lacks (s ∷ ss) h)

starts_with-path_render :
    (r : Bool) (ss : List Text)
    → All IsSegment ss
    → starts_with (path_render r (join b'/' ss)) (codes "/") ≡ r
unfolding starts_with
starts_with-path_render true [] h = unfold path_render join in refl
starts_with-path_render false [] h = unfold path_render join in refl
starts_with-path_render true (s ∷ ss) h = rw (path_render_joined true s ss h.0) refl
starts_with-path_render false (s ∷ ss) h =
    let (c, rest, e, slash) = joined_head s ss h.0 in
    rw (path_render_joined false s ss h.0) (rw e (rw slash refl))

module _ (r : Bool) (out : List Text) (h : IsCleaned r out) where
  segs : All IsSegment (reverse out)
  segs = All-reverse IsSegment out (IsCleaned-IsSegment r out h)

  pub split-rendered : split b'/' (rendered r out) ≡ pieces r (reverse out)
  unfolding rendered
  split-rendered = split-path_render r (reverse out) segs

  pub starts_with-rendered : starts_with (rendered r out) (codes "/") ≡ r
  unfolding rendered
  starts_with-rendered = starts_with-path_render r (reverse out) segs

-- The extra pieces of a root or a lone dot are skipped.
pub fold-pieces :
    (r q : Bool) (ss : List Text) → foldl (path_step q) [] (pieces r ss) ≡ foldl (path_step q) [] ss
unfolding pieces path_step eq_text
fold-pieces true q [] = refl
fold-pieces true q (s ∷ ss) = refl
fold-pieces false q [] = refl
fold-pieces false q (s ∷ ss) = refl

pub segments-rendered :
    (r : Bool) (out : List Text) → IsCleaned r out → segments (rendered r out) ≡ out
unfolding segments
segments-rendered r out h =
    rw (starts_with-rendered r out h, split-rendered r out h)
      (fold-pieces r r (reverse out) ∙ fold-reverse r out h)

path_render-ne-nil : (q : Bool) (j : Text) → path_render q j ≢ []
unfolding path_render
path_render-ne-nil true [] = λ e. cc
path_render-ne-nil true (c ∷ j) = λ e. cc
path_render-ne-nil false [] = λ e. cc
path_render-ne-nil false (c ∷ j) = λ e. cc

rendered-ne-nil : (q : Bool) (out : List Text) → rendered q out ≢ []
unfolding rendered
rendered-ne-nil q out = path_render-ne-nil q (join b'/' (reverse out))

pub path_clean_again :
    (p : Text) (r : Bool) (out : List Text)
    → p ≡ rendered r out
    → IsCleaned r out
    → path_clean p ≡ p
path_clean_again [] r out e h = absurd (rendered-ne-nil r out (sym e))
path_clean_again (c ∷ p) r out e h =
    path_clean-rendered c p
    ∙ rw e (rw (starts_with-rendered r out h, segments-rendered r out h) refl)
