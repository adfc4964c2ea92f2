-- ===== src/Util/Path/Meaning.antt =====
-- What a path means to whoever walks it, and that `path_clean` of src/util.rs keeps it.
use mathlib.Core.List.{foldl, foldl-append}
use speedtest_cli_rust.Base.{
  Bool, true, false, ◌||◌, List, [], ◌∷◌, ◌≡◌, refl, sym, ◌∙◌, ap, inl, inr, reverse, reverse-cons,
  is_empty, if◌then◌else◌, All, Bool-cases,
}
use speedtest_cli_rust.Base.Text.{Text, codes, eq_text, eq_text_iff, starts_with}
use speedtest_cli_rust.Base.Split.{Lacks, split, split-All}
use speedtest_cli_rust.Util.Path.{dot, dotdot, path_up, path_step, path_clean}
use speedtest_cli_rust.Util.Path.Steps.{IsPlain, IsCleaned, path_step-IsCleaned}
use speedtest_cli_rust.Util.Path.Clean.{
  segments, segments-IsCleaned, rendered, pieces, path_clean-rendered, split-rendered,
  starts_with-rendered,
}

-- The directory above, the root being above itself. A location is the list of the names on the
-- way to it, innermost first.
abbrev pub parent : List Text → List Text
parent [] = []
parent (_ ∷ at) = at

-- One segment, walked from a location.
unfoldable pub walk : List Text → Text → List Text
walk at seg =
    if is_empty seg || eq_text seg dot
    then at
    else if eq_text seg dotdot
    then parent at
    else seg ∷ at

-- Where a path leads from the location `cwd`.
unfoldable pub resolve : Text → List Text → List Text
resolve p cwd = foldl walk (if starts_with p (codes "/") then [] else cwd) (split b'/' p)

-- Where the vector of segments leads.
abbrev lead : List Text → List Text → List Text
lead from out = foldl walk from (reverse out)

lead-cons :
    (from : List Text) (s : Text) (out : List Text) → lead from (s ∷ out) ≡ walk (lead from out) s
lead-cons from s out = rw (reverse-cons s out, foldl-append) refl

walk-plain : (at : List Text) (s : Text) → IsPlain s → walk at s ≡ s ∷ at
unfolding walk
walk-plain at s p = rw (p.not_empty, p.not_dot, p.not_dotdot)

walk-dotdot : (at : List Text) → walk at dotdot ≡ parent at
unfolding walk eq_text
walk-dotdot at = refl

module _ (rooted : Bool) (from : List Text) (h : rooted ≡ true → from ≡ []) where
  lead-path_up :
      (out : List Text)
      → IsCleaned rooted out
      → lead from (path_up rooted out) ≡ parent (lead from out)
  unfolding path_up
  lead-path_up [] c = elim (Bool-cases rooted) [
    | inl r ↦ rw (h r) (rw r refl)
    | inr r ↦ rw r (lead-cons from dotdot [] ∙ walk-dotdot from)
  ]
  lead-path_up (s ∷ out) (inl (p, c)) =
      rw (p.not_dotdot) (sym (ap parent (lead-cons from s out ∙ walk-plain (lead from out) s p)))
  lead-path_up (s ∷ out) (inr (e, r, c)) =
      rw ((eq_text_iff s dotdot).1 e, r)
        (lead-cons from dotdot (s ∷ out) ∙ walk-dotdot (lead from (s ∷ out)))

  lead-path_step :
      (out : List Text) (seg : Text)
      → IsCleaned rooted out
      → lead from (path_step rooted out seg) ≡ walk (lead from out) seg
  unfolding path_step walk
  lead-path_step out seg c = elim (Bool-cases (is_empty seg || eq_text seg dot)) [
    | inl skip ↦ rw skip refl
    | inr named ↦ rw named (elim (Bool-cases (eq_text seg dotdot)) [
      | inl up ↦ rw up (lead-path_up out c)
      | inr down ↦ rw down (lead-cons from seg out ∙ rw (named, walk) (rw (down) refl))
    ])
  ]

  lead-fold :
      (segs out : List Text)
      → All (Lacks b'/') segs
      → IsCleaned rooted out
      → lead from (foldl (path_step rooted) out segs) ≡ foldl walk (lead from out) segs
  lead-fold [] out l c = refl
  lead-fold (s ∷ segs) out l c =
      lead-fold segs (path_step rooted out s) l.1 (path_step-IsCleaned rooted out s l.0 c)
      ∙ ap (λ a. foldl walk a segs) (lead-path_step out s c)

lead-pieces :
    (r : Bool) (from : List Text) (ss : List Text)
    → foldl walk from (pieces r ss) ≡ foldl walk from ss
unfolding pieces walk eq_text
lead-pieces true from [] = refl
lead-pieces true from (s ∷ ss) = refl
lead-pieces false from [] = refl
lead-pieces false from (s ∷ ss) = refl

-- The location that a walk starts from.
abbrev start : Bool → List Text → List Text
start rooted cwd = if rooted then [] else cwd

start_rooted : (r : Bool) (cwd : List Text) → r ≡ true → start r cwd ≡ []
start_rooted r cwd e = rw e refl

resolve-rendered :
    (r : Bool) (out cwd : List Text)
    → IsCleaned r out
    → resolve (rendered r out) cwd ≡ lead (start r cwd) out
unfolding resolve
resolve-rendered r out cwd c =
    rw (starts_with-rendered r out c, split-rendered r out c)
      (lead-pieces r (start r cwd) (reverse out))

-- A cleaned path leads wherever the path it was made from leads, from every location.
pub resolve-path_clean : (p : Text) (cwd : List Text) → resolve (path_clean p) cwd ≡ resolve p cwd
resolve-path_clean [] cwd = unfold resolve path_clean starts_with split walk eq_text in refl
resolve-path_clean (c ∷ p) cwd =
    let r = starts_with (c ∷ p) (codes "/") in
    rw (path_clean-rendered c p) (
      resolve-rendered r (segments (c ∷ p)) cwd (segments-IsCleaned (c ∷ p))
      ∙ unfold segments resolve in
        lead-fold r (start r cwd) (start_rooted r cwd) (split b'/' (c ∷ p)) []
          (split-All b'/' (c ∷ p)) tt)
