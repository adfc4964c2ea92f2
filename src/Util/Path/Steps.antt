-- ===== src/Util/Path/Steps.antt =====
-- What `path_step` keeps of the vector of segments.
use mathlib.Core.List.{foldl, foldl-append}
use speedtest_cli_rust.Base.{
  Bool, true, false, ◌||◌, List, [], ◌∷◌, ◌≡◌, refl, ◌⊎◌, inl, inr, reverse, reverse-cons, is_empty,
  All, arith, Bool-cases,
}
use speedtest_cli_rust.Base.Text.{Text, eq_text}
use speedtest_cli_rust.Base.Split.{Lacks}
use speedtest_cli_rust.Util.Path.{dot, dotdot, path_up, path_step}

-- A segment that names an entry of a directory.
pub record IsPlain (s : Text) : Type 0 where
  pub not_empty : is_empty s ≡ false
  pub not_dot : eq_text s dot ≡ false
  pub not_dotdot : eq_text s dotdot ≡ false
  pub no_slash : Lacks b'/' s

-- The vector, last segment first: plain segments after any number of leading `..`, and no `..`
-- at all under a root.
abbrev pub IsCleaned : Bool → List Text → Type 0
IsCleaned rooted [] = Unit
IsCleaned rooted (s ∷ out) =
    (IsPlain s × IsCleaned rooted out)
    ⊎ ((s ≡ dotdot) × (rooted ≡ false) × All (λ t. t ≡ dotdot) out)

IsCleaned-dotdots : (out : List Text) → All (λ t. t ≡ dotdot) out → IsCleaned false out
IsCleaned-dotdots [] h = tt
IsCleaned-dotdots (s ∷ out) h = inr (h.0, refl, h.1)

path_up-IsCleaned :
    (rooted : Bool) (out : List Text) → IsCleaned rooted out → IsCleaned rooted (path_up rooted out)
unfolding path_up eq_text
path_up-IsCleaned true [] h = tt
path_up-IsCleaned false [] h = inr (refl, refl, tt)
path_up-IsCleaned rooted (s ∷ out) (inl (p, h)) = rw (p.not_dotdot) h
path_up-IsCleaned rooted (s ∷ out) (inr (e, r, h)) = rw (e, r) (inr (refl, refl, (refl, h)))

pub path_step-IsCleaned :
    (rooted : Bool) (out : List Text) (seg : Text)
    → Lacks b'/' seg
    → IsCleaned rooted out
    → IsCleaned rooted (path_step rooted out seg)
unfolding path_step
path_step-IsCleaned rooted out seg l h = elim (Bool-cases (is_empty seg || eq_text seg dot)) [
  | inl skip ↦ rw skip h
  | inr named ↦ rw named (elim (Bool-cases (eq_text seg dotdot)) [
    | inl up ↦ rw up (path_up-IsCleaned rooted out h)
    | inr down ↦ rw down (
        inl (
          record {
            not_empty = ground arith;
            not_dot = ground arith;
            not_dotdot = down;
            no_slash = l;
          },
          h,
        ))
  ])
]

pub fold-IsCleaned :
    (rooted : Bool) (segs out : List Text)
    → All (Lacks b'/') segs
    → IsCleaned rooted out
    → IsCleaned rooted (foldl (path_step rooted) out segs)
fold-IsCleaned rooted [] out l h = h
fold-IsCleaned rooted (s ∷ segs) out l h =
    fold-IsCleaned rooted segs (path_step rooted out s) l.1 (path_step-IsCleaned rooted out s l.0 h)

-- A cleaned vector takes its own segments one by one.
path_step-plain :
    (rooted : Bool) (out : List Text) (s : Text) → IsPlain s → path_step rooted out s ≡ s ∷ out
unfolding path_step
path_step-plain rooted out s p = rw (p.not_empty, p.not_dot, p.not_dotdot)

path_up-dotdots : (out : List Text) → All (λ t. t ≡ dotdot) out → path_up false out ≡ dotdot ∷ out
unfolding path_up eq_text
path_up-dotdots [] h = refl
path_up-dotdots (s ∷ out) h = rw (h.0) refl

path_step-dotdot :
    (out : List Text) → All (λ t. t ≡ dotdot) out → path_step false out dotdot ≡ dotdot ∷ out
unfolding path_step path_up eq_text
path_step-dotdot out h = path_up-dotdots out h

pub fold-reverse :
    (rooted : Bool) (out : List Text)
    → IsCleaned rooted out
    → foldl (path_step rooted) [] (reverse out) ≡ out
fold-reverse rooted [] h = refl
fold-reverse rooted (s ∷ out) (inl (p, h)) =
    rw (reverse-cons s out, foldl-append)
      (rw (fold-reverse rooted out h) (path_step-plain rooted out s p))
fold-reverse rooted (s ∷ out) (inr (e, r, h)) =
    rw (reverse-cons s out, foldl-append, e, r)
      (rw (fold-reverse false out (IsCleaned-dotdots out h)) (path_step-dotdot out h))
