-- ===== src/Util/Path/Laws.antt =====
-- The theorems on `path_clean` and `path_join` of src/util.rs.
use speedtest_cli_rust.Base.{
  true, List, [], ◌∷◌, ◌++◌, ◌≡◌, ◌≢◌, refl, ◌∙◌, ◌⊎◌, inl, inr, reverse, reverse-cons, All,
  All-reverse,
}
use speedtest_cli_rust.Base.Text.{Text, codes, eq_text, starts_with}
use speedtest_cli_rust.Base.Split.{split, join}
use speedtest_cli_rust.Util.Path.{path_render, path_step, path_clean, path_join}
use speedtest_cli_rust.Util.Path.Steps.{IsPlain, IsCleaned}
use speedtest_cli_rust.Util.Path.Clean.{
  segments, segments-IsCleaned, rendered, pieces, path_clean-rendered, split-rendered,
  starts_with-rendered, path_clean_again,
}

-- Cleaning a cleaned path changes nothing.
path_clean_idem : (p : Text) → path_clean (path_clean p) ≡ path_clean p
path_clean_idem [] = unfold path_clean path_step split join path_render eq_text starts_with in refl
path_clean_idem (c ∷ p) =
    path_clean_again (path_clean (c ∷ p)) (starts_with (c ∷ p) (codes "/")) (segments (c ∷ p))
      (path_clean-rendered c p) (segments-IsCleaned (c ∷ p))

-- An absolute path with nothing to walk through but named entries: the root, or a slash before
-- each of a list of plain segments.
abbrev pub IsRooted : Text → Type 0
IsRooted q =
    (starts_with q (codes "/") ≡ true)
    × ((q ≡ codes "/") ⊎ ((names : List Text) × (split b'/' q ≡ [] ∷ names) × All IsPlain names))

IsCleaned-plain : (out : List Text) → IsCleaned true out → All IsPlain out
IsCleaned-plain [] h = tt
IsCleaned-plain (s ∷ out) (inl (p, h)) = (p, IsCleaned-plain out h)
IsCleaned-plain (s ∷ out) (inr (_, f, _)) = cc f

-- A plain segment in front keeps the list of pieces from being the root's.
reverse-ne-nil : (s : Text) (out : List Text) → reverse (s ∷ out) ≢ []
reverse-ne-nil s out = rw (reverse-cons s out) (not_nil (reverse out))
  where
    not_nil : (xs : List Text) → xs ++ s ∷ [] ≢ []
    not_nil [] = λ e. cc
    not_nil (x ∷ xs) = λ e. cc

pieces_rooted : (ss : List Text) → ss ≢ [] → pieces true ss ≡ [] ∷ ss
unfolding pieces
pieces_rooted [] n = absurd (n refl)
pieces_rooted (x ∷ xs) n = refl

rendered-IsRooted : (out : List Text) → IsCleaned true out → IsRooted (rendered true out)
rendered-IsRooted [] h =
    (starts_with-rendered true [] h, inl (unfold rendered join path_render in refl))
rendered-IsRooted (s ∷ out) h = (
  starts_with-rendered true (s ∷ out) h,
  inr (
    reverse (s ∷ out),
    split-rendered true (s ∷ out) h ∙ pieces_rooted (reverse (s ∷ out)) (reverse-ne-nil s out),
    All-reverse IsPlain (s ∷ out) (IsCleaned-plain (s ∷ out) h),
  ),
)

path_clean-IsRooted : (p : Text) → starts_with p (codes "/") ≡ true → IsRooted (path_clean p)
path_clean-IsRooted [] h = unfold starts_with in cc h
path_clean-IsRooted (c ∷ p) h =
    rw (path_clean-rendered c p)
      (rw h (rendered-IsRooted (segments (c ∷ p)) (rw h at (segments-IsCleaned (c ∷ p)))))

-- Joined to a path that begins with a slash, any text gives a path of named entries under the
-- root: no `..`, no `.`, no empty segment.
pub path_join-IsRooted : (a b : Text) → starts_with a (codes "/") ≡ true → IsRooted (path_join a b)
unfolding path_join
path_join-IsRooted [] b h = unfold starts_with in cc h
path_join-IsRooted (c ∷ a) [] h = path_clean-IsRooted (c ∷ a) h
path_join-IsRooted (c ∷ a) (d ∷ b) h =
    path_clean-IsRooted (c ∷ a ++ (b'/' ∷ d ∷ b)) (unfold starts_with in h)
