-- ===== src/Util/Path.antt =====
-- `path_clean` and `path_join` of src/util.rs, Go's `path.Clean` and `path.Join`.
pub mod Steps
pub mod Laws
pub mod Meaning
pub mod Clean
use mathlib.Core.List.{foldl}
use speedtest_cli_rust.Base.{
  ℕ, Bool, true, false, not, ◌||◌, List, [], ◌∷◌, ◌++◌, reverse, is_empty, if◌then◌else◌,
}
use speedtest_cli_rust.Base.Text.{Text, codes, eq_text, starts_with}
use speedtest_cli_rust.Base.Split.{split, join}

abbrev pub dot : Text
dot = codes "."

abbrev pub dotdot : Text
dotdot = codes ".."

-- `..` on the vector `out`, which is kept with its last segment first.
unfoldable pub path_up : Bool → List Text → List Text
path_up rooted [] = if rooted then [] else dotdot ∷ []
path_up rooted (last ∷ rest) =
    if not (eq_text last dotdot) then rest else if rooted then last ∷ rest else dotdot ∷ last ∷ rest

-- One segment of the loop.
unfoldable pub path_step : Bool → List Text → Text → List Text
path_step rooted out seg =
    if is_empty seg || eq_text seg dot
    then out
    else if eq_text seg dotdot
    then path_up rooted out
    else seg ∷ out

-- The text for the cleaned segments.
unfoldable pub path_render : Bool → Text → Text
path_render true [] = codes "/"
path_render true (c ∷ joined) = b'/' ∷ c ∷ joined
path_render false [] = codes "."
path_render false (c ∷ joined) = c ∷ joined

unfoldable pub path_clean : Text → Text
path_clean p =
    if is_empty p
    then codes "."
    else let rooted = starts_with p (codes "/") in
      let out = foldl (path_step rooted) [] (split b'/' p) in
      path_render rooted (join b'/' (reverse out))

unfoldable pub path_join : Text → Text → Text
path_join [] [] = []
path_join [] (c ∷ b) = path_clean (c ∷ b)
path_join (c ∷ a) [] = path_clean (c ∷ a)
path_join (c ∷ a) (d ∷ b) = path_clean (c ∷ a ++ (b'/' ∷ d ∷ b))
