-- ===== src/Helper/Multipart/Laws.antt =====
-- What a reader of `multipart/form-data` gets from `multipart_form` of src/helper.rs.
use mathlib.Core.List.{append_assoc}
use speedtest_cli_rust.Base.{
  ℕ, zero, suc, ◌<◌, Option, none, some, List, [], ◌∷◌, ◌++◌, ◌≡◌, refl, sym, ap, ◌∙◌, length, All,
  arith,
}
use speedtest_cli_rust.Base.Text.{Text, codes, strip_prefix, strip_prefix-append}
use speedtest_cli_rust.Base.Find.{find, find-more}
use speedtest_cli_rust.Helper.Multipart.{crlf, after_name, form_body, multipart_form}

-- The line that a reader looks for.
abbrev pub delimiter : Text → Text
delimiter boundary = crlf ++ (codes "--" ++ boundary)

-- The first occurrence of a pattern is at the end.
abbrev pub EndsFirst : Text → Text → Type 0
EndsFirst p s = find p (s ++ p) ≡ some (s, [])

abbrev onto_part : Text × Text → Option (List (Text × Text)) → Option (List (Text × Text))
onto_part part none = none
onto_part part (some parts) = some (part ∷ parts)

abbrev disposition : Text
disposition = crlf ++ codes "Content-Disposition: form-data; name=\""

abbrev valued :
    (Text → Option (List (Text × Text))) → Text → Option (Text × Text) → Option (List (Text × Text))
valued more name none = none
valued more name (some (value, rest)) = onto_part (name, value) (more rest)

abbrev named :
    (Text → Option (List (Text × Text))) → Text → Option (Text × Text) → Option (List (Text × Text))
named more boundary none = none
named more boundary (some (name, rest)) = valued more name (find (delimiter boundary) rest)

abbrev closed : Option Text → Option (List (Text × Text))
closed none = none
closed (some rest) = some []

-- A part's name and value, or the closing `--`.
abbrev part_or_end :
    (Text → Option (List (Text × Text))) → Text → Text → Option Text → Option (List (Text × Text))
part_or_end more boundary s none = closed (strip_prefix s (codes "--"))
part_or_end more boundary s (some rest) = named more boundary (find after_name rest)

-- A reader of the parts behind a delimiter; each round takes one part.
unfoldable pub parts : ℕ → Text → Text → Option (List (Text × Text))
parts zero boundary s = none
parts (suc fuel) boundary s =
    part_or_end (parts fuel boundary) boundary s (strip_prefix s disposition)

abbrev pub behind_first : ℕ → Text → Option Text → Option (List (Text × Text))
behind_first fuel boundary none = none
behind_first fuel boundary (some rest) = parts fuel boundary rest

-- A reader of a form's body: it starts with the delimiter's line.
unfoldable pub read_form : ℕ → Text → Text → Option (List (Text × Text))
read_form fuel boundary body =
    behind_first fuel boundary (strip_prefix body (codes "--" ++ boundary))

-- What is behind the delimiter of a body.
abbrev tail_of : Text → List (Text × Text) → Text
tail_of boundary [] = codes "--" ++ crlf
tail_of boundary ((name, value) ∷ fields) =
    disposition ++ (name ++ (after_name ++ (value ++ (crlf ++ form_body boundary fields))))

form_body-tail :
    (boundary : Text) (fields : List (Text × Text))
    → form_body boundary fields ≡ (codes "--" ++ boundary) ++ tail_of boundary fields
unfolding form_body
form_body-tail boundary [] = refl
form_body-tail boundary ((name, value) ∷ fields) =
    ap (λ s. codes "--" ++ s)
      (append_assoc boundary disposition
        (name ++ (after_name ++ (value ++ (crlf ++ form_body boundary fields)))))

-- A field that the reader can take apart: the first quote behind its name ends the name, and the
-- first delimiter behind its value ends the value.
abbrev pub IsSeparable : Text → Text × Text → Type 0
IsSeparable boundary (name, value) =
    EndsFirst after_name name × EndsFirst (delimiter boundary) value

found_at : (p s t : Text) → EndsFirst p s → find p (s ++ (p ++ t)) ≡ some (s, t)
found_at p s t h = ap (find p) (sym (append_assoc s p t)) ∙ find-more p (s ++ p) t h

one_part :
    (fuel : ℕ) (boundary name value : Text) (fields : List (Text × Text))
    → EndsFirst after_name name
    → EndsFirst (delimiter boundary) value
    → parts fuel boundary (tail_of boundary fields) ≡ some fields
    → parts (suc fuel) boundary (tail_of boundary ((name, value) ∷ fields))
      ≡ some ((name, value) ∷ fields)
unfolding parts
one_part fuel boundary name value fields n v ih =
    rw
      (
        strip_prefix-append disposition
            (name ++ (after_name ++ (value ++ (crlf ++ form_body boundary fields)))),
        found_at after_name name (value ++ (crlf ++ form_body boundary fields)) n,
        form_body-tail boundary fields,
        found_at (delimiter boundary) value (tail_of boundary fields) v,
        ih,
      )
      refl

parts_lem :
    (boundary : Text) (fields : List (Text × Text)) (fuel : ℕ)
    → All (IsSeparable boundary) fields
    → length fields < fuel
    → parts fuel boundary (tail_of boundary fields) ≡ some fields
parts_lem boundary fields zero h k = absurd (omega arith)
parts_lem boundary [] (suc fuel) h k = unfold parts strip_prefix in refl
parts_lem boundary ((name, value) ∷ fields) (suc fuel) h k =
    one_part fuel boundary name value fields h.0.0 h.0.1
      (parts_lem boundary fields fuel h.1 (omega arith))

-- The body that is posted is read as exactly the fields that were put in it, in their order, by a
-- reader that has a round for each and for the end, where the delimiter does not occur in a value
-- and a quote does not end a name early.
pub multipart_form_lem :
    (boundary : Text) (fields : List (Text × Text))
    → All (IsSeparable boundary) fields
    → read_form (suc (length fields)) boundary (multipart_form boundary fields).1 ≡ some fields
unfolding multipart_form read_form
multipart_form_lem boundary fields h =
    rw
      (
        form_body-tail boundary fields,
        strip_prefix-append (codes "--" ++ boundary) (tail_of boundary fields),
      )
      (parts_lem boundary fields (suc (length fields)) h (omega arith))
