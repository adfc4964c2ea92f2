-- ===== src/Helper/Multipart.antt =====
-- `multipart_form` of src/helper.rs. The body is the text before its UTF-8 encoding; the boundary
-- is the sixty letters that the random generator gives.
pub mod Laws
use speedtest_cli_rust.Base.{List, [], ◌∷◌, ◌++◌}
use speedtest_cli_rust.Base.Text.{Text, codes}

abbrev pub crlf : Text
crlf = 13 ∷ 10 ∷ []

abbrev pub head_of : Text → Text
head_of boundary =
    codes "--" ++ (boundary ++ (crlf ++ codes "Content-Disposition: form-data; name=\""))

abbrev pub after_name : Text
after_name = b'"' ∷ (crlf ++ crlf)

-- The loop over the fields, and the closing line.
unfoldable pub form_body : Text → List (Text × Text) → Text
form_body boundary [] = codes "--" ++ (boundary ++ (codes "--" ++ crlf))
form_body boundary ((name, value) ∷ fields) =
    head_of boundary ++ (name ++ (after_name ++ (value ++ (crlf ++ form_body boundary fields))))

unfoldable pub multipart_form : Text → List (Text × Text) → Text × Text
multipart_form boundary fields =
    (codes "multipart/form-data; boundary=" ++ boundary, form_body boundary fields)
