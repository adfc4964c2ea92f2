-- ===== src/Http/Tls/Pem.antt =====
-- `split_pem` of src/http/tls.rs, which the native-tls backend reads a bundle by. The text of the
-- bundle, from `from_utf8_lossy`, is an argument, and a certificate is the text of its bytes.
use mathlib.Core.List.{append_assoc}
use speedtest_cli_rust.Base.{
  ℕ, zero, suc, ◌<◌, Option, none, some, List, [], ◌∷◌, ◌++◌, length, length-append, ◌≡◌, refl, sym,
  ap, ◌∙◌, arith,
}
use speedtest_cli_rust.Base.Text.{Text, codes}
use speedtest_cli_rust.Base.Find.{find, find-eq-some}

abbrev pub begin : Text
begin = codes "-----BEGIN CERTIFICATE-----"

abbrev pub end : Text
end = codes "-----END CERTIFICATE-----"

-- One piece, and the loop behind it; the last argument is what is found of the end.
abbrev pub closed : (Text → List Text) → Option (Text × Text) → List Text
closed next none = []
closed next (some (body, rest)) = (body ++ end) ∷ next rest

abbrev pub opened : (Text → List Text) → Option (Text × Text) → List Text
opened next none = []
opened next (some (_, after)) = closed next (find end (begin ++ after))

-- The loop, with fuel.
unfoldable pub split_loop : ℕ → Text → List Text
split_loop zero rest = []
split_loop (suc fuel) rest = opened (λ r. split_loop fuel r) (find begin rest)

-- Each piece takes text off.
unfoldable pub split_pem : Text → List Text
unfolding split_loop
split_pem text = split_loop (suc (length text)) text

-- A text with its certificates: each runs from the first opening to the first closing behind it, the
-- next is sought behind that, and where there is no opening, or none that closes, there is no more.
data Splits : Text → List Text → Type 0 where
  no_begin : {t : Text} → find begin t ≡ none → Splits t []
  no_end :
      {t : Text} (before after : Text)
      → find begin t ≡ some (before, after)
      → find end (begin ++ after) ≡ none
      → Splits t []
  piece :
      {t : Text} (before after body rest : Text) {ps : List Text}
      → find begin t ≡ some (before, after)
      → find end (begin ++ after) ≡ some (body, rest)
      → t ≡ before ++ ((body ++ end) ++ rest)
      → Splits rest ps
      → Splits t ((body ++ end) ∷ ps)

pieces_lem :
    (t before after body rest : Text)
    → find begin t ≡ some (before, after)
    → find end (begin ++ after) ≡ some (body, rest)
    → t ≡ before ++ ((body ++ end) ++ rest)
pieces_lem t before after body rest e k =
    find-eq-some begin t e
    ∙ ap (λ u. before ++ u) (find-eq-some end (begin ++ after) k ∙ sym (append_assoc body end rest))

shorter : (before body rest : Text) → length rest < length (before ++ ((body ++ end) ++ rest))
shorter before body rest = omega (
  arith,
  length-append before ((body ++ end) ++ rest),
  length-append (body ++ end) rest,
  length-append body end,
)

split_loop-Splits : (fuel : ℕ) (t : Text) → length t < fuel → Splits t (split_loop fuel t)
unfolding split_loop
split_loop-Splits zero t h = absurd (omega arith)
split_loop-Splits (suc fuel) t h =
    from_begin (find begin t) refl (λ r k. split_loop-Splits fuel r k)
  where
    from_end :
        (before after : Text) (found : Option (Text × Text))
        → find begin t ≡ some (before, after)
        → find end (begin ++ after) ≡ found
        → ((r : Text) → length r < fuel → Splits r (split_loop fuel r))
        → Splits t (closed (λ r. split_loop fuel r) found)
    from_end before after none e k ih = no_end before after e k
    from_end before after (some (body, rest)) e k ih =
        let whole = pieces_lem t before after body rest e k in
        piece before after body rest e k whole
          (ih rest (omega (arith, shorter before body rest, ap length whole, h)))

    from_begin :
        (found : Option (Text × Text))
        → find begin t ≡ found
        → ((r : Text) → length r < fuel → Splits r (split_loop fuel r))
        → Splits t (opened (λ r. split_loop fuel r) found)
    from_begin none e ih = no_begin e
    from_begin (some (before, after)) e ih =
        from_end before after (find end (begin ++ after)) e refl ih

-- The loop runs to its end whatever the bundle has.
split_pem-Splits : (t : Text) → Splits t (split_pem t)
unfolding split_pem
split_pem-Splits t = split_loop-Splits (suc (length t)) t (omega arith)
