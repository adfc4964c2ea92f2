-- ===== src/Http/Body/Prefix.antt =====
-- What `body_prefix` of src/http/mod.rs keeps.
use mathlib.Core.List.{append-nil, append_assoc}
use native.Mathlib.Decide.{dec_le}
use speedtest_cli_rust.Base.{
  ℕ, zero, ◌+◌, ◌-◌, ◌≤◌, min, [], ◌∷◌, ◌++◌, ltb, ok, length, take, take_all, take-append,
  take-take, length-append, length-take, ◌≡◌, refl, sym, ◌∙◌, ap, arith, Bool-cases, inl, inr, ◌⊎◌,
}
use speedtest_cli_rust.Base.Text.{Bytes}
use speedtest_cli_rust.Http.Body.{data_frame, trailers, failure, Incoming, prefix_onto, body_prefix}
use speedtest_cli_rust.Http.Body.Laws.{payload, IsWhole}

-- Taking from a frame what is still wanted loses nothing that is wanted.
take_partly : (m : ℕ) (d p : Bytes) → take m (take (min m (length d)) d ++ p) ≡ take m (d ++ p)
take_partly m d p = elim (dec_le m (length d)) [
  | yes h ↦
      let e : min m (length d) ≡ m = omega arith in
      let z : m - length (take m d) ≡ m - length d = omega (arith, length-take m d) in
      rw (e, take-append, z, take-take) (sym (take-append m d p))
  | no h ↦
      let e : min m (length d) ≡ length d = omega arith in
      rw e (rw (take_all (length d) d (omega arith)) refl)
]

take_onto :
    (limit : ℕ) (out d p : Bytes)
    → take limit ((out ++ take (min (limit - length out) (length d)) d) ++ p)
      ≡ take limit (out ++ (d ++ p))
take_onto limit out d p = rw append_assoc (
    take-append limit out _
    ∙ ap (λ z. take limit out ++ z) (take_partly (limit - length out) d p)
    ∙ sym (take-append limit out (d ++ p)))

-- Nothing is read once the limit is reached, not even an error.
prefix_onto_full :
    (limit : ℕ) (out : Bytes) (body : Incoming)
    → length out ≡ limit
    → prefix_onto limit out body ≡ ok out
unfolding prefix_onto
prefix_onto_full limit out [] h = refl
prefix_onto_full limit out (failure e ∷ body) h = ground arith
prefix_onto_full limit out (trailers ∷ body) h = ground arith
prefix_onto_full limit out (data_frame d ∷ body) h = ground arith

full_prefix : (limit : ℕ) (out p : Bytes) → length out ≡ limit → take limit (out ++ p) ≡ out
full_prefix limit out p h =
    let z : limit - length out ≡ zero = omega arith in
    rw (take-append, z, take_all limit out (omega arith)) (append-nil out)

-- What is held once a frame is read.
abbrev grown : ℕ → Bytes → Bytes → Bytes
grown limit out d = out ++ take (min (limit - length out) (length d)) d

length-grown :
    (limit : ℕ) (out d : Bytes)
    → length out ≤ limit
    → (length (grown limit out d) ≤ limit)
      × (length (grown limit out d) ≡ min limit (length out + length d))
length-grown limit out d l =
    let m = min (limit - length out) (length d) in
    (
      omega (arith, length-append out (take m d), length-take m d),
      omega (arith, length-append out (take m d), length-take m d),
    )

wanted :
    (limit : ℕ) (out d p : Bytes) (rest : Incoming)
    → length out ≤ limit
    → (rest ≡ []) ⊎ (limit ≤ length out + length (d ++ p))
    → (rest ≡ []) ⊎ (limit ≤ length (grown limit out d) + length p)
wanted limit out d p rest l (inl e) = inl e
wanted limit out d p rest l (inr h) =
    inr (omega (arith, length-append d p, (length-grown limit out d l).1))

prefix_onto_lem :
    (limit : ℕ) (out : Bytes) (good rest : Incoming)
    → IsWhole good
    → length out ≤ limit
    → (rest ≡ []) ⊎ (limit ≤ length out + length (payload good))
    → prefix_onto limit out (good ++ rest) ≡ ok (take limit (out ++ payload good))
unfolding prefix_onto
prefix_onto_lem limit out [] rest w l (inl e) =
    rw e (ap ok (sym (rw append-nil (take_all limit out l))))
prefix_onto_lem limit out [] rest w l (inr h) =
    prefix_onto_full limit out rest (omega arith)
    ∙ ap ok (sym (full_prefix limit out [] (omega arith)))
prefix_onto_lem limit out (failure e ∷ good) rest w l h = absurd w
prefix_onto_lem limit out (trailers ∷ good) rest w l h =
    elim (Bool-cases (ltb (length out) limit)) [
      | inl more ↦ rw more (prefix_onto_lem limit out good rest w l h)
      | inr full ↦
          prefix_onto_full limit out (trailers ∷ (good ++ rest)) (ground arith)
          ∙ ap ok (sym (full_prefix limit out (payload good) (ground arith)))
    ]
prefix_onto_lem limit out (data_frame d ∷ good) rest w l h =
    elim (Bool-cases (ltb (length out) limit)) [
      | inl more ↦ rw more (
          prefix_onto_lem limit (grown limit out d) good rest w (length-grown limit out d l).0
            (wanted limit out d (payload good) rest l h)
          ∙ ap ok (take_onto limit out d (payload good)))
      | inr full ↦
          prefix_onto_full limit out (data_frame d ∷ (good ++ rest)) (ground arith)
          ∙ ap ok (sym (full_prefix limit out (d ++ payload good) (ground arith)))
    ]

-- The first `limit` bytes are kept. A body is not read past the frame that brings them, so it may
-- break or go on without end behind that frame.
pub body_prefix_lem :
    (good rest : Incoming) (limit : ℕ)
    → IsWhole good
    → (rest ≡ []) ⊎ (limit ≤ length (payload good))
    → body_prefix (good ++ rest) limit ≡ ok (take limit (payload good))
unfolding body_prefix
body_prefix_lem good rest limit w h = prefix_onto_lem limit [] good rest w (omega arith) (ended h)
  where
    ended :
        (rest ≡ []) ⊎ (limit ≤ length (payload good))
        → (rest ≡ []) ⊎ (limit ≤ length {A = ℕ} [] + length (payload good))
    ended (inl e) = inl e
    ended (inr k) = inr (omega arith)
