-- ===== src/Http/Body/Laws.antt =====
-- What the body readers of src/http/mod.rs return.
use mathlib.Core.List.{append-nil, append_assoc}
use speedtest_cli_rust.Base.{
  ℕ, ◌+◌, ◌%◌, ◌≤◌, ◌<◌, false, [], ◌∷◌, ◌++◌, ltb, if◌then◌else◌, ok, err, length, length-append,
  ◌≡◌, refl, ◌∙◌, ap, subst, arith, Bool-cases, inl, inr,
}
use speedtest_cli_rust.Base.Text.{Bytes}
use speedtest_cli_rust.Http.Body.{
  data_frame, trailers, failure, Incoming, exceeds_limit, u64_mod, collect_onto, collect_limited,
  drain_from, drain_body,
}

-- The bytes of a body.
abbrev pub payload : Incoming → Bytes
payload [] = []
payload (data_frame d ∷ body) = d ++ payload body
payload (trailers ∷ body) = payload body
payload (failure _ ∷ body) = payload body

-- No frame is an error.
abbrev pub IsWhole : Incoming → Type 0
IsWhole [] = Unit
IsWhole (data_frame _ ∷ body) = IsWhole body
IsWhole (trailers ∷ body) = IsWhole body
IsWhole (failure _ ∷ body) = ⊥

collect_onto_fits :
    (limit : ℕ) (out : Bytes) (body : Incoming)
    → IsWhole body
    → length out + length (payload body) ≤ limit
    → collect_onto limit out body ≡ ok (out ++ payload body)
unfolding collect_onto
collect_onto_fits limit out [] w h = rw append-nil refl
collect_onto_fits limit out (trailers ∷ body) w h = collect_onto_fits limit out body w h
collect_onto_fits limit out (failure e ∷ body) w h = absurd w
collect_onto_fits limit out (data_frame d ∷ body) w h =
    let fits : ltb limit (length out + length d) ≡ false =
      ground (arith, length-append d (payload body)) in
    rw fits (
      collect_onto_fits limit (out ++ d) body w
        (omega (arith, length-append d (payload body), length-append out d))
      ∙ ap ok (append_assoc out d (payload body)))

-- The limit is found to be exceeded by the frame that does so, whatever comes behind it.
pub collect_onto_exceeds :
    (limit : ℕ) (out : Bytes) (body rest : Incoming)
    → IsWhole body
    → length out ≤ limit
    → limit < length out + length (payload body)
    → collect_onto limit out (body ++ rest) ≡ err (exceeds_limit limit)
unfolding collect_onto
collect_onto_exceeds limit out [] rest w l h = absurd (omega arith)
collect_onto_exceeds limit out (trailers ∷ body) rest w l h =
    collect_onto_exceeds limit out body rest w l h
collect_onto_exceeds limit out (failure e ∷ body) rest w l h = absurd w
collect_onto_exceeds limit out (data_frame d ∷ body) rest w l h =
    elim (Bool-cases (ltb limit (length out + length d))) [
      | inl over ↦ rw over refl
      | inr fits ↦ rw fits (
          collect_onto_exceeds limit (out ++ d) body rest w (ground (arith, length-append out d))
            (omega (arith, length-append d (payload body), length-append out d)))
    ]

-- A body that arrives whole is returned if it keeps to the limit, and refused if it does not.
pub collect_limited_whole :
    (body : Incoming) (limit : ℕ)
    → IsWhole body
    → collect_limited body limit
      ≡ (if ltb limit (length (payload body)) then err (exceeds_limit limit) else ok (payload body))
unfolding collect_limited
collect_limited_whole body limit w = elim (Bool-cases (ltb limit (length (payload body)))) [
  | inl over ↦ rw over (
      subst (λ b. collect_onto limit [] b ≡ err (exceeds_limit limit)) (append-nil body)
        (collect_onto_exceeds limit [] body [] w (omega arith) (ground arith)))
  | inr fits ↦ rw fits (collect_onto_fits limit [] body w (ground arith))
]

collect_onto_bounded :
    (limit : ℕ) (out : Bytes) (body : Incoming) {b : Bytes}
    → length out ≤ limit
    → collect_onto limit out body ≡ ok b
    → (length b ≤ limit) × IsWhole body
unfolding collect_onto
collect_onto_bounded limit out [] l e = (ground arith, tt)
collect_onto_bounded limit out (trailers ∷ body) l e = collect_onto_bounded limit out body l e
collect_onto_bounded limit out (failure x ∷ body) l e = cc
collect_onto_bounded limit out (data_frame d ∷ body) l e =
    elim (Bool-cases (ltb limit (length out + length d))) [
      | inl over ↦ cc (rw over at e)
      | inr fits ↦
          collect_onto_bounded limit (out ++ d) body (ground (arith, length-append out d))
            (rw fits at e)
    ]

-- What is returned is never longer than the limit, and is the whole of a body with no error in it.
collect_limited_bounded :
    (body : Incoming) (limit : ℕ) (b : Bytes)
    → collect_limited body limit ≡ ok b
    → (length b ≤ limit) × IsWhole body × (b ≡ payload body)
unfolding collect_limited
collect_limited_bounded body limit b e =
    let (l, w) = collect_onto_bounded limit [] body (omega arith) e in
    (l, w, ground (arith, collect_limited_whole body limit w))

drain_from_whole :
    (n : ℕ) (body : Incoming)
    → IsWhole body
    → n < u64_mod
    → drain_from n body ≡ ok ((n + length (payload body)) % u64_mod)
unfolding drain_from
drain_from_whole n [] w h = ap ok (omega arith)
drain_from_whole n (trailers ∷ body) w h = drain_from_whole n body w h
drain_from_whole n (failure e ∷ body) w h = absurd w
drain_from_whole n (data_frame d ∷ body) w h =
    drain_from_whole ((n + length d) % u64_mod) body w (omega arith)
    ∙ ap ok (omega (arith, length-append d (payload body)))

-- A body that arrives whole is counted to the byte, as long as the count fits 64 bits.
drain_body_whole :
    (body : Incoming)
    → IsWhole body
    → length (payload body) < u64_mod
    → drain_body body ≡ ok (length (payload body))
unfolding drain_body
drain_body_whole body w h = drain_from_whole 0 body w (omega arith) ∙ ap ok (omega arith)
