-- ===== src/Http/Body.antt =====
-- The body readers of src/http/mod.rs: `collect_limited`, `drain_body` and `body_prefix`. A body is
-- the list of what `body.frame().await` gives until it gives `None`; of one without an end it is as much
-- as is read of it.
pub mod Laws
pub mod Prefix
pub mod Stops
use speedtest_cli_rust.Base.{
  ℕ, zero, suc, ◌+◌, ◌-◌, ◌%◌, ◌^◌, ◌≤◌, ◌<◌, min, Bool, true, false, List, [], ◌∷◌, ◌++◌, Option,
  none, some, ltb, if◌then◌else◌, Result, ok, err, length, take,
}
use speedtest_cli_rust.Base.Text.{Text, Bytes}

-- A frame holds data, or trailers, or an error comes in its place.
pub data Frame : Type 0 where
  data_frame : Bytes → Frame
  trailers : Frame
  failure : Text → Frame

abbrev pub Incoming : Type 0
Incoming = List Frame

pub data BodyError : Type 0 where
  broken : Text → BodyError
  exceeds_limit : ℕ → BodyError

-- A wrapping `u64`, as the release build counts.
abbrev pub u64_mod : ℕ
u64_mod = 2 ^ 64

-- `collect_limited`: the loop over the frames, `out` being what is held so far.
unfoldable pub collect_onto : ℕ → Bytes → Incoming → Result BodyError Bytes
collect_onto limit out [] = ok out
collect_onto limit out (failure e ∷ body) = err (broken e)
collect_onto limit out (trailers ∷ body) = collect_onto limit out body
collect_onto limit out (data_frame d ∷ body) =
    let rest = collect_onto limit (out ++ d) body in
    if ltb limit (length out + length d) then err (exceeds_limit limit) else rest

unfoldable pub collect_limited : Incoming → ℕ → Result BodyError Bytes
unfolding collect_onto
collect_limited body limit = collect_onto limit [] body

-- `drain_body`
unfoldable pub drain_from : ℕ → Incoming → Result BodyError ℕ
drain_from n [] = ok n
drain_from n (failure e ∷ body) = err (broken e)
drain_from n (trailers ∷ body) = drain_from n body
drain_from n (data_frame d ∷ body) = drain_from ((n + length d) % u64_mod) body

unfoldable pub drain_body : Incoming → Result BodyError ℕ
unfolding drain_from
drain_body body = drain_from 0 body

-- `body_prefix`: the frames are read while less than `limit` is held.
unfoldable pub prefix_onto : ℕ → Bytes → Incoming → Result BodyError Bytes
prefix_onto limit out [] = ok out
prefix_onto limit out (failure e ∷ body) = if ltb (length out) limit then err (broken e) else ok out
prefix_onto limit out (trailers ∷ body) =
    let rest = prefix_onto limit out body in if ltb (length out) limit then rest else ok out
prefix_onto limit out (data_frame d ∷ body) =
    let rest = prefix_onto limit (out ++ take (min (limit - length out) (length d)) d) body in
    if ltb (length out) limit then rest else ok out

unfoldable pub body_prefix : Incoming → ℕ → Result BodyError Bytes
unfolding prefix_onto
body_prefix body limit = prefix_onto limit [] body
