-- ===== src/Http/Body/Stops.antt =====
-- How far the body readers of src/http/mod.rs read.
use mathlib.Core.List.{append-nil}
use speedtest_cli_rust.Base.{
  ℕ, ◌≤◌, ◌<◌, true, [], ◌++◌, ltb, if◌then◌else◌, ok, err, length, take, ◌≡◌, ◌⊎◌, inl, inr, arith,
}
use speedtest_cli_rust.Http.Body.{Incoming, exceeds_limit, collect_limited, body_prefix}
use speedtest_cli_rust.Http.Body.Laws.{
  payload, IsWhole, collect_onto_exceeds, collect_limited_whole,
}
use speedtest_cli_rust.Http.Body.Prefix.{body_prefix_lem}

-- The frames are all of the body, or bring more than the limit.
abbrev pub Settles : Incoming → Incoming → ℕ → Type 0
Settles good rest limit = (rest ≡ []) ⊎ (limit < length (payload good))

collect_limited-stops :
    (good rest : Incoming) (limit : ℕ)
    → IsWhole good
    → Settles good rest limit
    → collect_limited (good ++ rest) limit
      ≡ (if ltb limit (length (payload good)) then err (exceeds_limit limit) else ok (payload good))
collect_limited-stops good rest limit w (inl e) =
    rw (e, append-nil good) (collect_limited_whole good limit w)
collect_limited-stops good rest limit w (inr h) =
    let over : ltb limit (length (payload good)) ≡ true = ground arith in
    rw over (
      unfold collect_limited in
      collect_onto_exceeds limit [] good rest w (omega arith) (omega arith))

-- What a reader gives is settled by the frames that arrive well, as soon as they bring more than the
-- limit, whatever comes behind them: the body may break there, or go on. `collect_limited` refuses it
-- then, and `body_prefix` keeps what fits the limit. Of a body that ends with those frames, and keeps
-- to the limit, both give the whole.
pub readers-Stop :
    (good rest : Incoming) (limit : ℕ)
    → IsWhole good
    → Settles good rest limit
    → (collect_limited (good ++ rest) limit ≡ (
        if ltb limit (length (payload good)) then err (exceeds_limit limit) else ok (payload good)))
      × (body_prefix (good ++ rest) limit ≡ ok (take limit (payload good)))
readers-Stop good rest limit w h =
    (collect_limited-stops good rest limit w h, body_prefix_lem good rest limit w (enough h))
  where
    enough : Settles good rest limit → (rest ≡ []) ⊎ (limit ≤ length (payload good))
    enough (inl e) = inl e
    enough (inr k) = inr (omega arith)
