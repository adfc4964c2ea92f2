-- ===== src/Tests/Bodies.antt =====
-- Bodies of a few frames: src/http/mod.rs.
use speedtest_cli_rust.Base.{[], ◌∷◌, ◌++◌, ◌≡◌, refl, ok, err, inr, arith}
use speedtest_cli_rust.Base.Text.{Bytes}
use speedtest_cli_rust.Http.Body.{
  Incoming, data_frame, trailers, failure, exceeds_limit, collect_limited, collect_onto,
  body_prefix,
}
use speedtest_cli_rust.Http.Body.Stops.{readers-Stop}

abbrev one_to_three : Bytes
one_to_three = 1 ∷ 2 ∷ 3 ∷ []

abbrev two_frames : Incoming
two_frames = data_frame (1 ∷ 2 ∷ []) ∷ trailers ∷ data_frame (3 ∷ []) ∷ []

collected : collect_limited two_frames 3 ≡ ok (1 ∷ 2 ∷ 3 ∷ [])
unfolding collect_limited collect_onto
collected = refl

-- A limit of two bytes, passed by the third, with an error behind it.
readers-Stop_example :
    (collect_limited (two_frames ++ failure [] ∷ []) 2 ≡ err (exceeds_limit 2))
    × (body_prefix (two_frames ++ failure [] ∷ []) 2 ≡ ok (1 ∷ 2 ∷ []))
readers-Stop_example = readers-Stop two_frames (failure [] ∷ []) 2 tt (inr (omega arith))
