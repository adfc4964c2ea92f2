-- ===== src/Defs/Upload/Laws.antt =====
-- What an upload request sends: `UploadBody` of src/defs/server.rs.
use native.Mathlib.Decide.{dec_le}
use speedtest_cli_rust.Base.{
  ℕ, zero, suc, ◌+◌, ◌-◌, ◌*◌, ◌%◌, ◌≤◌, ◌<◌, min, true, false, Option, none, some, List, [], ◌∷◌,
  ◌++◌, leb, length, drop, take-append-drop, length-take, length-drop, All, ◌≡◌, refl, sym, ◌∙◌, ap,
  arith,
}
use speedtest_cli_rust.Base.Text.{Bytes}
use speedtest_cli_rust.Defs.Counter.{BytesCounter, add, u64_mod}
use speedtest_cli_rust.Defs.Upload.{upload_chunk, UploadBody, new, size_hint, slice, poll_frame}

-- hyper polls a body until it gives no frame; with fuel, and `none` if the fuel runs out.
pub record Drained : Type 0 where
  pub frames : List Bytes
  pub counter : BytesCounter

abbrev with_frame : Bytes → Option Drained → Option Drained
with_frame f none = none
with_frame f (some d) = some (record d { frames = f ∷ d.frames })

abbrev after_poll : Option Bytes → BytesCounter → Option Drained → Option Drained
after_poll none c rest = some (record { frames = []; counter = c })
after_poll (some f) c rest = with_frame f rest

unfoldable pub drain : ℕ → UploadBody → BytesCounter → Option Drained
drain zero b c = none
drain (suc fuel) b c =
    let p = poll_frame b c in
    let rest = drain fuel p.body p.counter in after_poll p.frame p.counter rest

abbrev pub concat : List Bytes → Bytes
concat [] = []
concat (f ∷ fs) = f ++ concat fs

-- A frame is never empty and never longer than a chunk.
abbrev pub IsFrame : Bytes → Type 0
IsFrame f = (0 < length f) × (length f ≤ upload_chunk)

-- The body of a payload, part of which is sent.
abbrev at : Bytes → ℕ → UploadBody
at p pos = record { payload = some p; pos = pos; filler = [] }

drop_all : (n : ℕ) (p : Bytes) → length p ≤ n → drop n p ≡ []
drop_all zero [] h = refl
drop_all zero (x ∷ p) h = absurd (omega arith)
drop_all (suc n) [] h = refl
drop_all (suc n) (x ∷ p) h = drop_all n p (omega arith)

drop-drop : (m n : ℕ) (p : Bytes) → drop m (drop n p) ≡ drop (n + m) p
drop-drop m zero p = let e : zero + m ≡ m = omega arith in ap (λ k. drop k p) (sym e)
drop-drop m (suc n) [] = drop_all m [] (omega arith) ∙ sym (drop_all (suc n + m) [] (omega arith))
drop-drop m (suc n) (x ∷ p) =
    let e : suc n + m ≡ suc (n + m) = omega arith in
    drop-drop m n p ∙ ap (λ k. drop k (x ∷ p)) (sym e)

slice-drop : (p : Bytes) (pos end : ℕ) → pos ≤ end → slice pos end p ++ drop end p ≡ drop pos p
slice-drop p pos end h =
    let e : end ≡ pos + (end - pos) = omega arith in
    ap (λ k. slice pos end p ++ drop k p) e
    ∙ ap (λ q. slice pos end p ++ q) (sym (drop-drop (end - pos) pos p))
    ∙ take-append-drop (end - pos) (drop pos p)

length-slice :
    (p : Bytes) (pos end : ℕ) → pos ≤ end → end ≤ length p → length (slice pos end p) ≡ end - pos
length-slice p pos end h k = omega (arith, length-take (end - pos) (drop pos p), length-drop pos p)

-- What is left of a payload is sent in at most `k` frames.
abbrev Sends : Bytes → ℕ → ℕ → BytesCounter → Type 0
Sends p k pos c =
    (fs : List Bytes) × (drain (suc k) (at p pos) c
      ≡ some (record {
        frames = fs;
        counter = record c { total = (c.total + (length p - pos)) % u64_mod };
      }))
    × (concat fs ≡ drop pos p)
    × All IsFrame fs

add_none :
    (c : BytesCounter) (n : ℕ)
    → c.total < u64_mod
    → n ≡ 0
    → c ≡ record c { total = (c.total + n) % u64_mod }
add_none c n h e =
    let t : c.total ≡ (c.total + n) % u64_mod = omega arith in ap (λ k. record c { total = k }) t

past_end :
    (p : Bytes) (k pos : ℕ) (c : BytesCounter)
    → c.total < u64_mod
    → length p ≤ pos
    → Sends p k pos c
unfolding drain poll_frame
past_end p k pos c t h =
    let past : leb (length p) pos ≡ true = ground arith in
    (
      [],
      rw past (
          ap (λ d. some (record { frames = []; counter = d }))
            (add_none c (length p - pos) t (omega arith))),
      sym (drop_all pos p h),
      tt,
    )

-- Where the next frame of a payload ends.
abbrev next_end : Bytes → ℕ → ℕ
next_end p pos = min (pos + upload_chunk) (length p)

abbrev next_frame : Bytes → ℕ → Bytes
next_frame p pos = slice pos (next_end p pos) p

drain_more :
    (fuel : ℕ) (p : Bytes) (pos : ℕ) (c : BytesCounter)
    → leb (length p) pos ≡ false
    → drain (suc fuel) (at p pos) c
      ≡ with_frame
          (next_frame p pos)
          (drain fuel (at p (next_end p pos)) (add c (length (next_frame p pos))))
unfolding drain poll_frame
drain_more fuel p pos c h = rw h refl

add_twice :
    (c : BytesCounter) (m n k : ℕ)
    → m + n ≡ k
    → record (add c m) { total = ((add c m).total + n) % u64_mod }
      ≡ record c { total = (c.total + k) % u64_mod }
unfolding add
add_twice c m n k e =
    let t : ((c.total + m) % u64_mod + n) % u64_mod ≡ (c.total + k) % u64_mod = omega arith in
    ap (λ s. record c { total = s }) t

one_more_frame :
    (k : ℕ) (p : Bytes) (pos : ℕ) (c : BytesCounter)
    → pos < length p
    → Sends p k (next_end p pos) (add c (length (next_frame p pos)))
    → Sends p (suc k) pos c
one_more_frame k p pos c h (fs, run, whole, good) =
    let sized : length (next_frame p pos) ≡ next_end p pos - pos =
      length-slice p pos (next_end p pos) (omega arith) (omega arith) in
    (
      next_frame p pos ∷ fs,
      drain_more (suc k) p pos c (ground arith)
          ∙ ap (with_frame (next_frame p pos)) run
          ∙ ap (λ d. some (record { frames = next_frame p pos ∷ fs; counter = d }))
              (add_twice c (length (next_frame p pos)) (length p - next_end p pos) (length p - pos)
                (omega arith)),
      ap (λ q. next_frame p pos ++ q) whole ∙ slice-drop p pos (next_end p pos) (omega arith),
      ((omega arith, omega arith), good),
    )

add-lt : (c : BytesCounter) (n : ℕ) → (add c n).total < u64_mod
unfolding add
add-lt c n = omega arith

drain_all :
    (k : ℕ) (p : Bytes) (pos : ℕ) (c : BytesCounter)
    → c.total < u64_mod
    → pos ≤ length p
    → length p - pos ≤ k * upload_chunk
    → Sends p k pos c
drain_all zero p pos c t h f = past_end p zero pos c t (omega arith)
drain_all (suc k) p pos c t h f = elim (dec_le (length p) pos) [
  | yes past ↦ past_end p (suc k) pos c t past
  | no more ↦ one_more_frame k p pos c (omega arith) (
      drain_all k p (next_end p pos) (add c (length (next_frame p pos)))
        (add-lt c (length (next_frame p pos))) (omega arith) (omega arith))
]

-- A payload of at most `k` chunks is sent in at most `k` frames, none of them empty or longer than
-- a chunk. Together they are the payload, its length is the size declared at the start, and the
-- counter has grown by as many bytes, modulo 2^64.
pub drain_lem :
    (k : ℕ) (p random : Bytes) (c : BytesCounter)
    → c.total < u64_mod
    → length p ≤ k * upload_chunk
    → (fs : List Bytes) × (drain (suc k) (new (some p) random) c
        ≡ some
            (record { frames = fs; counter = record c { total = (c.total + length p) % u64_mod } }))
      × (concat fs ≡ p)
      × All IsFrame fs
      × (size_hint (new (some p) random) ≡ some (length (concat fs)))
unfolding new
drain_lem k p random c t h = go (drain_all k p 0 c t (omega arith) (omega arith))
  where
    go :
        Sends p k 0 c
        → (fs : List Bytes) × (drain (suc k) (new (some p) random) c
            ≡ some (record {
              frames = fs;
              counter = record c { total = (c.total + length p) % u64_mod };
            }))
          × (concat fs ≡ p)
          × All IsFrame fs
          × (size_hint (new (some p) random) ≡ some (length (concat fs)))
    go (fs, run, whole, good) =
        let e : length p - 0 ≡ length p = omega arith in
        (fs, rw e at run, whole, good, unfold size_hint in ap some (e ∙ ap length (sym whole)))
