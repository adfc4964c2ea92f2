-- ===== src/Defs/Transfer/Progress.antt =====
-- What a phase of src/defs/server.rs writes on the stream that scripts read: its progress events.
use mathlib.Core.List.{append_assoc, append-nil}
use speedtest_cli_rust.Base.{
  ℕ, Option, none, some, List, [], ◌∷◌, ◌++◌, if◌then◌else◌, ◌≡◌, refl, sym, ap, ◌∙◌, inl, inr,
  Bool-cases,
}
use speedtest_cli_rust.Base.Text.{Text}
use speedtest_cli_rust.Base.Float.{Float}
use speedtest_cli_rust.Output.{Console, write_debug}
use speedtest_cli_rust.Output.Streams.{
  stdout_text, stdout_text-write_debug, stdout_text-stream_event,
}
use speedtest_cli_rust.Spinner.{Spinner}
use speedtest_cli_rust.Spinner.Streams.{draw-stdout}
use speedtest_cli_rust.Defs.Transfer.Phase.{Streams}
use speedtest_cli_rust.Defs.Transfer.Measure.{
  TransferOptions, Happening, wakes, ticks, draws, says, behind, ProgressEvent, progress_event,
  tick, drawn, shown,
}

module _ (float : Float) (to_string : ProgressEvent float → Text) (opts : TransferOptions) where
  open float use {F}

  module _ (name : Text) (started : ℕ) where
    -- The lines of the progress events of a phase, each with what the counter reads at its instant.
    unfoldable pub progress_lines : List Happening → Streams → Text
    progress_lines [] s = []
    progress_lines (wakes w ∷ hs) s = progress_lines hs (behind w s)
    progress_lines (ticks now ∷ hs) s =
        (to_string (progress_event float name opts.duration started now s.bytes) ++ b'\n' ∷ [])
        ++ progress_lines hs s
    progress_lines (draws now ∷ hs) s = progress_lines hs s
    progress_lines (says t ∷ hs) s = progress_lines hs s

    drawn-stdout :
        (spinner : Option Spinner) (now : ℕ) (s : Streams) (c : Console)
        → stdout_text (drawn float to_string opts name started spinner now s c).1 ≡ stdout_text c
    drawn-stdout none now s c = refl
    drawn-stdout (some sp) now s c = draw-stdout sp _ c

    -- What the stream that scripts read is given in a phase.
    abbrev pub streamed : List Happening → Streams → Text
    streamed hs s = if opts.out.stream then progress_lines hs s else []

    streamed-tick :
        (t lines c : Text)
        → (c ++ (if opts.out.stream then t ++ b'\n' ∷ [] else []))
            ++ (if opts.out.stream then lines else [])
          ≡ c ++ (if opts.out.stream then (t ++ b'\n' ∷ []) ++ lines else [])
    streamed-tick t lines c = elim (Bool-cases opts.out.stream) [
      | inl e ↦ rw e (append_assoc c (t ++ b'\n' ∷ []) lines)
      | inr e ↦ rw e (append_assoc c [] [])
    ]

    pub shown-stdout :
        (hs : List Happening) (s : Streams) (spinner : Option Spinner) (c : Console)
        → stdout_text (shown float to_string opts name started hs s spinner c).1
          ≡ stdout_text c ++ streamed hs s
    unfolding shown progress_lines
    shown-stdout [] s spinner c = elim (Bool-cases opts.out.stream) [
      | inl e ↦ rw e (sym (append-nil (stdout_text c)))
      | inr e ↦ rw e (sym (append-nil (stdout_text c)))
    ]
    shown-stdout (wakes w ∷ hs) s spinner c = shown-stdout hs (behind w s) spinner c
    shown-stdout (ticks now ∷ hs) s spinner c =
        let event = to_string (progress_event float name opts.duration started now s.bytes) in
        shown-stdout hs s spinner (tick float to_string opts name started now s c)
        ∙ (ap (λ t. t ++ streamed hs s) (stdout_text-stream_event opts.out event c)
            ∙ streamed-tick event (progress_lines hs s) (stdout_text c))
    shown-stdout (draws now ∷ hs) s spinner c =
        let d = drawn float to_string opts name started spinner now s c in
        shown-stdout hs s d.0 d.1 ∙ ap (λ t. t ++ streamed hs s) (drawn-stdout spinner now s c)
    shown-stdout (says t ∷ hs) s spinner c =
        shown-stdout hs s spinner (write_debug opts.out t c)
        ∙ ap (λ u. u ++ streamed hs s) (stdout_text-write_debug opts.out t c)
