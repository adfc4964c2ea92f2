-- ===== src/Output/Streams.antt =====
-- Which stream the messages of src/output.rs go to.
use mathlib.Core.List.{append_assoc, append-nil}
use speedtest_cli_rust.Base.{
  [], ◌∷◌, ◌++◌, ◌≡◌, refl, sym, ap, ◌∙◌, arith, if◌then◌else◌, inl, inr, Bool-cases,
}
use speedtest_cli_rust.Base.Text.{Text}
use speedtest_cli_rust.Output.{
  Output, to_stdout, to_stderr, Console, write_out, stream_event, write_error, write_ui,
  write_debug, write_ui_blank,
}

-- What a script reads from a run: the text on stdout.
unfoldable pub stdout_text : Console → Text
stdout_text [] = []
stdout_text (to_stdout t ∷ c) = t ++ stdout_text c
stdout_text (to_stderr t ∷ c) = stdout_text c

pub stdout_text-append : (c d : Console) → stdout_text (c ++ d) ≡ stdout_text c ++ stdout_text d
unfolding stdout_text
stdout_text-append [] d = refl
stdout_text-append (to_stdout t ∷ c) d =
    rw (stdout_text-append c d) (sym (append_assoc t (stdout_text c) (stdout_text d)))
stdout_text-append (to_stderr t ∷ c) d = stdout_text-append c d

pub stdout_text-write_out :
    (t : Text) (c : Console) → stdout_text (write_out t c) ≡ stdout_text c ++ t
stdout_text-write_out t c =
    stdout_text-append c (to_stdout t ∷ [])
    ∙ ap (λ u. stdout_text c ++ u) (unfold stdout_text in append-nil t)

-- The lines of a stream of events are all that `stream_event` adds.
pub stdout_text-stream_event :
    (o : Output) (t : Text) (c : Console)
    → stdout_text (stream_event o t c) ≡ stdout_text c ++ (if o.stream then t ++ b'\n' ∷ [] else [])
unfolding stream_event
stdout_text-stream_event o t c = elim (Bool-cases o.stream) [
  | inl e ↦ rw e (stdout_text-write_out (t ++ b'\n' ∷ []) c)
  | inr e ↦ rw e (sym (append-nil (stdout_text c)))
]

pub stdout_text-write_error :
    (t : Text) (c : Console) → stdout_text (write_error t c) ≡ stdout_text c
unfolding stdout_text
stdout_text-write_error t [] = refl
stdout_text-write_error t (to_stdout u ∷ c) = rw (stdout_text-write_error t c) refl
stdout_text-write_error t (to_stderr u ∷ c) = stdout_text-write_error t c

pub stdout_text-write_debug :
    (o : Output) (t : Text) (c : Console) → stdout_text (write_debug o t c) ≡ stdout_text c
unfolding write_debug
stdout_text-write_debug o t c = ground (arith, stdout_text-write_error t c)

pub stdout_text-write_ui :
    (o : Output) (t : Text) (c : Console) → stdout_text (write_ui o t c) ≡ stdout_text c
unfolding write_ui
stdout_text-write_ui o t c = ground (arith, stdout_text-write_error t c)

pub stdout_text-write_ui_blank : (c : Console) → stdout_text (write_ui_blank c) ≡ stdout_text c
unfolding write_ui_blank
stdout_text-write_ui_blank c = stdout_text-write_error (b'\n' ∷ []) c

-- No message for a person reaches the stream that scripts read, in whatever mode.
pub human_messages_off_stdout :
    (o : Output) (t : Text) (c : Console)
    → (stdout_text (write_ui o t c) ≡ stdout_text c)
      × (stdout_text (write_debug o t c) ≡ stdout_text c)
      × (stdout_text (write_ui_blank c) ≡ stdout_text c)
unfolding write_ui write_debug write_ui_blank
human_messages_off_stdout o t c = (
  ground (arith, stdout_text-write_error t c),
  ground (arith, stdout_text-write_error t c),
  stdout_text-write_error (b'\n' ∷ []) c,
)
