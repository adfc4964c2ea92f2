-- ===== src/Defs/Telemetry/Log.antt =====
-- What the log of src/defs/telemetry.rs keeps over a run.
use speedtest_cli_rust.Base.{
  ℕ, Bool, true, false, List, [], ◌∷◌, ◌++◌, map, ◌≡◌, refl, ap, sym, ◌∙◌, leb, keep, inl, inr,
  Bool-cases,
}
use mathlib.Core.List.{foldl, append_assoc, append-nil}
use speedtest_cli_rust.Base.Text.{Text, codes}
use speedtest_cli_rust.Defs.Telemetry.{
  TelemetryServer, TelemetryLog, new, set_level, logf, warnf, verbosef, get_level,
}

pub data Kind : Type 0 where
  plain warning verbose : Kind

-- A call of the log: which, when and with what.
pub record Call : Type 0 where
  pub kind : Kind
  pub stamp : Text
  pub msg : Text

abbrev pub record_call : TelemetryLog → Kind → Text → Text → TelemetryLog
record_call l plain stamp msg = logf l stamp msg
record_call l warning stamp msg = warnf l stamp msg
record_call l verbose stamp msg = verbosef l stamp msg

-- A run's log: the level is set once, from the telemetry settings, before the calls.
abbrev pub logged : TelemetryServer → List Call → TelemetryLog
logged t = foldl (λ l c. record_call l c.kind c.stamp c.msg) (set_level new (get_level t))

abbrev pub heard : ℕ → Kind → Bool
heard level plain = leb 2 level
heard level warning = leb 2 level
heard level verbose = leb 3 level

abbrev pub prefix_of : Kind → Text
prefix_of plain = []
prefix_of warning = codes "WARN: "
prefix_of verbose = []

abbrev pub line : Call → Text
line c = c.stamp ++ (codes ": " ++ (prefix_of c.kind ++ c.msg))

-- The lines of one call: one or none.
abbrev lines : Bool → Call → List Text
lines true c = line c ∷ []
lines false c = []

abbrev logged_with : TelemetryLog → List Text → TelemetryLog
logged_with l more = record l { content = l.content ++ more }

unheard : (l : TelemetryLog) → l ≡ logged_with l []
unheard l = rw (append-nil l.content) refl

record_call_lem :
    (l : TelemetryLog) (k : Kind) (stamp msg : Text)
    → record_call l k stamp msg
      ≡ logged_with l (lines (heard l.verbosity k) (record { kind = k; stamp = stamp; msg = msg }))
unfolding logf warnf verbosef
record_call_lem l plain stamp msg = elim (Bool-cases (leb 2 l.verbosity)) [
  | inl e ↦ rw e refl
  | inr e ↦ rw e (unheard l)
]
record_call_lem l warning stamp msg = elim (Bool-cases (leb 2 l.verbosity)) [
  | inl e ↦ rw e refl
  | inr e ↦ rw e (unheard l)
]
record_call_lem l verbose stamp msg = elim (Bool-cases (leb 3 l.verbosity)) [
  | inl e ↦ rw e refl
  | inr e ↦ rw e (unheard l)
]

lines_kept :
    (level : ℕ) (c : Call) (calls : List Call)
    → lines (heard level c.kind) c ++ map line (keep (λ d. heard level d.kind) calls)
      ≡ map line (keep (λ d. heard level d.kind) (c ∷ calls))
lines_kept level c calls = elim (Bool-cases (heard level c.kind)) [
  | inl e ↦ rw e refl
  | inr e ↦ rw e refl
]

content_run :
    (l : TelemetryLog) (calls : List Call)
    → (foldl (λ m c. record_call m c.kind c.stamp c.msg) l calls).content
      ≡ l.content ++ map line (keep (λ c. heard l.verbosity c.kind) calls)
content_run l [] = sym (append-nil l.content)
content_run l (c ∷ calls) =
    ap (λ m. (foldl (λ k d. record_call k d.kind d.stamp d.msg) m calls).content)
      (record_call_lem l c.kind c.stamp c.msg)
    ∙ (content_run (logged_with l (lines (heard l.verbosity c.kind) c)) calls
        ∙ (append_assoc l.content (lines (heard l.verbosity c.kind) c)
              (map line (keep (λ d. heard l.verbosity d.kind) calls))
            ∙ ap (λ x. l.content ++ x) (lines_kept l.verbosity c calls)))

-- Over a whole run the log holds, in the order of the calls, the lines that the level lets
-- through: plain lines and warnings from `full` on, verbose ones at `debug` only.
content-logged :
    (t : TelemetryServer) (calls : List Call)
    → (logged t calls).content ≡ map line (keep (λ c. heard (get_level t) c.kind) calls)
content-logged t calls = content_run (set_level new (get_level t)) calls
