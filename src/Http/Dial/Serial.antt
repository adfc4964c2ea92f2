-- ===== src/Http/Dial/Serial.antt =====
-- What `dial_serial` of src/http/connector.rs tries, and for how long.
use speedtest_cli_rust.Base.{
  ℕ, suc, ◌+◌, ◌-◌, ◌≤◌, Option, none, some, List, [], ◌∷◌, ◌++◌, Result, ok, err, leb, length, ◌≡◌,
  refl, ap, ◌⊎◌, inl, inr, arith, Bool-cases,
}
use speedtest_cli_rust.Base.Text.{Text}
use speedtest_cli_rust.Http.Dial.{
  SocketAddr, Attempt, Dialled, window, onto_tried, answered, settled, serial, dial_serial,
  timed_out,
}

module _ {S : Type 0} (connect : SocketAddr → ℕ → Attempt S) where
  -- The stream is what the last address that was tried gave, at the time that it took.
  abbrev pub Connects : Dialled S → S → Type 0
  Connects d s =
      (before : List SocketAddr) × (a : SocketAddr) × (start : ℕ) × (d.tried ≡ before ++ a ∷ [])
      × ((connect a start).outcome ≡ ok s)
      × (d.at ≡ start + (connect a start).after)

  -- A stream, or an error once every address was tried or the time is up.
  abbrev pub IsAccounted : List SocketAddr → ℕ → Dialled S → Result Text S → Type 0
  IsAccounted addrs deadline d (ok s) = Connects d s
  IsAccounted addrs deadline d (err e) = (d.tried ≡ addrs) ⊎ (d.at ≡ deadline)

  abbrev pub Serves : List SocketAddr → ℕ → Dialled S → Type 0
  Serves addrs deadline d =
      (d.at ≤ deadline)
      × ((untried : List SocketAddr) × (d.tried ++ untried ≡ addrs))
      × IsAccounted addrs deadline d d.result

  IsAccounted-onto :
      (a : SocketAddr) (addrs : List SocketAddr) (deadline : ℕ) (d : Dialled S) (r : Result Text S)
      → IsAccounted addrs deadline d r
      → IsAccounted (a ∷ addrs) deadline (onto_tried connect a d) r
  IsAccounted-onto a addrs deadline d (ok s) (before, b, start, t, o, e) =
      (a ∷ before, b, start, ap (◌∷◌ a) t, o, e)
  IsAccounted-onto a addrs deadline d (err e) (inl all) = inl (ap (◌∷◌ a) all)
  IsAccounted-onto a addrs deadline d (err e) (inr late) = inr late

  Serves-onto :
      (a : SocketAddr) (addrs : List SocketAddr) (deadline : ℕ) (d : Dialled S)
      → Serves addrs deadline d
      → Serves (a ∷ addrs) deadline (onto_tried connect a d)
  Serves-onto a addrs deadline d (t, (untried, u), acc) =
      (t, (untried, ap (◌∷◌ a) u), IsAccounted-onto a addrs deadline d d.result acc)

  window-le : (remaining n : ℕ) → window remaining n ≤ remaining
  unfolding window
  window-le remaining n = omega arith

  in_time :
      (a : SocketAddr) (addrs : List SocketAddr) (now deadline : ℕ)
      (later : Option Text → ℕ → Dialled S)
      → now + (connect a now).after ≤ deadline
      → (r : Result Text S) → (connect a now).outcome ≡ r
      → ((e : Option Text) (t : ℕ) → t ≤ deadline → Serves addrs deadline (later e t))
      → Serves
          (a ∷ addrs)
          deadline
          (onto_tried connect a (answered connect (now + (connect a now).after) r later))
  in_time a addrs now deadline later h (ok s) o f = (h, (addrs, refl), ([], a, now, refl, o, refl))
  in_time a addrs now deadline later h (err e) o f =
      Serves-onto a addrs deadline (later (some e) (now + (connect a now).after))
        (f (some e) (now + (connect a now).after) h)

  -- One attempt, and what comes behind it.
  attempt :
      (a : SocketAddr) (addrs : List SocketAddr) (now given deadline : ℕ)
      (later : Option Text → ℕ → Dialled S)
      → now + given ≤ deadline
      → ((e : Option Text) (t : ℕ) → t ≤ deadline → Serves addrs deadline (later e t))
      → Serves
          (a ∷ addrs)
          deadline
          (onto_tried connect a (settled connect now given (connect a now) later))
  attempt a addrs now given deadline later h f =
      elim (Bool-cases (leb ((connect a now).after) given)) [
        | inl soon ↦
            rw soon
              (in_time a addrs now deadline later (ground arith) (connect a now).outcome refl f)
        | inr late ↦ rw late (
            Serves-onto a addrs deadline (later (some timed_out) (now + given))
              (f (some timed_out) (now + given) h))
      ]

  serial-Serves :
      (addrs : List SocketAddr) (deadline : ℕ) (e : Option Text) (now : ℕ)
      → now ≤ deadline
      → Serves addrs deadline (serial connect deadline e now addrs)
  unfolding serial
  serial-Serves [] deadline e now h = (h, ([], refl), inl refl)
  serial-Serves (a ∷ addrs) deadline e now h = elim (Bool-cases (leb deadline now)) [
    | inl up ↦ rw up (h, (a ∷ addrs, refl), inr (ground arith))
    | inr early ↦
        let w = window-le (deadline - now) (suc (length addrs)) in
        rw early (
          attempt a addrs now (window (deadline - now) (suc (length addrs))) deadline
            (λ e' t. serial connect deadline e' t addrs) (omega (arith, w, h))
            (λ e' t k. serial-Serves addrs deadline e' t k))
  ]

  -- Dialling ends by the deadline. It tries the addresses in their order: the stream it returns is
  -- that of the last one tried, and it gives up only once every address was tried or the time is up.
  pub dial_serial-Serves :
      (addrs : List SocketAddr) (now deadline : ℕ)
      → now ≤ deadline
      → Serves addrs deadline (dial_serial connect addrs now deadline)
  unfolding dial_serial
  dial_serial-Serves addrs now deadline h = serial-Serves addrs deadline none now h
