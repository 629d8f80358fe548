-- ===== src/Replay/Refinement.antt =====
-- The replay buffer of internal/realtime/replay.go against the whole log: what `after` gives a
-- client that reconnects is what the log allows, whatever was pushed before.
use mathlib.Core.List.{append_assoc, append-nil}
use kaana.Prelude.{
  ℕ, zero, suc, ◌+◌, ◌-◌, ◌≤◌, ◌<◌, ◌≡◌, refl, sym, ◌∙◌, ap, Bool, true, false, List, [], ◌∷◌, ◌++◌,
  arith, ◌==◌, if◌then◌else◌, length, length-append, drop,
}
use kaana.Prelude.Int.{ℤ, pos, negsuc}
use kaana.Replay.{
  Encoded, Replay, new_replay, over, forget, push, replayed, slice_from, from, after,
}
use kaana.Replay.Log.{size, forgotten, resume, resume_after, push_all, recorded}

size-append : (log more : List Encoded) → size (log ++ more) ≡ size log + size more
unfolding size
size-append [] more = omega arith
size-append (e ∷ log) more = omega (arith, size-append log more)

drop-all : (log : List Encoded) → drop (length log) log ≡ []
drop-all [] = refl
drop-all (e ∷ log) = drop-all log

drop_eq : {m n : ℕ} (log : List Encoded) → m ≡ n → drop m log ≡ drop n log
drop_eq log e = ap (λ k. drop k log) e

drop-drop : (m n : ℕ) (log : List Encoded) → drop m (drop n log) ≡ drop (n + m) log
drop-drop m zero log = drop_eq {m = m} {n = 0 + m} log (omega arith)
drop-drop zero (suc n) log = drop_eq {m = suc n} {n = suc n + 0} log (omega arith)
drop-drop (suc m) (suc n) [] = drop_eq {m = suc (n + suc m)} {n = suc n + suc m} [] (omega arith)
drop-drop (suc m) (suc n) (e ∷ log) =
    drop-drop (suc m) n log
    ∙ drop_eq {m = suc (n + suc m)} {n = suc n + suc m} (e ∷ log) (omega arith)

drop-append :
    (n : ℕ) (log more : List Encoded) → n ≤ length log → drop n (log ++ more) ≡ drop n log ++ more
drop-append zero log more h = refl
drop-append (suc n) [] more h = absurd (omega arith)
drop-append (suc n) (e ∷ log) more h = drop-append n log more (omega arith)

length-drop_le :
    (n : ℕ) (log : List Encoded) → n ≤ length log → length (drop n log) ≡ length log - n
length-drop_le zero log h = omega arith
length-drop_le (suc n) [] h = omega arith
length-drop_le (suc n) (e ∷ log) h = omega (arith, length-drop_le n log)

module _ (max_count max_bytes : ℕ) where
  abbrev lost : List Encoded → ℕ
  lost = forgotten max_count max_bytes

  abbrev kept : List Encoded → List Encoded
  kept log = drop (lost log) log

  -- What `over` says of a log whose bytes are counted right.
  abbrev past : List Encoded → Bool
  past log = over max_count max_bytes log (size log)

  lost-le : (log : List Encoded) → lost log ≤ length log
  unfolding forgotten
  lost-le [] = omega arith
  lost-le (e ∷ log) = ground (arith, lost-le log)

  -- A log with events left over both bounds stays over them when it grows.
  past-append : (log : List Encoded) (e : Encoded) → past log ≡ true → past (log ++ e ∷ []) ≡ true
  past-append log e h = ground (arith, length-append log (e ∷ []), size-append log (e ∷ []))

  forget-lost :
      (log : List Encoded) (first : ℕ)
      → forget max_count max_bytes log first (size log)
        ≡ (kept log, first + lost log, size (kept log))
  unfolding forget forgotten
  forget-lost [] first = ground arith
  forget-lost (e ∷ log) first = choose (past (e ∷ log)) refl (forget-lost log (first + 1))
    where
      rest : size (e ∷ log) - length e ≡ size log
      rest = unfold size in omega arith

      choose :
          (b : Bool)
          → past (e ∷ log) ≡ b
          → forget max_count max_bytes log (first + 1) (size log)
            ≡ (kept log, first + 1 + lost log, size (kept log))
          → forget max_count max_bytes (e ∷ log) first (size (e ∷ log))
            ≡ (kept (e ∷ log), first + lost (e ∷ log), size (kept (e ∷ log)))
      choose true more ih = rw (more, rest, ih) (ground arith)
      choose false done ih = rw done (ground arith)

  lost-kept :
      (log : List Encoded) (e : Encoded)
      → lost log + lost (kept log ++ e ∷ []) ≡ lost (log ++ e ∷ [])
  unfolding forgotten
  lost-kept [] e = omega arith
  lost-kept (x ∷ log) e = choose (past (x ∷ log)) refl (lost-kept log e)
    where
      choose :
          (b : Bool)
          → past (x ∷ log) ≡ b
          → lost log + lost (kept log ++ e ∷ []) ≡ lost (log ++ e ∷ [])
          → lost (x ∷ log) + lost (kept (x ∷ log) ++ e ∷ []) ≡ lost (x ∷ log ++ e ∷ [])
      choose true more ih = rw (more, past-append (x ∷ log) e more) (omega arith)
      choose false done ih = rw done (omega arith)

  -- The buffer that holds what is kept of a log.
  abbrev holding : List Encoded → Replay
  holding log = record {
    events = kept log;
    first = lost log;
    bytes = size (kept log);
    max_count = max_count;
    max_bytes = max_bytes;
  }

  kept-append :
      (log : List Encoded) (e : Encoded) → kept (kept log ++ e ∷ []) ≡ kept (log ++ e ∷ [])
  kept-append log e =
      ap (drop (lost (kept log ++ e ∷ [])))
        (sym (drop-append (lost log) log (e ∷ []) (lost-le log)))
      ∙ drop-drop (lost (kept log ++ e ∷ [])) (lost log) (log ++ e ∷ [])
      ∙ drop_eq (log ++ e ∷ []) (lost-kept log e)

  first-kept :
      (log : List Encoded) → (if length (kept log) == 0 then length log else lost log) ≡ lost log
  first-kept log = ground (arith, lost-le log, length-drop_le (lost log) log)

  push-holding :
      (log : List Encoded) (e : Encoded)
      → push (holding log) (length log) e ≡ holding (log ++ e ∷ [])
  unfolding push size
  push-holding log e =
      let grown : size (kept log) + length e ≡ size (kept log ++ e ∷ []) =
        omega (arith, size-append (kept log) (e ∷ [])) in
      rw (
        first-kept log,
        grown,
        forget-lost (kept log ++ e ∷ []) (lost log),
        lost-kept log e,
        kept-append log e,
      )

  push_all-holding :
      (past_events log : List Encoded)
      → push_all (holding past_events) (length past_events) log ≡ holding (past_events ++ log)
  unfolding push_all
  push_all-holding past_events [] = ap holding (sym (append-nil past_events))
  push_all-holding past_events (e ∷ log) =
      let grown : length past_events + 1 ≡ length (past_events ++ e ∷ []) =
        omega (arith, length-append past_events (e ∷ [])) in
      rw (push-holding past_events e, grown, push_all-holding (past_events ++ e ∷ []) log)
        (ap holding (append_assoc past_events (e ∷ []) log))

  recorded-holding : (log : List Encoded) → recorded max_count max_bytes log ≡ holding log
  unfolding recorded new_replay forgotten size
  recorded-holding log = push_all-holding [] log

  slice-kept :
      (log : List Encoded) (wanted : ℕ)
      → lost log ≤ wanted
      → wanted < length log
      → slice_from (kept log) (wanted - lost log) ≡ replayed (drop wanted log)
  unfolding slice_from
  slice-kept log wanted h k =
      let there : lost log + (wanted - lost log) ≡ wanted = omega arith in
      ground (
        arith,
        length-drop_le (lost log) log,
        drop-drop (wanted - lost log) (lost log) log ∙ drop_eq log there,
      )

  from-holding :
      (log : List Encoded) (wanted : ℕ)
      → wanted ≤ length log
      → from (holding log) wanted (length log) ≡ resume log (lost log) wanted
  unfolding from resume
  from-holding log wanted h = ground (
    arith,
    lost-le log,
    length-drop_le (lost log) log,
    slice-kept log wanted,
    drop-all log,
    λ (e : wanted ≡ length log). drop_eq log e,
  )

  -- A client that reconnects to a session of any length is sent exactly the events that it lacks,
  -- in order, unless the sequence that it names never was or an event that it lacks is among the
  -- forgotten, in which case it is refused; no slice expression is out of range.
  pub after_lem :
      (log : List Encoded) (after_sequence : ℤ)
      → after (recorded max_count max_bytes log) after_sequence (length log)
        ≡ resume_after log (forgotten max_count max_bytes log) after_sequence
  unfolding after resume_after
  after_lem log (negsuc (suc n)) = refl
  after_lem log (negsuc zero) = rw (recorded-holding log) (from-holding log 0 (omega arith))
  after_lem log (pos n) = rw (recorded-holding log) (ground (arith, from-holding log (suc n)))
