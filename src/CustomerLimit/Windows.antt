-- ===== src/CustomerLimit/Windows.antt =====
-- The refusal windows of one credential generation (customerlimit.go).
use kaana.Prelude.{
  ◌+◌, ◌-◌, ◌^◌, ◌<◌, ◌≤◌, ◌≡◌, refl, true, false, Option, none, some, List, [], ◌∷◌, ltb,
  if◌then◌else◌, arith, Bool-cases, inl, inr, ◌∙◌, ap, sym,
}
use kaana.Prelude.Int.{pos, ◌≤ℤ◌, pos_part}
use kaana.Prelude.Words.{saturate64}
use kaana.Prelude.Assoc.{Eq, beq_self}
use kaana.Prelude.Time.{Time, Duration, before, add_time, sub_time}
use kaana.CustomerLimit.{
  released, Reason, throttled, rejected, Refusal, Entry, Permit, Entries, entry_for, admit,
  admit_known, granted, remove_stale, succeeded, reject, throttle, not_attributable,
  throttle_window, update, is_stale,
}

add_window :
    (t : Time) (d : Duration) → add_time t (throttle_window d) ≡ t + pos_part (throttle_window d)
add_window t d = ground arith

window_fits : (d : Duration) → d ≤ℤ pos (2 ^ 63 - 1) → pos_part (throttle_window d) < 2 ^ 63
window_fits d h = ground arith

not_stale : (e : Entry) (now : Time) → before now e.probes_at ≡ true → is_stale now e ≡ false
not_stale e now h = ground arith

module _ {K : Type 0} ⦃eq : Eq K⦄ where
  -- What a scope is answered while its window is open, and after.
  abbrev pub answer_in_window : Reason → Time → K → Time → Option (Permit K) × Refusal
  answer_in_window reason until scope now =
      if ltb now until
      then (none, record { reason = reason; retry_after = pos (until - now) })
      else granted scope

  window_admit :
      (reason : Reason) (until seen : Time) (scope : K) (now : Time) (m : Entries K)
      → m scope ≡ some (entry_for reason until seen)
      → until - now < 2 ^ 63
      → (admit scope now m).1 ≡ answer_in_window reason until scope now
  unfolding admit saturate64
  window_admit reason until seen scope now m e fits = rw (e, remove_stale) (ground arith)

  abbrev pub unreported : K → Option (Permit K)
  unreported scope = some (record { scope = scope; reported = false })

  at_self : (scope : K) (v : Option Entry) (m : Entries K) → update m scope v scope ≡ v
  at_self scope v m = rw (beq_self scope)

  admit_unknown :
      (scope : K) (now : Time) (m : Entries K)
      → m scope ≡ none
      → admit scope now m ≡ (remove_stale now m, granted scope)
  unfolding admit remove_stale
  admit_unknown scope now m e = rw e

  admit_live :
      (scope : K) (now : Time) (m : Entries K) (e : Entry)
      → m scope ≡ some e
      → is_stale now e ≡ false
      → admit scope now m ≡ admit_known (some e) scope now (remove_stale now m)
  unfolding admit remove_stale
  admit_live scope now m e known live = rw (known, remove_stale) (rw live)

  -- Admissions one after the other, with nothing reported in between.
  abbrev pub ask_all : List (K × Time) → Entries K → Entries K
  ask_all [] m = m
  ask_all ((scope, now) ∷ asked) m = ask_all asked (admit scope now m).0

  abbrev pub AllBefore : Time → List (K × Time) → Type 0
  AllBefore until [] = Unit
  AllBefore until ((_, now) ∷ asked) = (now < until) × AllBefore until asked

  -- The entry of a scope in an open window, whenever it was last seen.
  IsClosedUntil : Reason → Time → K → Entries K → Type 0
  IsClosedUntil reason until scope m =
      (seen : Time) × (m scope ≡ some (entry_for reason until seen))

  -- The scope's entry after an admission of any scope to a map that holds one in its window.
  admit_known-kept :
      (o : Option Entry) (other scope : K) (now : Time) (m : Entries K) (e : Entry)
      → before now e.probes_at ≡ true
      → m scope ≡ some e
      → (eq.beq other scope ≡ true → o ≡ some e)
      → (seen : Time) × ((admit_known o other now m).0 scope ≡ some (record e { last_seen = seen }))
  unfolding admit_known
  admit_known-kept none other scope now m e early held same = (e.last_seen, held)
  admit_known-kept (some f) other scope now m e early held same =
      elim (Bool-cases (eq.beq other scope)) [
        | inl b ↦ (now, ground (arith, b, same b, early))
        | inr b ↦ (e.last_seen, ground (arith, b, held))
      ]

  swept :
      (now : Time) (m : Entries K) (scope : K) (e : Entry)
      → m scope ≡ some e
      → is_stale now e ≡ false
      → remove_stale now m scope ≡ some e
  unfolding remove_stale
  swept now m scope e held live = rw held (rw live refl)

  admit-IsClosedUntil :
      (reason : Reason) (until : Time) (scope other : K) (now : Time) (m : Entries K)
      → now < until
      → IsClosedUntil reason until scope m
      → IsClosedUntil reason until scope (admit other now m).0
  unfolding admit IsClosedUntil
  admit-IsClosedUntil reason until scope other now m early (seen, held) =
      let e = entry_for reason until seen in
      let inside : before now until ≡ true = ground (arith, early) in
      let kept = swept now m scope e held (not_stale e now inside) in
      admit_known-kept (remove_stale now m other) other scope now (remove_stale now m) e inside kept
        (λ b. ap (remove_stale now m) ((eq.beq_iff other scope).0 b) ∙ kept)

  ask_all-IsClosedUntil :
      (reason : Reason) (until : Time) (scope : K) (asked : List (K × Time)) (m : Entries K)
      → AllBefore until asked
      → IsClosedUntil reason until scope m
      → IsClosedUntil reason until scope (ask_all asked m)
  unfolding IsClosedUntil
  ask_all-IsClosedUntil reason until scope [] m early c = c
  ask_all-IsClosedUntil reason until scope ((other, now) ∷ asked) m early c =
      ask_all-IsClosedUntil reason until scope asked (admit other now m).0 early.1
        (admit-IsClosedUntil reason until scope other now m early.0 c)

  -- After a throttle reported at t, and any admissions of any scopes at times before the end of the
  -- window that it opens, an admission of the scope at a time from t on is refused as throttled, with
  -- exactly what is left of the window as its hint, until the window has passed; from then on it is
  -- granted. The window is the provider's hint where that is positive, and five seconds otherwise;
  -- the hint is an int64.
  pub throttle_exact :
      (scope : K) (d : Duration) (t now : Time) (asked : List (K × Time)) (m : Entries K)
      → d ≤ℤ pos (2 ^ 63 - 1)
      → t ≤ now
      → AllBefore (t + pos_part (throttle_window d)) asked
      → (admit scope now (ask_all asked (throttle (unreported scope) d t m).1)).1
        ≡ answer_in_window throttled (t + pos_part (throttle_window d)) scope now
  unfolding throttle IsClosedUntil
  throttle_exact scope d t now asked m h after early =
      let until = t + pos_part (throttle_window d) in
      let (seen, e) =
        ask_all-IsClosedUntil throttled until scope asked (throttle (unreported scope) d t m).1
          early (t, rw (at_self scope _ m) (rw (add_window t d) refl)) in
      window_admit throttled until seen scope now _ e (omega (arith, window_fits d h))

  -- After a rejection reported at t the same holds for fifteen minutes, with the reason rejected.
  pub reject_exact :
      (scope : K) (t now : Time) (m : Entries K)
      → t ≤ now
      → (admit scope now (reject (unreported scope) t m).1).1
        ≡ answer_in_window rejected (t + 900_000_000_000) scope now
  unfolding reject
  reject_exact scope t now m after =
      window_admit rejected (t + 900_000_000_000) t scope now _ (at_self scope _ m) (omega arith)

  stays_clear :
      (scope : K) (now : Time) (m : Entries K) → m scope ≡ none → remove_stale now m scope ≡ none
  unfolding remove_stale
  stays_clear scope now m e = rw e

  -- A success closes the lane: whatever was known of the scope, every admission after it is granted,
  -- and so is the one after that, with no report in between.
  pub success_clears :
      (scope : K) (t now later : Time) (m : Entries K)
      → let m' = (succeeded (unreported scope) t m).1 in
        ((admit scope now m').1 ≡ granted scope)
        × ((admit scope later (admit scope now m').0).1 ≡ granted scope)
  unfolding succeeded
  success_clears scope t now later m =
      let cleared = update m scope none in
      let e = admit_unknown scope now cleared (at_self scope none m) in
      let still : remove_stale now cleared scope ≡ none =
        stays_clear scope now cleared (at_self scope none m) in
      (rw e refl, rw e (rw (admit_unknown scope later (remove_stale now cleared) still) refl))

  in_window :
      (scope : K) (now : Time) (m : Entries K) (e : Entry)
      → before now e.probes_at ≡ true
      → (admit_known (some e) scope now m).1
        ≡ (none, record { reason = e.reason; retry_after = sub_time e.probes_at now })
  unfolding admit_known
  in_window scope now m e h = rw h refl

  -- A failure that is not attributable to the credential leaves its window as it was: the answer to
  -- any admission inside the window is the one that it would have been.
  pub not_attributable_keeps :
      (scope : K) (t now : Time) (m : Entries K) (e : Entry)
      → m scope ≡ some e
      → before now e.probes_at ≡ true
      → (admit scope now (not_attributable (unreported scope) t m).1).1 ≡ (admit scope now m).1
  unfolding not_attributable
  not_attributable_keeps scope t now m e known open_window =
      let idle = record e { trial_in_flight = false; last_seen = t } in
      let known' = at_self scope (released t (m scope)) m ∙ ap (released t) known in
      rw (admit_live scope now m e known (not_stale e now open_window)) (
        rw (admit_live scope now _ idle known' (not_stale idle now open_window))
          (in_window scope now _ idle open_window ∙ sym (in_window scope now _ e open_window)))
