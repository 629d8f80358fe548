-- ===== src/Rotation/Hint.antt =====
-- The retry hint that a refusal carries: SoonestProbe in rotation.go.
use kaana.Prelude.{
  String, ◌≡◌, refl, Option, none, some, List, [], ◌∷◌, arith, inl, inr, ◌⊎◌, Bool-cases, tests, ap,
  ◌∙◌,
}
use kaana.Prelude.Int.{◌≤ℤ◌, ltb_ℤ}
use kaana.Prelude.Assoc.{lookup, string_eq}
use kaana.Prelude.Time.{Time, Duration, sub_time}
use kaana.Prelude.Floats.{Floats}
use kaana.Rotation.{Registry, Breaker, soonest_probe, soonest_from, clamp, better, probe_round}

module _ (fl : Floats) where
  open fl use {Float}

  abbrev pub wait_of : Breaker Float → Time → Duration
  wait_of b at = clamp fl (sub_time b.probes_at at)

  -- A hint is no longer than another, where an absent one is the longest.
  abbrev pub LeHint : Option Duration → Option Duration → Type 0
  LeHint hint none = Unit
  LeHint none (some d) = ⊥
  LeHint (some e) (some d) = e ≤ℤ d

  -- A hint is no longer than the wait of any listed deployment that has a breaker.
  abbrev pub Bounds : Option Duration → Option (Breaker Float) → Time → Type 0
  Bounds hint none at = Unit
  Bounds hint (some b) at = LeHint hint (some (wait_of b at))

  abbrev pub BoundsAll : Option Duration → List String → Time → Registry Float → Type 0
  BoundsAll hint [] at r = Unit
  BoundsAll hint (id ∷ ids) at r = Bounds hint (lookup id r.breakers) at × BoundsAll hint ids at r

  -- It is the wait of one of them.
  abbrev pub Attained : Option Duration → List String → Time → Registry Float → Type 0
  Attained hint [] at r = ⊥
  Attained hint (id ∷ ids) at r =
      ((b : Breaker Float) × (lookup id r.breakers ≡ some b) × (hint ≡ some (wait_of b at)))
      ⊎ Attained hint ids at r

  LeHint-refl : (h : Option Duration) → LeHint h h
  LeHint-refl none = tt
  LeHint-refl (some d) = omega arith

  LeHint-trans : (a b c : Option Duration) → LeHint a b → LeHint b c → LeHint a c
  LeHint-trans a b none h k = tt
  LeHint-trans a none (some z) h k = absurd k
  LeHint-trans none (some y) (some z) h k = h
  LeHint-trans (some x) (some y) (some z) h k = omega arith

  better-LeHint :
      (d w : Duration)
      → LeHint (better fl (some d) w) (some d) × LeHint (better fl (some d) w) (some w)
  better-LeHint d w = elim (Bool-cases (ltb_ℤ w d)) [
    | inl e ↦ rw e (omega tests)
    | inr e ↦ rw e (ground arith)
  ]

  probe_round-LeHint :
      (best : Option Duration) (b : Option (Breaker Float)) (at : Time)
      → LeHint (probe_round fl best b at) best × Bounds (probe_round fl best b at) b at
  probe_round-LeHint best none at = (LeHint-refl best, tt)
  probe_round-LeHint none (some b) at = (tt, omega arith)
  probe_round-LeHint (some d) (some b) at = better-LeHint d (wait_of b at)

  Bounds-mono :
      (a h : Option Duration) (b : Option (Breaker Float)) (at : Time)
      → LeHint a h
      → Bounds h b at
      → Bounds a b at
  Bounds-mono a h none at l k = tt
  Bounds-mono a h (some b) at l k = LeHint-trans a h (some (wait_of b at)) l k

  soonest_from-Bounds :
      (best : Option Duration) (ids : List String) (at : Time) (r : Registry Float)
      → LeHint (soonest_from fl best ids at r) best
        × BoundsAll (soonest_from fl best ids at r) ids at r
  unfolding soonest_from
  soonest_from-Bounds best [] at r = (LeHint-refl best, tt)
  soonest_from-Bounds best (id ∷ ids) at r =
      let now = probe_round fl best (lookup id r.breakers) at in
      let ih = soonest_from-Bounds now ids at r in
      let first = probe_round-LeHint best (lookup id r.breakers) at in
      let last = soonest_from fl now ids at r in
      (
        LeHint-trans last now best ih.0 first.0,
        (Bounds-mono last now (lookup id r.breakers) at ih.0 first.1, ih.1),
      )

  better-eq :
      (best : Option Duration) (w : Duration)
      → (better fl best w ≡ some w) ⊎ (better fl best w ≡ best)
  better-eq none w = inl refl
  better-eq (some d) w = ground arith

  soonest_from-Attained :
      (best : Option Duration) (ids : List String) (at : Time) (r : Registry Float)
      → Attained (soonest_from fl best ids at r) ids at r ⊎ (soonest_from fl best ids at r ≡ best)
  unfolding soonest_from
  soonest_from-Attained best [] at r = inr refl
  soonest_from-Attained best (id ∷ ids) at r =
      round (lookup id r.breakers) refl
        (soonest_from-Attained (probe_round fl best (lookup id r.breakers) at) ids at r)
    where
      hint : Option Duration
      hint = soonest_from fl (probe_round fl best (lookup id r.breakers) at) ids at r

      round :
          (o : Option (Breaker Float))
          → lookup id r.breakers ≡ o
          → Attained hint ids at r ⊎ (hint ≡ probe_round fl best (lookup id r.breakers) at)
          → Attained hint (id ∷ ids) at r ⊎ (hint ≡ best)
      round o e (inl h) = inl (inr h)
      round none e (inr h) = inr (h ∙ ap (λ o. probe_round fl best o at) e)
      round (some b) e (inr h) = elim (better-eq best (wait_of b at)) [
        | inl now ↦ inl (inl (b, e, h ∙ ap (λ o. probe_round fl best o at) e ∙ now))
        | inr old ↦ inr (h ∙ ap (λ o. probe_round fl best o at) e ∙ old)
      ]

  -- The hint is no longer than the wait of any listed deployment that has a breaker, and where there
  -- is one it is the wait of such a deployment; it is absent where none has a breaker. A wait is the
  -- time to the next trial, and 0 where that time has passed.
  pub soonest_probe_least :
      (ids : List String) (at : Time) (r : Registry Float)
      → BoundsAll (soonest_probe fl ids at r) ids at r
        × (Attained (soonest_probe fl ids at r) ids at r ⊎ (soonest_probe fl ids at r ≡ none))
  unfolding soonest_probe
  soonest_probe_least ids at r =
      ((soonest_from-Bounds none ids at r).1, soonest_from-Attained none ids at r)
