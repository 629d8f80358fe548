-- ===== src/CustomerLimit/Isolation.antt =====
-- Generations do not disturb one another (customerlimit.go).
use kaana.Prelude.{
  ◌≤◌, ◌≡◌, ◌≢◌, refl, Bool, true, false, Option, none, some, arith, Bool-cases, inl, inr, sym,
}
use kaana.Prelude.Assoc.{Eq}
use kaana.Prelude.Time.{Time, Duration}
use kaana.CustomerLimit.{
  none_given, Reason, Entry, Permit, Entries, admit, admit_known, remove_stale, report, settle,
  is_stale, fresh_or_none,
}

module _ {K : Type 0} ⦃eq : Eq K⦄ where
  differs : (k j : K) → k ≢ j → eq.beq k j ≡ false
  differs k j ne = elim (Bool-cases (eq.beq k j)) [
    | inl e ↦ absurd (ne ((eq.beq_iff k j).0 e))
    | inr e ↦ e
  ]

  -- What an answer depends on: the scope's own entry.
  answer_of :
      (o : Option Entry) (k : K) (now : Time) (m m' : Entries K)
      → (admit_known o k now m).1 ≡ (admit_known o k now m').1
  unfolding admit_known
  answer_of none k now m m' = refl
  answer_of (some e) k now m m' = ground arith

  -- An entry that was stale is answered like an absent one.
  answer_stale :
      (e : Entry) (k : K) (t now : Time) (m m' : Entries K)
      → is_stale t e ≡ true
      → t ≤ now
      → (admit_known (fresh_or_none now (some e)) k now m).1 ≡ (admit_known none k now m').1
  unfolding admit_known
  answer_stale e k t now m m' stale order = ground arith

  answer_swept :
      (o : Option Entry) (k : K) (t now : Time) (m m' : Entries K)
      → t ≤ now
      → (admit_known (fresh_or_none now (fresh_or_none t o)) k now m).1
        ≡ (admit_known (fresh_or_none now o) k now m').1
  answer_swept none k t now m m' order = answer_of none k now m m'
  answer_swept (some e) k t now m m' order = elim (Bool-cases (is_stale t e)) [
    | inl stale ↦ rw stale (sym (answer_stale e k t now m' m stale order))
    | inr live ↦ rw live (answer_of (fresh_or_none now (some e)) k now m m')
  ]

  admit_known_others :
      (o : Option Entry) (j k : K) (t : Time) (m : Entries K)
      → eq.beq j k ≡ false
      → (admit_known o j t m).0 k ≡ m k
  unfolding admit_known
  admit_known_others none j k t m ne = refl
  admit_known_others (some e) j k t m ne = ground arith

  -- An admission of one scope, with the removal of stale entries that it makes, does not change what
  -- any other scope is answered then or later.
  pub admit_isolated :
      (j k : K) (t now : Time) (m : Entries K)
      → j ≢ k
      → t ≤ now
      → (admit k now (admit j t m).0).1 ≡ (admit k now m).1
  unfolding admit remove_stale
  admit_isolated j k t now m ne order =
      rw (admit_known_others (remove_stale t m j) j k t (remove_stale t m) (differs j k ne))
        (answer_swept (m k) k t now _ _ order)

  settle_others :
      (success : Bool) (reason : Reason) (d : Duration) (j k : K) (t : Time) (m : Entries K)
      → eq.beq j k ≡ false
      → settle success reason d j t m k ≡ m k
  unfolding settle
  settle_others true reason d j k t m ne = rw ne
  settle_others false none_given d j k t m ne = rw ne
  settle_others false _ d j k t m ne = rw ne

  report_others :
      (p : Permit K) (k : K) (reason : Reason) (d : Duration) (success : Bool) (t : Time)
      (m : Entries K)
      → eq.beq p.scope k ≡ false
      → (report (some p) reason d success t m).1 k ≡ m k
  unfolding report
  report_others p k reason d success t m ne = elim (Bool-cases p.reported) [
    | inl old ↦ simp old
    | inr new ↦ simp new (settle_others success reason d p.scope k t m ne)
  ]

  answer_by_entry :
      (k : K) (now : Time) (m m' : Entries K) → m k ≡ m' k → (admit k now m).1 ≡ (admit k now m').1
  unfolding admit remove_stale
  answer_by_entry k now m m' e = rw e (answer_of (fresh_or_none now (m' k)) k now _ _)

  -- Nor does a report on a permit of one scope, with any reason, window and result.
  pub report_isolated :
      (p : Permit K) (k : K) (reason : Reason) (d : Duration) (success : Bool) (t now : Time)
      (m : Entries K)
      → p.scope ≢ k
      → (admit k now (report (some p) reason d success t m).1).1 ≡ (admit k now m).1
  report_isolated p k reason d success t now m ne =
      answer_by_entry k now _ m (report_others p k reason d success t m (differs p.scope k ne))
