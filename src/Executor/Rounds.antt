-- ===== src/Executor/Rounds.antt =====
-- internal/kaana/executor.go: a whole turn of the loop of execute.
use kaana.Prelude.{
  ℕ, String, suc, ◌≤◌, ◌≡◌, refl, Bool, true, false, not, ◌&&◌, Option, none, some, List, arith,
  if◌then◌else◌, if_holds,
}
use kaana.Retry.{RetryPolicy}
use kaana.Routes.{Route, Candidate}
use kaana.Executor.{
  Surroundings, Run, advance, Attempt, Ending, not_attributable, SwitchAnswer, sent, too_late,
  sink_failed, answered, has_ceiling, settled, refused, credential_limited, announce, replace,
  is_committed, admitted_turn, ask, turn, is_customer,
}
use kaana.Executor.Turns.{
  output_seen, calls, Held, takes, moves, Persists, IsCareful, IsTurned, IsReady, leave-IsTurned,
  ends-IsTurned, advance-IsTurned, report_on-IsReady, done-IsTurned, with_credentials-IsTurned,
}

module _ {C W : Type 0} (s : Surroundings C W) (p : RetryPolicy) (decisions : Bool)
    (persists : Persists s) where
  answered-IsTurned :
      {used n : ℕ} (index : ℕ) (route : Route C) (a : Attempt C) (r : Run C W)
      (answer : SwitchAnswer)
      → IsReady s p decisions persists used n (some index) r
      → output_seen r.actions ≡ false
      → IsTurned s p decisions persists used n (answered s p decisions index route a r answer)
  unfolding answered output_seen calls
  answered-IsTurned index route a r sent h unseen =
      with_credentials-IsTurned s p decisions persists index route _
        (record {
          none_pending = h.none_pending;
          made = h.made;
          permits = moves h.permits;
          room = h.room;
          careful_so_far = record { marked = λ q. cc; kept = λ q. cc };
        })
        unseen
  answered-IsTurned index route a r too_late h unseen =
      let told = report_on-IsReady s p decisions persists index route not_attributable r h in
      leave-IsTurned s p decisions persists _ told.permits (omega (arith, told.room))
  answered-IsTurned index route a r sink_failed h unseen =
      done-IsTurned s p decisions persists _ _
        (report_on-IsReady s p decisions persists index route not_attributable r h)

  moved-IsReady :
      {used n : ℕ} {permit : Option ℕ} (r : Run C W) (w : W)
      → IsReady s p decisions persists used n permit r
      → output_seen r.actions ≡ false
      → IsReady s p decisions persists used n permit (record r { world = w })
  moved-IsReady r w h unseen = record {
    none_pending = h.none_pending;
    made = h.made;
    permits = h.permits;
    room = h.room;
    careful_so_far = record { marked = λ q. cc; kept = λ q. cc };
  }

  replace-IsTurned :
      {used n : ℕ} (retrying : Bool) (index : ℕ) (route : Route C) (r : Run C W)
      (abandoned : Option (Attempt C))
      → IsReady s p decisions persists used n (some index) r
      → output_seen r.actions ≡ false
      → IsTurned s p decisions persists used n
          (replace s p decisions retrying index route r abandoned)
  unfolding replace announce
  replace-IsTurned retrying index route r none h unseen =
      with_credentials-IsTurned s p decisions persists index route r h unseen
  replace-IsTurned {used} {n} retrying index route r (some a) h unseen =
      if_holds (IsTurned s p decisions persists used n) retrying
        (λ e. with_credentials-IsTurned s p decisions persists index route r h unseen)
        (λ e. answered-IsTurned index route a _ _ (moved-IsReady r _ h unseen) unseen)

  -- Output that reached the customer keeps an attempt abandoned, and so the turn from moving on.
  unseen_unless_committed :
      (r : Run C W)
      → IsCareful s p decisions persists r
      → is_committed s p decisions r.world r.abandoned ≡ false
      → output_seen r.actions ≡ false
  unfolding is_committed
  unseen_unless_committed r h e = choose (output_seen r.actions) refl
    where
      choose : (b : Bool) → output_seen r.actions ≡ b → output_seen r.actions ≡ false
      choose true q = let (a, k) = h.kept q in absurd (ground (arith, k, h.marked q, e))
      choose false q = q

  skipped-IsTurned :
      {used n : ℕ} (r : Run C W) (ids : List String)
      → IsReady s p decisions persists used n none r
      → IsTurned s p decisions persists used n (record r { skipped = ids }, advance)
  skipped-IsTurned r ids h =
      advance-IsTurned s p decisions persists _ h.permits (omega (arith, h.room)) h.none_pending
        (record { marked = h.careful_so_far.marked; kept = h.careful_so_far.kept })

  admitted_turn-IsTurned :
      {used n : ℕ} (retrying : Bool) (index : ℕ) (c : Candidate C) (r : Run C W)
      → IsReady s p decisions persists used n (some index) r
      → IsTurned s p decisions persists used n (admitted_turn s p decisions retrying index c r)
  unfolding admitted_turn
  admitted_turn-IsTurned {used} {n} retrying index c r h =
      let told = report_on-IsReady s p decisions persists index c.route not_attributable r h in
      if_holds (IsTurned s p decisions persists used n) (not (s.resolves r.world c.route))
        (λ e. skipped-IsTurned _ _ told)
        (λ e.
          if_holds (IsTurned s p decisions persists used n)
            (has_ceiling c.funding_ceiling
              && not (is_customer c.route)
              && not (s.within_ceiling r.world c))
            (λ e. skipped-IsTurned _ _ told)
            (λ e.
              if_holds (IsTurned s p decisions persists used n)
                (is_committed s p decisions r.world r.abandoned)
                (λ e.
                  leave-IsTurned s p decisions persists _ told.permits (omega (arith, told.room)))
                (λ committed.
                  if_holds (IsTurned s p decisions persists used n)
                    (not (s.translates r.world c.route))
                    (λ e. done-IsTurned s p decisions persists _ _ told)
                    (λ e.
                      replace-IsTurned retrying index c.route r r.abandoned h
                        (unseen_unless_committed r h.careful_so_far committed)))))

  ask-persists :
      (route : Route C) (w : W)
      → s.started w ≡ true
      → s.started (ask s p decisions route w).0 ≡ true
  unfolding ask
  ask-persists route w h =
      if_holds (λ (o : W × Bool). s.started o.0 ≡ true) (is_customer route)
        (λ e. persists.over_customer w route h) (λ e. persists.over_admit w route h)

  -- The retries that were made of the route whose turn it is.
  abbrev pub retries_made : Run C W → ℕ
  retries_made r = if r.retry_same then r.route_retries else 0

  pub turn-IsTurned :
      {n : ℕ} (index : ℕ) (c : Candidate C) (r : Run C W)
      → Held none r.actions
      → suc (calls r.actions) ≤ n
      → IsCareful s p decisions persists r
      → IsTurned s p decisions persists (retries_made r) n (turn s p decisions index c r)
  unfolding turn output_seen calls
  turn-IsTurned {n} index c r h room careful =
      if_holds (IsTurned s p decisions persists (retries_made r) n)
        (ask s p decisions c.route r.world).1
        (λ e. admitted_turn-IsTurned r.retry_same index c _ (record {
          none_pending = refl;
          made = refl;
          permits = takes h;
          room = room;
          careful_so_far = record { marked = asked.marked; kept = asked.kept };
        }))
        (λ e.
          if_holds (IsTurned s p decisions persists (retries_made r) n) (is_customer c.route)
            (λ e.
              ends-IsTurned s p decisions persists _ (ending r.abandoned) h (omega (arith, room)))
            (λ e.
              advance-IsTurned s p decisions persists _ h (omega (arith, room)) refl
                (record { marked = asked.marked; kept = asked.kept })))
    where
      ending : Option (Attempt C) → Ending C
      ending abandoned = elim abandoned [
        | some a ↦ settled a (some credential_limited)
        | none ↦ refused credential_limited
      ]

      asked :
          IsCareful s p decisions persists
            (record r { world = (ask s p decisions c.route r.world).0 })
      asked = record {
        marked = λ q. ask-persists c.route r.world (careful.marked q);
        kept = careful.kept;
      }
