-- ===== src/Executor/Turns.antt =====
-- internal/kaana/executor.go: what a turn of the loop of execute does with the permit of its
-- candidate, with the stream and with the retries of a route.
use mathlib.Core.Path.{subst}
use kaana.Prelude.{
  ℕ, suc, ◌+◌, ◌≤◌, ◌<◌, ◌≡◌, refl, ap, Bool, true, false, not, ◌||◌, Option, none, some, List, [],
  ◌∷◌, arith, if◌then◌else◌, if_holds, option_holds,
}
use kaana.Failure.{Failure, deployment_attributable}
use kaana.Retry.{RetryPolicy, next}
use kaana.Retry.Bounds.{next-IsGranted}
use kaana.Routes.{Route}
use kaana.Executor.{
  Surroundings, Run, Next, advance, again, leave, ends, Attempt, Ending, Report, served, failed,
  not_attributable, customer_outcome, Action, admitted, streamed, reported, switched, try_retry,
  move_on, moving, failed_attempt, after_stream, attempt_route_on, with_credentials, report_on,
  report_platform, is_customer,
}

-- Has a call upstream reached the customer?
unfoldable pub output_seen : List Action → Bool
output_seen [] = false
output_seen (streamed i b ∷ l) = b || output_seen l
output_seen (_ ∷ l) = output_seen l

-- How many calls upstream there were.
unfoldable pub calls : List Action → ℕ
calls [] = 0
calls (streamed i b ∷ l) = suc (calls l)
calls (_ ∷ l) = calls l

-- The order of the loop's actions, latest first, and the candidate whose permit is held after them:
-- a permit is taken only when none is held, a call upstream or a switch is made only for the candidate
-- whose permit is held, no call follows one that reached the customer, and a permit is reported on
-- once.
pub data Held : Option ℕ → List Action → Type 0 where
  start : Held none []
  takes : {i : ℕ} {l : List Action} → Held none l → Held (some i) (admitted i ∷ l)
  moves : {i : ℕ} {l : List Action} → Held (some i) l → Held (some i) (switched i ∷ l)
  runs :
      {i : ℕ} {b : Bool} {l : List Action}
      → Held (some i) l
      → output_seen l ≡ false
      → Held (some i) (streamed i b ∷ l)
  tells : {i : ℕ} {o : Report} {l : List Action} → Held (some i) l → Held none (reported i o ∷ l)

-- That output reached the customer is not undone by an admission or a report.
pub record Persists {C W : Type 0} (s : Surroundings C W) : Type 0 where
  pub over_customer :
      (w : W) (route : Route C) → s.started w ≡ true → s.started (s.admit_customer w route).0 ≡ true
  pub over_admit :
      (w : W) (route : Route C) → s.started w ≡ true → s.started (s.admit w route).0 ≡ true
  pub over_report :
      (w : W) (route : Route C) (o : Report)
      → s.started w ≡ true
      → s.started (s.report w route o) ≡ true

abbrev goes_on : {C : Type 0} → Next C → Bool
goes_on advance = true
goes_on again = true
goes_on _ = false

module _ {C W : Type 0} (s : Surroundings C W) (p : RetryPolicy) (decisions : Bool)
    (persists : Persists s) where
  -- Where output reached the customer, the stream has started and an attempt is abandoned.
  pub record IsCareful (r : Run C W) : Type 0 where
    pub marked : output_seen r.actions ≡ true → s.started r.world ≡ true
    pub kept : output_seen r.actions ≡ true → (a : Attempt C) × (r.abandoned ≡ some a)

  -- After a step that began with `used` retries of the route made, and may leave `n` calls at most.
  pub record IsTurned (used n : ℕ) (o : Run C W × Next C) : Type 0 where
    pub counted :
        o.1 ≡ again
        → (o.0.route_retries ≡ used + 1)
          × (o.0.retry_same ≡ true)
          × (used < p.max_retries_per_route)
    pub moved_on : o.1 ≡ advance → o.0.retry_same ≡ false
    pub held : Held none o.0.actions
    pub few : calls o.0.actions ≤ n
    pub careful : goes_on o.1 ≡ true → IsCareful o.0

  -- Before the call upstream of a turn.
  pub record IsReady (used n : ℕ) (permit : Option ℕ) (r : Run C W) : Type 0 where
    pub none_pending : r.retry_same ≡ false
    pub made : r.route_retries ≡ used
    pub permits : Held permit r.actions
    pub room : suc (calls r.actions) ≤ n
    pub careful_so_far : IsCareful r

  -- After it.
  pub record IsCalled (used n : ℕ) (permit : Option ℕ) (r : Run C W) : Type 0 where
    pub none_pending : r.retry_same ≡ false
    pub made : r.route_retries ≡ used
    pub permits : Held permit r.actions
    pub room : calls r.actions ≤ n
    pub marked : output_seen r.actions ≡ true → s.started r.world ≡ true

  pub leave-IsTurned :
      {used n : ℕ} (r : Run C W)
      → Held none r.actions
      → calls r.actions ≤ n
      → IsTurned used n (r, leave)
  leave-IsTurned r h k = record {
    counted = λ q. cc;
    moved_on = λ q. cc;
    held = h;
    few = k;
    careful = λ q. cc;
  }

  pub ends-IsTurned :
      {used n : ℕ} (r : Run C W) (e : Ending C)
      → Held none r.actions
      → calls r.actions ≤ n
      → IsTurned used n (r, ends e)
  ends-IsTurned r e h k = record {
    counted = λ q. cc;
    moved_on = λ q. cc;
    held = h;
    few = k;
    careful = λ q. cc;
  }

  pub advance-IsTurned :
      {used n : ℕ} (r : Run C W)
      → Held none r.actions
      → calls r.actions ≤ n
      → r.retry_same ≡ false
      → IsCareful r
      → IsTurned used n (r, advance)
  advance-IsTurned r h k q c = record {
    counted = λ e. cc;
    moved_on = λ e. q;
    held = h;
    few = k;
    careful = λ e. c;
  }

  try_retry-IsTurned :
      {used n : ℕ} (failure : Failure) (a : Attempt C) (r : Run C W)
      → IsCalled used n none r
      → output_seen r.actions ≡ false
      → IsTurned used n (try_retry s p decisions failure a r)
  unfolding try_retry
  try_retry-IsTurned {used} {n} failure a r h unseen =
      option_holds (IsTurned used n) (next s.draw p failure r.route_retries r.waited)
        (λ e.
          advance-IsTurned r h.permits h.room h.none_pending
            (record { marked = h.marked; kept = λ q. cc }))
        (λ wait e.
          let granted = next-IsGranted s.draw p failure r.route_retries r.waited wait e in
          if_holds (IsTurned used n) (s.wait_for_retry r.world wait).1
            (λ w. record {
              counted = λ q. (
                ap (λ k. k + 1) h.made,
                refl,
                subst (λ k. k < p.max_retries_per_route) h.made granted.retries_left,
              );
              moved_on = λ q. cc;
              held = h.permits;
              few = h.room;
              careful = λ q. record { marked = λ q. cc; kept = λ q. cc };
            })
            (λ w. leave-IsTurned _ h.permits h.room))

  report_on-IsCalled :
      {used n index : ℕ} (route : Route C) (outcome : Report) (r : Run C W)
      → IsCalled used n (some index) r
      → IsCalled used n none (report_on s p decisions index route outcome r)
  unfolding report_on output_seen calls
  report_on-IsCalled route outcome r h = record {
    none_pending = h.none_pending;
    made = h.made;
    permits = tells h.permits;
    room = h.room;
    marked = λ q. persists.over_report r.world route outcome (h.marked q);
  }

  -- The lane of a route's permit that is held after reportCustomerLimitOutcome.
  abbrev still_held : ℕ → Route C → Option ℕ
  still_held index route = if is_customer route then none else some index

  report_platform-IsCalled :
      {used n : ℕ} (index : ℕ) (route : Route C) (outcome : Report) (r : Run C W)
      → IsCalled used n (still_held index route) r
      → IsCalled used n none (report_platform s p decisions index route outcome r)
  unfolding report_platform
  report_platform-IsCalled {used} {n} index route outcome r h =
      if_holds (IsCalled used n none) (is_customer route)
        (λ e. subst (λ b. IsCalled used n (if b then none else some index) r) e h)
        (λ e.
          report_on-IsCalled route outcome r
            (subst (λ b. IsCalled used n (if b then none else some index) r) e h))

  move_on-IsTurned :
      {used n : ℕ} (failure : Failure) (a : Attempt C) (r : Run C W)
      → IsCalled used n none r
      → IsTurned used n (move_on s p decisions failure a r)
  unfolding move_on
  move_on-IsTurned {used} {n} failure a r h =
      if_holds (IsTurned used n) decisions (λ e. leave-IsTurned _ h.permits h.room)
        (λ e.
          if_holds (IsTurned used n) (s.started r.world)
            (λ e.
              advance-IsTurned (moving s p decisions a r) h.permits h.room h.none_pending
                (record { marked = h.marked; kept = λ q. (a, refl) }))
            (λ e.
              try_retry-IsTurned failure a (moving s p decisions a r)
                (record {
                  none_pending = h.none_pending;
                  made = h.made;
                  permits = h.permits;
                  room = h.room;
                  marked = h.marked;
                })
                (unseen e)))
    where
      unseen : s.started r.world ≡ false → output_seen r.actions ≡ false
      unseen e = choose (output_seen r.actions) refl
        where
          choose : (b : Bool) → output_seen r.actions ≡ b → output_seen r.actions ≡ false
          choose true q = absurd (cc (h.marked q, e))
          choose false q = q

  with_last-IsCalled :
      {used n : ℕ} {permit : Option ℕ} (a : Attempt C) (r : Run C W)
      → IsCalled used n permit r
      → IsCalled used n permit (record r { last = some a })
  with_last-IsCalled a r h = record {
    none_pending = h.none_pending;
    made = h.made;
    permits = h.permits;
    room = h.room;
    marked = h.marked;
  }

  after_stream-IsTurned :
      {used n : ℕ} (index : ℕ) (route : Route C) (err : Option Failure) (r : Run C W)
      → IsCalled used n (still_held index route) r
      → IsTurned used n (after_stream s p decisions index route err r)
  unfolding after_stream
  after_stream-IsTurned index route none r h =
      let told = report_platform-IsCalled index route served _ (with_last-IsCalled _ r h) in
      leave-IsTurned _ told.permits told.room
  after_stream-IsTurned {used} {n} index route (some failure) r h =
      let told =
        report_platform-IsCalled index route not_attributable _ (with_last-IsCalled _ r h) in
      if_holds (IsTurned used n) (s.is_cancellation r.world failure)
        (λ e. leave-IsTurned _ told.permits told.room)
        (λ e.
          if_holds (IsTurned used n) (not (deployment_attributable failure))
            (λ e. leave-IsTurned _ told.permits told.room)
            (λ e.
              move_on-IsTurned failure (failed_attempt s p decisions route failure r) _
                (report_platform-IsCalled index route failed r h)))

  abbrev after_call : ℕ → Route C → Run C W → Run C W
  after_call index route r = record r {
    world = (s.stream r.world route).0;
    abandoned = none;
    actions = streamed index (s.started (s.stream r.world route).0) ∷ r.actions;
  }

  after_call-IsCalled :
      {used n index : ℕ} (route : Route C) (r : Run C W)
      → IsReady used n (some index) r
      → output_seen r.actions ≡ false
      → IsCalled used n (some index) (after_call index route r)
  unfolding output_seen calls
  after_call-IsCalled route r h unseen = record {
    none_pending = h.none_pending;
    made = h.made;
    permits = runs h.permits unseen;
    room = h.room;
    marked = λ q. ground (arith, q, unseen);
  }

  told-IsCalled :
      {used n index : ℕ} (route : Route C) (outcome : Report) (r : Run C W) (customer : Bool)
      → IsCalled used n (some index) r
      → IsCalled used n
          (if customer then none else some index)
          (if customer then report_on s p decisions index route outcome r else r)
  told-IsCalled route outcome r true h = report_on-IsCalled route outcome r h
  told-IsCalled route outcome r false h = h

  attempt_route_on-IsTurned :
      {used n : ℕ} (index : ℕ) (route : Route C) (r : Run C W)
      → IsReady used n (some index) r
      → output_seen r.actions ≡ false
      → IsTurned used n (attempt_route_on s p decisions index route r)
  unfolding attempt_route_on
  attempt_route_on-IsTurned index route r h unseen =
      after_stream-IsTurned index route (s.stream r.world route).1 _ (
        told-IsCalled route (customer_outcome (s.stream r.world route).1) (after_call index route r)
          (is_customer route) (after_call-IsCalled route r h unseen))

  pub report_on-IsReady :
      {used n : ℕ} (index : ℕ) (route : Route C) (outcome : Report) (r : Run C W)
      → IsReady used n (some index) r
      → IsReady used n none (report_on s p decisions index route outcome r)
  unfolding report_on output_seen calls
  report_on-IsReady index route outcome r h = record {
    none_pending = h.none_pending;
    made = h.made;
    permits = tells h.permits;
    room = h.room;
    careful_so_far = record {
      marked = λ q. persists.over_report r.world route outcome (h.careful_so_far.marked q);
      kept = h.careful_so_far.kept;
    };
  }

  pub done-IsTurned :
      {used n : ℕ} (r : Run C W) (e : Ending C)
      → IsReady used n none r
      → IsTurned used n (r, ends e)
  done-IsTurned r e h = ends-IsTurned r e h.permits (omega (arith, h.room))

  pub with_credentials-IsTurned :
      {used n : ℕ} (index : ℕ) (route : Route C) (r : Run C W)
      → IsReady used n (some index) r
      → output_seen r.actions ≡ false
      → IsTurned used n (with_credentials s p decisions index route r)
  unfolding with_credentials
  with_credentials-IsTurned {used} {n} index route r h unseen =
      if_holds (IsTurned used n) (s.credentials r.world route).1
        (λ e. attempt_route_on-IsTurned index route _ found unseen)
        (λ e. done-IsTurned _ _ (report_on-IsReady index route not_attributable _ found))
    where
      found : IsReady used n (some index) (record r { world = (s.credentials r.world route).0 })
      found = record {
        none_pending = h.none_pending;
        made = h.made;
        permits = h.permits;
        room = h.room;
        careful_so_far = record { marked = λ q. cc; kept = λ q. cc };
      }
