-- ===== src/Executor/Runs.antt =====
-- internal/kaana/executor.go: the loop of execute from its start to its end.
use kaana.Prelude.{
  ℕ, zero, suc, ◌+◌, ◌-◌, ◌*◌, ◌≤◌, ◌≡◌, refl, Bool, true, false, Option, none, some, List, [], ◌∷◌,
  arith, length,
}
use kaana.Retry.{RetryPolicy}
use kaana.Routes.{Candidate}
use kaana.Executor.{
  Surroundings, Run, Next, advance, again, leave, ends, Ending, turn, run_from, fresh_run, finish,
}
use kaana.Executor.Turns.{output_seen, calls, Held, start, Persists, IsCareful, IsTurned}
use kaana.Executor.Rounds.{retries_made, turn-IsTurned}

row : (l m : ℕ) → suc l * m ≡ l * m + m
row l m = grind arith

module _ {C W : Type 0} (s : Surroundings C W) (p : RetryPolicy) (decisions : Bool)
    (persists : Persists s) where
  abbrev made : Run C W → ℕ
  made = retries_made s p decisions persists

  -- The turns that are left: those of the route whose turn it is, and all of the routes behind it.
  abbrev turns_left : List (Candidate C) → ℕ → ℕ
  turns_left [] used = 0
  turns_left (_ ∷ candidates) used =
      length candidates * suc p.max_retries_per_route + suc (p.max_retries_per_route - used)

  -- How a run ends that starts with `n` calls made and `turns` turns left.
  record IsEnded (n turns : ℕ) (result : Option (Run C W × Ending C)) : Type 0 where
    run : Run C W
    ending : Ending C
    ended : result ≡ some (run, ending)
    held : Held none run.actions
    few : calls run.actions ≤ n + turns

  abbrev ended_here :
      (n turns : ℕ) (r : Run C W) (e : Ending C)
      → Held none r.actions
      → calls r.actions ≤ n + turns
      → IsEnded n turns (some (r, e))
  ended_here n turns r e h k = record { run = r; ending = e; ended = refl; held = h; few = k }

  later :
      {n m turns others : ℕ} {result : Option (Run C W × Ending C)}
      → n + turns ≤ m + others
      → IsEnded n turns result
      → IsEnded m others result
  later h e = record {
    run = e.run;
    ending = e.ending;
    ended = e.ended;
    held = e.held;
    few = omega (arith, h, e.few);
  }

  made-again : (r : Run C W) {k : ℕ} → r.retry_same ≡ true → r.route_retries ≡ k → made r ≡ k
  made-again r h k = ground (arith, h, k)

  made-advance : (r : Run C W) → r.retry_same ≡ false → made r ≡ 0
  made-advance r h = ground (arith, h)

  left-advance :
      (candidates : List (Candidate C)) (c : Candidate C) (used : ℕ)
      → suc (turns_left candidates 0) ≤ turns_left (c ∷ candidates) used
  left-advance [] c used = omega arith
  left-advance (d ∷ candidates) c used =
      omega (arith, row (length candidates) (suc p.max_retries_per_route))

  left-all :
      (candidates : List (Candidate C))
      → turns_left candidates 0 ≤ length candidates * suc p.max_retries_per_route
  left-all [] = omega arith
  left-all (d ∷ candidates) = omega (arith, row (length candidates) (suc p.max_retries_per_route))

  -- The loop with this fuel ends as it should, from wherever it starts.
  abbrev Ends : ℕ → Type 0
  Ends fuel =
      (index : ℕ) (candidates : List (Candidate C)) (r : Run C W)
      → turns_left candidates (made r) ≤ fuel
      → Held none r.actions
      → IsCareful s p decisions persists r
      → IsEnded (calls r.actions) (turns_left candidates (made r))
          (run_from s p decisions fuel index candidates r)

  after_turn :
      (fuel index n used : ℕ) (c : Candidate C) (candidates : List (Candidate C)) (o : Run C W)
      (how : Next C)
      → IsTurned s p decisions persists used (suc n) (o, how)
      → turns_left (c ∷ candidates) used ≤ suc fuel
      → Ends fuel
      → IsEnded n (turns_left (c ∷ candidates) used) (elim how [
        | advance ↦ run_from s p decisions fuel (index + 1) candidates o
        | again ↦ run_from s p decisions fuel index (c ∷ candidates) o
        | leave ↦ some (o, finish s p decisions o)
        | ends e ↦ some (o, e)
      ])
  after_turn fuel index n used c candidates o leave t enough rec =
      ended_here n _ o _ t.held (omega (arith, t.few))
  after_turn fuel index n used c candidates o (ends e) t enough rec =
      ended_here n _ o e t.held (omega (arith, t.few))
  after_turn fuel index n used c candidates o advance t enough rec =
      let none_made = made-advance o (t.moved_on refl) in
      let fewer = left-advance candidates c used in
      later (rw none_made (omega (arith, t.few, fewer))) (
        rec (index + 1) candidates o (rw none_made (omega (arith, enough, fewer))) t.held
          (t.careful refl))
  after_turn fuel index n used c candidates o again t enough rec =
      let (counted, pending, room) = t.counted refl in
      let one_more = made-again o pending counted in
      later (rw one_more (omega (arith, t.few, room))) (
        rec index (c ∷ candidates) o (rw one_more (omega (arith, enough, room))) t.held
          (t.careful refl))

  run_from-IsEnded : (fuel : ℕ) → Ends fuel
  unfolding run_from
  run_from-IsEnded fuel index [] r enough h careful =
      ended_here (calls r.actions) 0 r _ h (omega arith)
  run_from-IsEnded zero index (c ∷ candidates) r enough h careful = absurd (omega (arith, enough))
  run_from-IsEnded (suc fuel) index (c ∷ candidates) r enough h careful =
      after_turn fuel index (calls r.actions) (made r) c candidates (turn s p decisions index c r).0
        (turn s p decisions index c r).1
        (turn-IsTurned s p decisions persists index c r h (omega arith) careful) enough
        (run_from-IsEnded fuel)

  -- The loop over the candidates of a request ends within as many turns as there are candidates times
  -- one more than the retries of a route, with no more calls upstream than that; every permit that it
  -- was granted was reported on once, before the next was asked for, and no call upstream followed one
  -- whose output had reached the customer.
  pub run_from-Held :
      (world : W) (candidates : List (Candidate C)) (fuel : ℕ)
      → length candidates * suc p.max_retries_per_route ≤ fuel
      → (run : Run C W) × (ending : Ending C) × (run_from s p decisions fuel 0 candidates
            (fresh_run s p decisions world)
          ≡ some (run, ending))
        × Held none run.actions
        × (calls run.actions ≤ length candidates * suc p.max_retries_per_route)
  unfolding output_seen calls
  run_from-Held world candidates fuel enough =
      let e =
        run_from-IsEnded fuel 0 candidates (fresh_run s p decisions world)
          (omega (arith, enough, left-all candidates)) start
          (record { marked = λ q. cc; kept = λ q. cc }) in
      (e.run, e.ending, e.ended, e.held, omega (arith, e.few, left-all candidates))
