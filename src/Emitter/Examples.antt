-- ===== src/Emitter/Examples.antt =====
-- The emitter's theorems at one request: an attempt that is replaced, then one that answers.
use kaana.Prelude.{none, ◌≡◌, refl, false, ℕ, String, Bool, true, some, List, [], ◌∷◌, ◌++◌}
use kaana.Prelude.Int.{pos}
use kaana.Contract.{
  output_text, finish_stop, switch_provider_error, provider_reported, output_tokens,
}
use kaana.UsageEstimate.{empty_estimate}
use kaana.Emitter.{Emitter, StreamEvent, Route, new_emitter}
use kaana.Emitter.Calls.{Call, serves, begins, deltas, usages, switches, finishes, run}
use kaana.Contract.Ids.{pinned}
use kaana.Emitter.{serving, begin_attempt, emit_delta, send_or_hold}
use kaana.Emitter.Calls.{call}
use kaana.Emitter.Deferral.{IsUntouched, run-IsUntouched}
use kaana.Emitter.Streams.{IsFramed}
use kaana.Emitter.Framing.{run-IsFramed}

abbrev keep_all : List StreamEvent → StreamEvent → List StreamEvent × Bool
keep_all s e = (s ++ e ∷ [], true)

abbrev no_text : List ℕ → String
no_text bytes = ""

abbrev route : String → Route
route id = record { deployment_id = id; provider = "p"; model_reference = "a/b@1" }

abbrev request : List Call
request =
    serves "p" "d1"
    ∷ begins "a/b@1" 5_000_000
    ∷ deltas (pos 0) output_text "" 6_000_000
    ∷ switches switch_provider_error "a/b" (route "d1") (route "d2") 7_000_000
    ∷ serves "p" "d2"
    ∷ begins "a/b@1" 8_000_000
    ∷ deltas (pos 0) output_text "hello" 9_000_000
    ∷ usages (record { unit = output_tokens; quantity = 1 } ∷ []) provider_reported
    ∷ finishes finish_stop 9_500_000
    ∷ deltas (pos 0) output_text "late" 9_600_000
    ∷ []

run-IsFramed_example :
    IsFramed
      (run keep_all no_text request (new_emitter [] "r1" (some "g1") 4_000_000 empty_estimate))
run-IsFramed_example =
    run-IsFramed keep_all no_text [] "r1" (some "g1") 4_000_000 empty_estimate request

abbrev fresh : Emitter (List StreamEvent)
fresh = new_emitter [] "r1" (some "g1") 4_000_000 empty_estimate

-- An attempt that opens, holds an empty delta and fails.
abbrev failed_attempt : List Call
failed_attempt = begins "a/b@1" 5_000_000 ∷ deltas (pos 0) output_text "" 6_000_000 ∷ []

run-IsUntouched_example :
    IsUntouched fresh (serving "p" "d2" (run keep_all no_text failed_attempt fresh))
    × ((serving "p" "d2" (run keep_all no_text failed_attempt fresh)).pending ≡ [])
    × ((serving "p" "d2" (run keep_all no_text failed_attempt fresh)).pending_start ≡ none)
    × ((serving "p" "d2" (run keep_all no_text failed_attempt fresh)).attempt_started ≡ false)
unfolding run call begin_attempt emit_delta send_or_hold new_emitter pinned
run-IsUntouched_example =
    run-IsUntouched keep_all no_text failed_attempt fresh "p" "d2" (tt, (tt, tt)) refl
