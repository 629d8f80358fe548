-- ===== src/Emitter/Framing.antt =====
-- Whatever is called on an emitter, in whatever order, the events that the sink accepts form one
-- well-framed stream (emitter.go).
use mathlib.Core.Path.{subst}
use kaana.Prelude.{
  ltb, str_eq, ◌||◌, not, ◌==◌, ℕ, String, ◌≡◌, refl, Bool, true, false, Option, none, some, List,
  [], ◌∷◌, arith, length, ◌∙◌, ap, sym,
}
use kaana.Prelude.Int.{pos, ltb_ℤ}
use kaana.Prelude.Time.{Time}
use kaana.Contract.{new_timestamp}
use kaana.UsageEstimate.{UsageEstimate, add_delta, add_tool_call, is_empty}
use kaana.Contract.Ids.{pinned, model_id, model_id_valid}
use kaana.Emitter.{
  Emitter, StreamEvent, Body, delta, usage, audio, done, failed, emit, and_then, commit,
  max_audio_chunk_bytes, audio_media_type, new_emitter, serving, mark_output, begin_attempt,
  emit_delta, emit_tool_call, emit_usage, emit_audio, emit_switch, finish_with_done,
  finish_with_error,
}
use kaana.Emitter.Calls.{
  Call, serves, begins, deltas, tool_calls, usages, audios, switches, finishes, fails, call, run,
}
use kaana.Emitter.Grammar.{before, streaming, ended, next_phase}
use kaana.Emitter.Streams.{phase, IsFramed, and_then_keeps, test_keeps, unless_keeps}
use kaana.Emitter.Commits.{
  emit-IsFramed, emit-IsLive, commit-Committed, Committed-then, send_or_hold-IsFramed,
  close-IsFramed,
}

module _ {S : Type 0} (sink : S → StreamEvent → S × Bool) where
  -- An output event, after a commit, and what the method then notes of it.
  output-IsFramed :
      (body : Body) (e : Emitter S) (note : UsageEstimate → UsageEstimate)
      → next_phase streaming body ≡ some streaming
      → IsFramed e
      → IsFramed
          (and_then (commit sink e) (λ e1.
            and_then
              (emit sink body e1)
              (λ e2. (record e2 { estimate = note e2.estimate }, none)))).0
  output-IsFramed body e note n f =
      Committed-then sink (commit sink e) _ (commit-Committed sink e f) (λ e1 l1.
        and_then_keeps IsFramed (emit sink body e1)
          (λ e2. (record e2 { estimate = note e2.estimate }, none))
          (emit-IsLive sink body e1 n l1).0 (λ e2 f2. f2))

  not_started :
      (body : Body) (e : Emitter S)
      → next_phase before body ≡ some before
      → e.started ≡ false
      → IsFramed e
      → IsFramed (emit sink body e).0
  not_started body e n s f =
      emit-IsFramed sink body e
        (λ t.
          subst (λ p. next_phase p body ≡ some p)
            (ap (phase false) (sym s) ∙ ap (λ b. phase b e.started) (sym t)) n)
        f

  call-IsFramed :
      (encode : List ℕ → String) (c : Call) (e : Emitter S)
      → IsFramed e
      → IsFramed (call sink encode c e).0
  unfolding call serving begin_attempt emit_delta emit_tool_call emit_usage emit_audio emit_switch
      finish_with_done finish_with_error mark_output
  call-IsFramed encode (serves slug deployment) e f = (f.0, (tt, tt))
  call-IsFramed encode (begins resolved at) e f =
      test_keeps IsFramed (e.started || e.attempt_started) _ _ f
        (test_keeps IsFramed (not (pinned resolved)) _ _ f (f.0, (f.1.0, tt)))
  call-IsFramed encode (deltas i channel text now) e f =
      test_keeps IsFramed e.attempt_started _ _
        (test_keeps IsFramed (ltb_ℤ i (pos 0)) _ _ f (
          test_keeps IsFramed (is_empty text) _ _ (send_or_hold-IsFramed sink _ e tt f) (
            output-IsFramed (delta i channel text) (mark_output now e) (add_delta channel text) refl
              f)))
        f
  call-IsFramed encode (tool_calls t) e f =
      test_keeps IsFramed e.attempt_started _ _
        (test_keeps IsFramed (is_empty t.id) _ _ f
          (output-IsFramed _ e (add_tool_call t.name t.arguments_delta) refl f))
        f
  call-IsFramed encode (usages units source) e f =
      test_keeps IsFramed e.attempt_started _ _
        (test_keeps IsFramed (length units == 0) _ _ f
          (send_or_hold-IsFramed sink (usage e.deployment units source) e tt f))
        f
  call-IsFramed encode (audios i media_type bytes now) e f =
      test_keeps IsFramed e.attempt_started _ _
        (test_keeps IsFramed
          (ltb_ℤ i (pos 0) || (length bytes == 0 || ltb max_audio_chunk_bytes (length bytes))) _ _ f
          (test_keeps IsFramed (not (audio_media_type media_type)) _ _ f (
            output-IsFramed (audio i media_type (encode bytes)) (mark_output now e)
              (λ u. record u { output_delivered = true }) refl f)))
        f
  call-IsFramed encode (switches reason requested from to at) e f =
      unless_keeps IsFramed e.started _ _ f (λ s.
        test_keeps IsFramed (str_eq from.model_reference to.model_reference) _ _
          (not_started _ e refl s f)
          (test_keeps IsFramed
            (str_eq (model_id from.model_reference) (model_id to.model_reference)) _ _ f
            (test_keeps IsFramed (not (model_id_valid requested)) _ _ f
              (not_started _ e refl s f))))
  call-IsFramed encode (finishes reason at) e f =
      test_keeps IsFramed e.attempt_started _ _
        (Committed-then sink (commit sink e) _ (commit-Committed sink e f) (λ e1 l.
          close-IsFramed sink (done e1.generation_id reason (new_timestamp at)) e1
            (λ _. rw l.1 refl) l.0))
        f
  call-IsFramed encode (fails failure) e f =
      test_keeps IsFramed e.terminated _ _ f
        (close-IsFramed sink (failed failure) e (λ _. failing e.started) f)
    where
      failing : (b : Bool) → next_phase (phase false b) (failed failure) ≡ some ended
      failing true = refl
      failing false = refl

  calls-IsFramed :
      (encode : List ℕ → String) (cs : List Call) (e : Emitter S)
      → IsFramed e
      → IsFramed (run sink encode cs e)
  unfolding run
  calls-IsFramed encode [] e f = f
  calls-IsFramed encode (c ∷ cs) e f =
      calls-IsFramed encode cs (call sink encode c e).0 (call-IsFramed encode c e f)

  -- Whatever a request's attempts call on a new emitter, in whatever order and however often the
  -- sink fails, the events that the sink accepted carry the request's id and strictly rising
  -- sequence numbers; where the sink never failed, they are numbered from 0 with no gap and are
  -- route switches, then at most one start event, then output and usage, then at most one terminal
  -- event, and they stand at the phase that the emitter's flags name.
  pub run-IsFramed :
      (encode : List ℕ → String) (s : S) (request_id : String) (generation_id : Option String)
      (admitted_at : Time) (estimate : UsageEstimate) (cs : List Call)
      → IsFramed (run sink encode cs (new_emitter s request_id generation_id admitted_at estimate))
  unfolding new_emitter
  run-IsFramed encode s request_id generation_id admitted_at estimate cs =
      calls-IsFramed encode cs (new_emitter s request_id generation_id admitted_at estimate) (
        record {
          named = tt;
          rising = omega arith;
          ordered = λ _. refl;
          numbered = λ _. tt;
          counted = λ _ _. refl;
        },
        (tt, tt),
      )
