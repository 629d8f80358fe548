-- ===== src/Emitter/Deferral.antt =====
-- What a replaced attempt leaves behind: nothing that the customer could have seen (emitter.go).
use kaana.Prelude.{
  ℕ, String, ◌≡◌, refl, sym, ◌∙◌, Bool, true, false, Option, none, some, List, [], ◌∷◌, ◌++◌, arith,
  if◌then◌else◌, true≢false, length, ◌||◌, ◌==◌, not, ltb,
}
use kaana.Prelude.Int.{pos, ltb_ℤ}
use kaana.Prelude.Time.{Time}
use kaana.UsageEstimate.{UsageEstimate, add_delta, add_tool_call, is_empty}
use kaana.Contract.Ids.{pinned}
use kaana.Emitter.{
  audio, max_audio_chunk_bytes, audio_media_type, Emitter, StreamEvent, Body, Sent, delta, usage,
  emit, send_or_hold, commit, release, emit_all, and_then, serving, begin_attempt, emit_delta,
  emit_tool_call, emit_usage, emit_audio, mark_output,
}
use kaana.Emitter.Calls.{
  Call, serves, begins, deltas, tool_calls, usages, audios, switches, finishes, fails, call, run,
}
use kaana.Emitter.Streams.{and_then_keeps, test_keeps}
use kaana.Emitter.Commits.{emit-SameFlags}

-- The calls that an adapter makes in an attempt.
abbrev pub IsAdapter : Call → Type 0
IsAdapter (begins _ _) = Unit
IsAdapter (deltas _ _ _ _) = Unit
IsAdapter (tool_calls _) = Unit
IsAdapter (usages _ _) = Unit
IsAdapter (audios _ _ _ _) = Unit
IsAdapter _ = ⊥

abbrev pub AllAdapter : List Call → Type 0
AllAdapter [] = Unit
AllAdapter (c ∷ cs) = IsAdapter c × AllAdapter cs

-- What the customer and the settlement see of an emitter is the same.
pub record IsUntouched {S : Type 0} (e e' : Emitter S) : Type 0 where
  pub not_started : e.started ≡ false
  pub wrote : e'.written ≡ e.written
  pub numbered : e'.sequence ≡ e.sequence
  pub sunk : e'.sink_state ≡ e.sink_state
  pub counted : e'.estimate ≡ e.estimate

module _ {S : Type 0} (sink : S → StreamEvent → S × Bool) where
  -- A call has started the stream, or has touched nothing.
  abbrev Quiet : Emitter S → Emitter S → Type 0
  Quiet e e' = e'.started ≡ false → IsUntouched e e'

  same-IsUntouched : (e : Emitter S) → e.started ≡ false → IsUntouched e e
  same-IsUntouched e s = record {
    not_started = s;
    wrote = refl;
    numbered = refl;
    sunk = refl;
    counted = refl;
  }

  loud : (e e' : Emitter S) → e'.started ≡ true → Quiet e e'
  loud e e' t f = absurd (true≢false (sym t ∙ f))

  emit_keeps :
      (body : Body) (e : Emitter S) → e.started ≡ true → (emit sink body e).0.started ≡ true
  emit_keeps body e t = (emit-SameFlags sink body e).starting ∙ t

  emit_all_keeps :
      (bs : List Body) (e : Emitter S) → e.started ≡ true → (emit_all sink bs e).0.started ≡ true
  unfolding emit_all
  emit_all_keeps [] e t = t
  emit_all_keeps (b ∷ bs) e t =
      and_then_keeps (λ x. x.started ≡ true) (emit sink b e) (λ e'. emit_all sink bs e')
        (emit_keeps b e t) (λ e' t'. emit_all_keeps bs e' t')

  release_starts :
      (o : Option Body) (held : List Body) (e : Emitter S)
      → Quiet e (release sink o held e).0
        × ((release sink o held e).1 ≡ none → (release sink o held e).0.started ≡ true)
  unfolding release
  release_starts none held e = (same-IsUntouched e, λ q. ground arith)
  release_starts (some b) held e =
      let t =
        and_then_keeps (λ x. x.started ≡ true) (emit sink b first) (λ e'. emit_all sink held e')
          (emit_keeps b first refl) (λ e' t'. emit_all_keeps held e' t') in
      (loud e _ t, λ q. t)
    where
      first : Emitter S
      first = record e { started = true; pending_start = none; pending = [] }

  commit_starts :
      (e : Emitter S)
      → Quiet e (commit sink e).0 × ((commit sink e).1 ≡ none → (commit sink e).0.started ≡ true)
  unfolding commit
  commit_starts e = choose e.started refl
    where
      choose :
          (b : Bool)
          → e.started ≡ b
          → Quiet e (if b then (e, none) else release sink e.pending_start e.pending e).0
            × ((if b then (e, none) else release sink e.pending_start e.pending e).1 ≡ none
                → (if b then (e, none) else release sink e.pending_start e.pending e).0.started
                  ≡ true)
      choose true s = (same-IsUntouched e, λ q. s)
      choose false s = release_starts e.pending_start e.pending e

  -- After a commit that returned nil the stream has started, and stays so.
  committed-Quiet :
      (e : Emitter S) (m : Sent S) (k : Emitter S → Sent S)
      → Quiet e m.0 × (m.1 ≡ none → m.0.started ≡ true)
      → ((e1 : Emitter S) → e1.started ≡ true → (k e1).0.started ≡ true)
      → Quiet e (and_then m k).0
  committed-Quiet e (e1, none) k h next = loud e (k e1).0 (next e1 (h.1 refl))
  committed-Quiet e (e1, some x) k h next = h.0

  output-Quiet :
      (body : Body) (e : Emitter S) (note : UsageEstimate → UsageEstimate)
      → Quiet e
          (and_then (commit sink e) (λ e1.
            and_then
              (emit sink body e1)
              (λ e2. (record e2 { estimate = note e2.estimate }, none)))).0
  output-Quiet body e note = committed-Quiet e (commit sink e) _ (commit_starts e) (λ e1 t.
      and_then_keeps (λ x. x.started ≡ true) (emit sink body e1)
        (λ e2. (record e2 { estimate = note e2.estimate }, none)) (emit_keeps body e1 t)
        (λ e2 t2. t2))

  -- An output call marks the time of its output before it commits.
  marked-Quiet : (now : Time) (e e' : Emitter S) → Quiet (mark_output now e) e' → Quiet e e'
  unfolding mark_output
  marked-Quiet now e e' h f =
      let u = h f in
      record {
        not_started = u.not_started;
        wrote = u.wrote;
        numbered = u.numbered;
        sunk = u.sunk;
        counted = u.counted;
      }

  hold-Quiet : (body : Body) (e : Emitter S) → Quiet e (send_or_hold sink body e).0
  unfolding send_or_hold
  hold-Quiet body e = choose e.started refl
    where
      choose :
          (b : Bool)
          → e.started ≡ b
          → Quiet e
              (if b
                then emit sink body e
                else (record e { pending = e.pending ++ body ∷ [] }, none)).0
      choose true s = loud e _ (emit_keeps body e s)
      choose false s = λ f. record {
        not_started = s;
        wrote = refl;
        numbered = refl;
        sunk = refl;
        counted = refl;
      }

  call-Quiet :
      (encode : List ℕ → String) (c : Call) (e : Emitter S)
      → IsAdapter c
      → Quiet e (call sink encode c e).0
  unfolding call begin_attempt emit_delta emit_tool_call emit_usage emit_audio
  call-Quiet encode (begins resolved at) e a =
      test_keeps (Quiet e) (e.started || e.attempt_started) _ _ (same-IsUntouched e) (
        test_keeps (Quiet e) (not (pinned resolved)) _ _ (same-IsUntouched e) (λ f. record {
          not_started = f;
          wrote = refl;
          numbered = refl;
          sunk = refl;
          counted = refl;
        }))
  call-Quiet encode (deltas i channel text now) e a =
      test_keeps (Quiet e) e.attempt_started _ _
        (test_keeps (Quiet e) (ltb_ℤ i (pos 0)) _ _ (same-IsUntouched e) (
          test_keeps (Quiet e) (is_empty text) _ _ (hold-Quiet (delta i channel text) e) (
            marked-Quiet now e _
              (output-Quiet (delta i channel text) (mark_output now e) (add_delta channel text)))))
        (same-IsUntouched e)
  call-Quiet encode (tool_calls t) e a =
      test_keeps (Quiet e) e.attempt_started _ _
        (test_keeps (Quiet e) (is_empty t.id) _ _ (same-IsUntouched e)
          (output-Quiet _ e (add_tool_call t.name t.arguments_delta)))
        (same-IsUntouched e)
  call-Quiet encode (usages units source) e a =
      test_keeps (Quiet e) e.attempt_started _ _
        (test_keeps (Quiet e) (length units == 0) _ _ (same-IsUntouched e)
          (hold-Quiet (usage e.deployment units source) e))
        (same-IsUntouched e)
  call-Quiet encode (audios i media_type bytes now) e a =
      test_keeps (Quiet e) e.attempt_started _ _
        (test_keeps (Quiet e)
          (ltb_ℤ i (pos 0) || (length bytes == 0 || ltb max_audio_chunk_bytes (length bytes))) _ _
          (same-IsUntouched e)
          (test_keeps (Quiet e) (not (audio_media_type media_type)) _ _ (same-IsUntouched e) (
            marked-Quiet now e _ (
              output-Quiet (audio i media_type (encode bytes)) (mark_output now e)
                (λ u. record u { output_delivered = true })))))
        (same-IsUntouched e)
  call-Quiet encode (serves slug deployment) e a = absurd a
  call-Quiet encode (switches _ _ _ _ _) e a = absurd a
  call-Quiet encode (finishes _ _) e a = absurd a
  call-Quiet encode (fails _) e a = absurd a

  calls-Quiet :
      (encode : List ℕ → String) (cs : List Call) (e : Emitter S)
      → AllAdapter cs
      → Quiet e (run sink encode cs e)
  unfolding run
  calls-Quiet encode [] e a f = same-IsUntouched e f
  calls-Quiet encode (c ∷ cs) e a f =
      let rest = calls-Quiet encode cs (call sink encode c e).0 a.1 f in
      let first = call-Quiet encode c e a.0 rest.not_started in
      record {
        not_started = first.not_started;
        wrote = rest.wrote ∙ first.wrote;
        numbered = rest.numbered ∙ first.numbered;
        sunk = rest.sunk ∙ first.sunk;
        counted = rest.counted ∙ first.counted;
      }

  -- Whatever an adapter calls in an attempt that does not start the stream, the sink has seen none
  -- of it: no event was written, no sequence number used and nothing counted; and the next attempt
  -- begins with no event held.
  pub run-IsUntouched :
      (encode : List ℕ → String) (cs : List Call) (e : Emitter S) (slug deployment : String)
      → AllAdapter cs
      → (run sink encode cs e).started ≡ false
      → let next = serving slug deployment (run sink encode cs e) in
        IsUntouched e next
        × (next.pending ≡ [])
        × (next.pending_start ≡ none)
        × (next.attempt_started ≡ false)
  unfolding serving
  run-IsUntouched encode cs e slug deployment a f =
      let u = calls-Quiet encode cs e a f in
      (
        record {
          not_started = u.not_started;
          wrote = u.wrote;
          numbered = u.numbered;
          sunk = u.sunk;
          counted = u.counted;
        },
        refl,
        refl,
        refl,
      )
