-- ===== src/Emitter/Calls.antt =====
-- Sequences of calls on one emitter (emitter.go): what the executor and the adapters may do with it.
use kaana.Prelude.{
  ℕ, ◌+◌, String, ◌≡◌, refl, Bool, true, false, none, some, List, [], ◌∷◌, ◌++◌, if◌then◌else◌,
}
use kaana.Prelude.Int.{ℤ}
use kaana.Prelude.Time.{Time}
use kaana.Contract.{
  DeltaChannel, FinishReason, RouteSwitchReason, UsageQuantity, UsageSource, Error,
}
use kaana.Emitter.{
  Emitter, StreamEvent, Body, Route, ToolCallDelta, Sent, follows_terminal, sink_error, offered,
  emit, serving, begin_attempt, emit_delta, emit_tool_call, emit_usage, emit_audio, emit_switch,
  finish_with_done, finish_with_error,
}

pub data Call : Type 0 where
  serves : (slug deployment : String) → Call
  begins : (resolved : String) (at : Time) → Call
  deltas : (output_index : ℤ) (channel : DeltaChannel) (text : String) (now : Time) → Call
  tool_calls : ToolCallDelta → Call
  usages : List UsageQuantity → UsageSource → Call
  audios : (output_index : ℤ) (media_type : String) (bytes : List ℕ) (now : Time) → Call
  switches : (reason : RouteSwitchReason) (requested : String) (from to : Route) (at : Time) → Call
  finishes : FinishReason → Time → Call
  fails : Error → Call

module _ {S : Type 0} (sink : S → StreamEvent → S × Bool) (encode : List ℕ → String) where
  unfoldable pub call : Call → Emitter S → Sent S
  call (serves slug deployment) e = (serving slug deployment e, none)
  call (begins resolved at) e = begin_attempt sink resolved at e
  call (deltas i channel text now) e = emit_delta sink i channel text now e
  call (tool_calls t) e = emit_tool_call sink t e
  call (usages units source) e = emit_usage sink units source e
  call (audios i media_type bytes now) e = emit_audio sink encode i media_type bytes now e
  call (switches reason requested from to at) e = emit_switch sink reason requested from to at e
  call (finishes reason at) e = finish_with_done sink reason at e
  call (fails failure) e = finish_with_error sink failure e

  unfoldable pub run : List Call → Emitter S → Emitter S
  run [] e = e
  run (c ∷ cs) e = run cs (call c e).0

module _ {S : Type 0} where
  -- The event that `emit` sends.
  abbrev pub event_of : Body → Emitter S → StreamEvent
  event_of body e = record { request_id = e.request_id; seq = e.sequence; body = body }

-- The three ways in which a send can end.
pub data Emitted {S : Type 0} (body : Body) (e : Emitter S) (r : Sent S) : Type 0 where
  refused :
      e.terminated ≡ true
      → r ≡ (record e { sequence = e.sequence + 1 }, some follows_terminal)
      → Emitted body e r
  accepted :
      (s : S)
      → e.terminated ≡ false
      → r ≡ (
        record e {
          sequence = e.sequence + 1;
          sink_state = s;
          written = e.written ++ event_of body e ∷ [];
        },
        none,
      )
      → Emitted body e r
  lost :
      (s : S)
      → e.terminated ≡ false
      → r ≡ (
        record e { sequence = e.sequence + 1; sink_state = s; sink_failed = true },
        some sink_error,
      )
      → Emitted body e r

module _ {S : Type 0} (sink : S → StreamEvent → S × Bool) where
  offered-Emitted :
      (body : Body) (e : Emitter S) (b : Bool) (s : S)
      → e.terminated ≡ false
      → Emitted body e (offered sink b s (event_of body e) (record e { sequence = e.sequence + 1 }))
  unfolding offered
  offered-Emitted body e true s f = accepted s f refl
  offered-Emitted body e false s f = lost s f refl

  pub emit-Emitted : (body : Body) (e : Emitter S) → Emitted body e (emit sink body e)
  unfolding emit
  emit-Emitted body e = choose e.terminated refl
    where
      next : Emitter S
      next = record e { sequence = e.sequence + 1 }

      choose :
          (t : Bool)
          → e.terminated ≡ t
          → Emitted body e (
              if t
              then (next, some follows_terminal)
              else (let (s, taken) = sink e.sink_state (event_of body e) in
                  offered sink taken s (event_of body e) next))
      choose true t = refused t refl
      choose false f =
          let r = sink e.sink_state (event_of body e) in offered-Emitted body e r.1 r.0 f
