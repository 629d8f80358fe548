-- ===== src/Emitter.antt =====
-- internal/kaana/emitter.go: the framing and the ordering of the events of one request. A method
-- takes the emitter and returns it with the error it would return, `none` for nil. The sink is the
-- caller's: a function of its own state that accepts an event or fails. `written` is not a field of
-- the source; it is the events that the sink accepted, in order, which the theorems speak of.
-- `schemaVersion`, which is constant, is not stamped. Sequence numbers are not bounded by 2^63.
pub mod Grammar
pub mod Calls
pub mod Streams
pub mod Commits
pub mod Framing
pub mod Deferral
mod Examples
use kaana.Prelude.{
  ℕ, ◌+◌, String, Bool, true, false, Option, none, some, List, [], ◌∷◌, ◌++◌, ◌&&◌, ◌||◌, not, ltb,
  ◌==◌, length, str_eq, if◌then◌else◌,
}
use kaana.Prelude.Int.{ℤ, pos, ltb_ℤ}
use kaana.Prelude.Time.{Time, Duration, is_zero, zero_time, sub_time}
use kaana.Contract.{
  DeltaChannel, FinishReason, RouteSwitchReason, UsageQuantity, UsageSource, Error, new_timestamp,
}
use kaana.Contract.Ids.{pinned, model_id, model_id_valid}
use kaana.UsageEstimate.{UsageEstimate, empty_estimate, is_empty, add_delta, add_tool_call}

-- The errors that the methods return, by the message that each one formats.
pub data EmitError : Type 0 where
  follows_terminal sink_error no_start_event second_start not_pinned : EmitError
  precedes_start negative_index no_tool_call_id no_units switch_too_late : EmitError
  revision_switch no_primary_line invalid_audio unsupported_audio : EmitError

-- provider.Route, as far as the emitter reads it.
pub record Route : Type 0 where
  pub deployment_id : String
  pub provider : String
  pub model_reference : String

-- contract.RouteSwitchDetail, by its scope; a switch of model is authorized by policy.
pub data SwitchDetail : Type 0 where
  deployment_scope : (to_provider model_reference to_deployment : String) → SwitchDetail
  model_scope : (to_provider requested_model from_reference to_reference : String) → SwitchDetail

pub data Body : Type 0 where
  start : (generation : Option String) (resolved provider : String) (started_at : ℕ) → Body
  delta : (output_index : ℤ) (channel : DeltaChannel) (text : String) → Body
  tool_call : (id : String) (name arguments : Option String) (complete : Bool) → Body
  usage : (deployment : String) (units : List UsageQuantity) (source : UsageSource) → Body
  audio : (output_index : ℤ) (media_type encoded : String) → Body
  route_switch : (reason : RouteSwitchReason) (detail : SwitchDetail) (occurred_at : ℕ) → Body
  done : (generation : Option String) (reason : FinishReason) (completed_at : ℕ) → Body
  failed : Error → Body

pub record StreamEvent : Type 0 where
  pub request_id : String
  pub seq : ℕ
  pub body : Body

-- provider.ToolCallDelta
pub record ToolCallDelta : Type 0 where
  pub id : String
  pub name : String
  pub arguments_delta : String
  pub complete : Bool

pub record Emitter (S : Type 0) : Type 0 where
  pub sink_state : S
  pub written : List StreamEvent
  pub request_id : String
  pub generation_id : Option String
  pub provider : String
  pub deployment : String
  pub sequence : ℕ
  pub started : Bool
  pub attempt_started : Bool
  -- The held start event and the events held behind it, whose sequence numbers are not stamped yet.
  pub pending_start : Option Body
  pub pending : List Body
  pub terminated : Bool
  pub sink_failed : Bool
  pub first_output_at : Time
  pub attempt_output_at : Time
  pub admitted_at : Time
  pub estimate : UsageEstimate

-- provider.MaxAudioChunkBytes
abbrev pub max_audio_chunk_bytes : ℕ
max_audio_chunk_bytes = 49152

abbrev not_empty : String → Option String
not_empty s = if is_empty s then none else some s

-- The media types that Audio's `switch` lists.
unfoldable pub audio_media_type : String → Bool
audio_media_type m =
    str_eq m "audio/mpeg"
    || (str_eq m "audio/wav"
        || (str_eq m "audio/ogg"
            || (str_eq m "audio/aac" || (str_eq m "audio/flac" || str_eq m "audio/pcm"))))

unfoldable pub new_emitter :
    {S : Type 0} → S → String → Option String → Time → UsageEstimate → Emitter S
new_emitter s request_id generation_id admitted_at estimate = record {
  sink_state = s;
  written = [];
  request_id = request_id;
  generation_id = generation_id;
  provider = "";
  deployment = "";
  sequence = 0;
  started = false;
  attempt_started = false;
  pending_start = none;
  pending = [];
  terminated = false;
  sink_failed = false;
  first_output_at = zero_time;
  attempt_output_at = zero_time;
  admitted_at = admitted_at;
  estimate = estimate;
}

module _ {S : Type 0} where
  unfoldable pub serving : String → String → Emitter S → Emitter S
  serving slug deployment e = record e {
    provider = slug;
    deployment = deployment;
    attempt_output_at = zero_time;
    attempt_started = false;
    pending_start = none;
    pending = [];
  }

  unfoldable pub mark_output : Time → Emitter S → Emitter S
  mark_output now e = record e {
    first_output_at = if is_zero e.first_output_at then now else e.first_output_at;
    attempt_output_at = if is_zero e.attempt_output_at then now else e.attempt_output_at;
  }

  unfoldable pub time_to_first_token : Emitter S → Duration
  time_to_first_token e =
      if is_zero e.first_output_at || is_zero e.admitted_at
      then pos 0
      else sub_time e.first_output_at e.admitted_at

-- What a method returns: the emitter, and the error unless it is nil.
abbrev pub Sent : Type 0 → Type 0
Sent S = Emitter S × Option EmitError

-- `if err := m; err != nil { return err }`
abbrev pub and_then : {S : Type 0} → Sent S → (Emitter S → Sent S) → Sent S
and_then (e, none) k = k e
and_then (e, some x) k = (e, some x)

module _ {S : Type 0} (sink : S → StreamEvent → S × Bool) where
  offered : Bool → S → StreamEvent → Emitter S → Sent S
  offered true s event e = (record e { sink_state = s; written = e.written ++ event ∷ [] }, none)
  offered false s event e = (record e { sink_state = s; sink_failed = true }, some sink_error)

  unfoldable pub send : StreamEvent → Emitter S → Sent S
  unfolding offered
  send event e =
      if e.terminated
      then (e, some follows_terminal)
      else (let (s, accepted) = sink e.sink_state event in offered accepted s event e)

  -- An event stamped by `next()` and sent.
  unfoldable pub emit : Body → Emitter S → Sent S
  unfolding send
  emit body e =
      send (record { request_id = e.request_id; seq = e.sequence; body = body })
        (record e { sequence = e.sequence + 1 })

  -- The loop over the held events.
  unfoldable pub emit_all : List Body → Emitter S → Sent S
  emit_all [] e = (e, none)
  emit_all (b ∷ bs) e = and_then (emit b e) (λ e'. emit_all bs e')

  unfoldable pub send_or_hold : Body → Emitter S → Sent S
  send_or_hold body e =
      if e.started then emit body e else (record e { pending = e.pending ++ body ∷ [] }, none)

  -- The end of commit, at the held start event.
  release : Option Body → List Body → Emitter S → Sent S
  release none held e = (e, some no_start_event)
  release (some start_body) held e =
      and_then (emit start_body (record e { started = true; pending_start = none; pending = [] }))
        (λ e'. emit_all held e')

  unfoldable pub commit : Emitter S → Sent S
  unfolding release
  commit e = if e.started then (e, none) else release e.pending_start e.pending e

  unfoldable pub begin_attempt : String → Time → Emitter S → Sent S
  begin_attempt resolved at e =
      if e.started || e.attempt_started
      then (e, some second_start)
      else if not (pinned resolved)
      then (e, some not_pinned)
      else (
        record e {
          attempt_started = true;
          pending_start = some (start e.generation_id resolved e.provider (new_timestamp at));
        },
        none,
      )

  -- `requireStarted`, in front of the rest of a method.
  abbrev when_started : Emitter S → Sent S → Sent S
  when_started e rest = if e.attempt_started then rest else (e, some precedes_start)

  unfoldable pub emit_delta : ℤ → DeltaChannel → String → Time → Emitter S → Sent S
  emit_delta output_index channel text now e = when_started e (
      if ltb_ℤ output_index (pos 0)
      then (e, some negative_index)
      else if is_empty text
      then send_or_hold (delta output_index channel text) e
      else and_then (commit (mark_output now e)) (λ e1.
        and_then (emit (delta output_index channel text) e1)
          (λ e2. (record e2 { estimate = add_delta channel text e2.estimate }, none))))

  unfoldable pub emit_tool_call : ToolCallDelta → Emitter S → Sent S
  emit_tool_call call e = when_started e (
      if is_empty call.id
      then (e, some no_tool_call_id)
      else and_then (commit e) (λ e1.
        and_then
          (emit
            (tool_call call.id (not_empty call.name) (not_empty call.arguments_delta) call.complete)
            e1)
          (λ e2. (
            record e2 { estimate = add_tool_call call.name call.arguments_delta e2.estimate },
            none,
          ))))

  unfoldable pub emit_usage : List UsageQuantity → UsageSource → Emitter S → Sent S
  emit_usage units source e = when_started e (
      if length units == 0
      then (e, some no_units)
      else send_or_hold (usage e.deployment units source) e)

  -- Base64 is Go's; the encoded text is a function of the bytes.
  unfoldable pub emit_audio : (List ℕ → String) → ℤ → String → List ℕ → Time → Emitter S → Sent S
  emit_audio encode output_index media_type bytes now e = when_started e (
      if ltb_ℤ output_index (pos 0)
        || (length bytes == 0 || ltb max_audio_chunk_bytes (length bytes))
      then (e, some invalid_audio)
      else if not (audio_media_type media_type)
      then (e, some unsupported_audio)
      else and_then (commit (mark_output now e)) (λ e1.
        and_then (emit (audio output_index media_type (encode bytes)) e1)
          (λ e2. (record e2 { estimate = record e2.estimate { output_delivered = true } }, none))))

  unfoldable pub emit_switch :
      RouteSwitchReason → String → Route → Route → Time → Emitter S → Sent S
  emit_switch reason requested_model from to at e =
      if e.started
      then (e, some switch_too_late)
      else if str_eq from.model_reference to.model_reference
      then emit
          (route_switch reason (deployment_scope to.provider to.model_reference to.deployment_id)
            (new_timestamp at))
          e
      else if str_eq (model_id from.model_reference) (model_id to.model_reference)
      then (e, some revision_switch)
      else if not (model_id_valid requested_model)
      then (e, some no_primary_line)
      else emit
          (route_switch reason
            (model_scope to.provider requested_model from.model_reference to.model_reference)
            (new_timestamp at))
          e

  abbrev terminate : Sent S → Sent S
  terminate (e, err) = (record e { terminated = true }, err)

  unfoldable pub finish_with_done : FinishReason → Time → Emitter S → Sent S
  finish_with_done reason at e = when_started e (
      and_then (commit e)
        (λ e1. terminate (emit (done e1.generation_id reason (new_timestamp at)) e1)))

  unfoldable pub finish_with_error : Error → Emitter S → Sent S
  finish_with_error failure e =
      if e.terminated then (e, some follows_terminal) else terminate (emit (failed failure) e)
