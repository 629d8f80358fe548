-- ===== src/Contract.antt =====
-- internal/contract: identifiers (ids.go), the closed vocabularies (enums.go) and the error body
-- (errors.go). The free text of an error passes `SafeErrorText`, a set of regular expressions of
-- Go's library, which is a parameter here. Timestamps are kept as whole milliseconds, the precision
-- that the contract's spelling has.
pub mod Ids
pub mod ErrorBody
mod Examples
use kaana.Prelude.{ℕ, ◌/◌, String, Bool, true, false, Option, none, some, ◌&&◌, not, if◌then◌else◌}
use kaana.Prelude.Int.{ℤ, pos, ltb_ℤ}
use kaana.Prelude.Time.{Time}

pub data ErrorCode : Type 0 where
  invalid_request authentication_failed permission_denied insufficient_scope : ErrorCode
  model_not_found unsupported_modality context_length_exceeded request_too_large : ErrorCode
  output_limit_exceeded idempotency_conflict insufficient_balance : ErrorCode
  spending_limit_exceeded quota_exceeded byok_credential_invalid policy_violation : ErrorCode
  commercial_permission_denied no_route_available upstream_content_filtered : ErrorCode
  cancelled rate_limited deployment_unavailable provider_error provider_timeout : ErrorCode
  provider_overloaded provider_credential_invalid provider_billing_refused : ErrorCode
  service_unavailable internal_error : ErrorCode

pub data UpstreamCategory : Type 0 where
  rate_limit quota timeout overloaded server_error content_filter : UpstreamCategory
  invalid_req authentication unknown : UpstreamCategory

pub data RouteSwitchReason : Type 0 where
  switch_deployment_unavailable switch_provider_error switch_provider_timeout : RouteSwitchReason
  switch_provider_overloaded switch_rate_limited switch_capacity : RouteSwitchReason
  switch_policy_preference : RouteSwitchReason

pub data DeltaChannel : Type 0 where
  output_text reasoning refusal output_audio_transcript : DeltaChannel

pub data FinishReason : Type 0 where
  finish_stop finish_length finish_tool_calls finish_content_filter : FinishReason
  finish_refusal finish_cancelled : FinishReason

pub data UsageUnit : Type 0 where
  input_tokens cached_input_tokens output_tokens reasoning_tokens requests images : UsageUnit
  audio_input_milliseconds audio_output_milliseconds video_milliseconds : UsageUnit
  characters embeddings audio_input_tokens cached_audio_input_tokens : UsageUnit
  audio_output_tokens session_milliseconds input_transcription_milliseconds : UsageUnit

pub UsageUnit-discrete : Discrete UsageUnit
UsageUnit-discrete = hlevel

pub data UsageSource : Type 0 where
  provider_reported oxy_measured estimated : UsageSource

pub record UsageQuantity : Type 0 where
  pub unit : UsageUnit
  pub quantity : ℕ

-- NewTimestamp: UTC at millisecond precision.
abbrev pub new_timestamp : Time → ℕ
new_timestamp at = at / 1_000_000

-- ErrorCode.Retryable: every code that nonRetryableErrorCodes does not list.
unfoldable pub retryable_code : ErrorCode → Bool
retryable_code rate_limited = true
retryable_code deployment_unavailable = true
retryable_code provider_error = true
retryable_code provider_timeout = true
retryable_code provider_overloaded = true
retryable_code service_unavailable = true
retryable_code internal_error = true
retryable_code _ = false

pub record Passthrough : Type 0 where
  pub provider : String
  pub status : Option ℤ
  pub code : Option String
  pub message : Option String

pub record Error : Type 0 where
  pub code : ErrorCode
  pub message : String
  pub retryable : Bool
  pub request_id : String
  pub retry_after_ms : Option ℤ
  pub param : Option String
  pub upstream_category : Option UpstreamCategory
  pub provider_error : Option Passthrough

-- The text functions that the error body calls: SafeErrorText, and the cut of a provider's code
-- after 128 bytes.
pub record ErrorText : Type 0 where
  pub safe : String → String
  pub cut : String → String

abbrev map_text : (String → String) → Option String → Option String
map_text f none = none
map_text f (some s) = some (f s)

module _ (text : ErrorText) where
  unfoldable pub new_error : String → ErrorCode → String → Error
  unfolding retryable_code
  new_error request_id code message = record {
    code = code;
    message = text.safe message;
    retryable = retryable_code code;
    request_id = request_id;
    retry_after_ms = none;
    param = none;
    upstream_category = none;
    provider_error = none;
  }

  abbrev safe_passthrough : Option Passthrough → Option Passthrough → Option Passthrough
  safe_passthrough old none = old
  safe_passthrough old (some p) =
      some (record p { message = map_text text.safe p.message; code = map_text text.cut p.code })

  unfoldable pub with_upstream : UpstreamCategory → Option Passthrough → Error → Error
  with_upstream category passthrough e = record e {
    upstream_category = some category;
    provider_error = safe_passthrough e.provider_error passthrough;
  }

unfoldable pub with_param : String → Error → Error
with_param param e = record e { param = some param }

unfoldable pub with_retry_after : ℤ → Error → Error
with_retry_after milliseconds e =
    if e.retryable && not (ltb_ℤ milliseconds (pos 0))
    then record e { retry_after_ms = some milliseconds }
    else e

unfoldable pub without_retry : Error → Error
without_retry e = record e { retryable = false; retry_after_ms = none }
