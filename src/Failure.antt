-- ===== src/Failure.antt =====
-- internal/provider/errors.go and the classification at the end of internal/kaana/executor.go: what
-- an adapter's error says, and to whom. A Go error is a chain of `Unwrap`s; `errors.As` and
-- `errors.Is` walk it. The redaction of secrets and the reading of the Retry-After header, which are
-- work on strings by Go's library, are not modelled. The text of an error that no adapter classified
-- is a parameter.
pub mod Isolation
pub mod Bodies
mod Examples
use kaana.Prelude.{String, Bool, true, false, Option, none, some, ◌||◌, str_eq, if◌then◌else◌}
use kaana.Prelude.Int.{ℤ, pos, ltb_ℤ}
use kaana.Contract.{
  ErrorCode, UpstreamCategory, RouteSwitchReason, Passthrough, Error, ErrorText, new_error,
  with_upstream, with_param, with_retry_after, rate_limit, quota, timeout, overloaded, server_error,
  authentication, content_filter, invalid_req, unknown, rate_limited, provider_timeout,
  provider_error, provider_credential_invalid, provider_billing_refused, byok_credential_invalid,
  invalid_request, switch_provider_error, switch_rate_limited, switch_capacity,
  switch_provider_timeout, switch_provider_overloaded,
}

-- ErrUpstream
pub record Upstream : Type 0 where
  pub code : ErrorCode
  pub category : UpstreamCategory
  pub detail : String
  pub retry_after_ms : ℤ
  pub passthrough : Option Passthrough
  pub recurs_on_this_route : Bool

-- ErrUnsupported
pub record Unsupported : Type 0 where
  pub code : ErrorCode
  pub param : String
  pub detail : String

-- The errors that the executor's classification tells apart. `wrapped` is `fmt.Errorf` with `%w`.
pub data Failure : Type 0 where
  upstream : Upstream → Failure
  customer_upstream : Upstream → Failure
  customer_credential : ErrorCode → Failure
  unsupported : Unsupported → Failure
  canceled deadline_exceeded client_gone : Failure
  unclassified : String → Failure
  wrapped : String → Failure → Failure

-- errors.As, at each of the types; ErrCustomerUpstream unwraps to the ErrUpstream it holds.
unfoldable pub as_upstream : Failure → Option Upstream
as_upstream (upstream u) = some u
as_upstream (customer_upstream u) = some u
as_upstream (wrapped m f) = as_upstream f
as_upstream _ = none

unfoldable pub as_customer_upstream : Failure → Option Upstream
as_customer_upstream (customer_upstream u) = some u
as_customer_upstream (wrapped m f) = as_customer_upstream f
as_customer_upstream _ = none

unfoldable pub as_customer_credential : Failure → Option ErrorCode
as_customer_credential (customer_credential c) = some c
as_customer_credential (wrapped m f) = as_customer_credential f
as_customer_credential _ = none

unfoldable pub as_unsupported : Failure → Option Unsupported
as_unsupported (unsupported u) = some u
as_unsupported (wrapped m f) = as_unsupported f
as_unsupported _ = none

-- errors.Is
unfoldable pub is_canceled : Failure → Bool
is_canceled canceled = true
is_canceled (wrapped m f) = is_canceled f
is_canceled _ = false

unfoldable pub is_client_gone : Failure → Bool
is_client_gone client_gone = true
is_client_gone (wrapped m f) = is_client_gone f
is_client_gone _ = false

unfoldable pub is_deadline : Failure → Bool
is_deadline deadline_exceeded = true
is_deadline (wrapped m f) = is_deadline f
is_deadline _ = false

unfoldable pub attributable_category : UpstreamCategory → Bool
attributable_category rate_limit = true
attributable_category quota = true
attributable_category timeout = true
attributable_category overloaded = true
attributable_category server_error = true
attributable_category authentication = true
attributable_category invalid_req = false
attributable_category content_filter = false
attributable_category unknown = false

attributable_upstream : Option Upstream → Option Upstream → Bool
attributable_upstream (some customer) u = false
attributable_upstream none none = false
attributable_upstream none (some u) = attributable_category u.category

unfoldable pub deployment_attributable : Failure → Bool
unfolding attributable_upstream
deployment_attributable f = attributable_upstream (as_customer_upstream f) (as_upstream f)

-- The `switch` of CustomerCredentialFailure.
owned_failure : ErrorCode → Upstream → Failure
owned_failure provider_credential_invalid u = customer_credential u.code
owned_failure provider_billing_refused u = customer_credential u.code
owned_failure rate_limited u = customer_upstream u
owned_failure _ u = upstream u

unfoldable pub customer_credential_failure : Bool → Upstream → Failure
unfolding owned_failure
customer_credential_failure customer_owned u =
    if customer_owned then owned_failure u.code u else upstream u

abbrev category_reason : UpstreamCategory → RouteSwitchReason
category_reason rate_limit = switch_rate_limited
category_reason quota = switch_capacity
category_reason timeout = switch_provider_timeout
category_reason overloaded = switch_provider_overloaded
category_reason _ = switch_provider_error

upstream_reason : Option Upstream → RouteSwitchReason
upstream_reason none = switch_provider_error
upstream_reason (some u) = category_reason u.category

unfoldable pub switch_reason : Failure → RouteSwitchReason
unfolding upstream_reason
switch_reason f = upstream_reason (as_upstream f)

-- `ctx.Err()` is cancelled, or the error says so.
unfoldable pub is_cancellation : Bool → Failure → Bool
is_cancellation context_canceled f = is_canceled f || (is_client_gone f || context_canceled)

module _ (text : ErrorText) where
  -- ErrUpstream.ContractError
  unfoldable pub contract_error : String → Upstream → Error
  contract_error request_id u = with_upstream text u.category u.passthrough (
      if ltb_ℤ (pos 0) u.retry_after_ms
      then with_retry_after u.retry_after_ms (new_error text request_id u.code u.detail)
      else new_error text request_id u.code u.detail)

  -- `did_not_respond` is the message that names the provider.
  upstream_or_unclassified :
      (String → String) → (Failure → String) → String → String → Failure → Option Upstream → Error
  upstream_or_unclassified did_not_respond describe request_id slug f (some u) =
      contract_error request_id u
  upstream_or_unclassified did_not_respond describe request_id slug f none =
      if is_deadline f
      then with_upstream text timeout none
          (new_error text request_id provider_timeout (did_not_respond slug))
      else with_upstream text unknown
          (some (record { provider = slug; status = none; code = none; message = none }))
          (new_error text request_id provider_error (describe f))

  customer_or_upstream :
      (String → String) → (Failure → String) → String → String → Failure → Option ErrorCode → Error
  unfolding upstream_or_unclassified
  customer_or_upstream did_not_respond describe request_id slug f (some c) =
      new_error text request_id byok_credential_invalid
        "the customer provider credential is unavailable"
  customer_or_upstream did_not_respond describe request_id slug f none =
      upstream_or_unclassified did_not_respond describe request_id slug f (as_upstream f)

  unfoldable pub upstream_failure :
      (String → String) → (Failure → String) → String → String → Failure → Error
  unfolding customer_or_upstream
  upstream_failure did_not_respond describe request_id slug f =
      customer_or_upstream did_not_respond describe request_id slug f (as_customer_credential f)

  unsupported_or_invalid : (Failure → String) → String → Failure → Option Unsupported → Error
  unsupported_or_invalid describe request_id f none =
      new_error text request_id invalid_request (describe f)
  unsupported_or_invalid describe request_id f (some u) =
      if str_eq u.param ""
      then new_error text request_id u.code u.detail
      else with_param u.param (new_error text request_id u.code u.detail)

  unfoldable pub translation_failure : (Failure → String) → String → Failure → Error
  unfolding unsupported_or_invalid
  translation_failure describe request_id f =
      unsupported_or_invalid describe request_id f (as_unsupported f)
