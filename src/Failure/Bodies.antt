-- ===== src/Failure/Bodies.antt =====
-- upstreamFailure of internal/kaana/executor.go: the error body that the customer gets for a failed
-- attempt.
use kaana.Prelude.{
  String, ◌≡◌, refl, Bool, true, false, Option, none, some, ◌&&◌, arith, ◌∙◌, ap, if◌then◌else◌,
}
use kaana.Prelude.Int.{ℤ, pos, ltb_ℤ}
use kaana.Contract.{
  ErrorCode, Error, ErrorText, UpstreamCategory, new_error, with_upstream, with_retry_after,
  retryable_code, byok_credential_invalid, provider_timeout, provider_error, timeout, unknown,
}
use kaana.Failure.{
  Failure, Upstream, upstream, customer_upstream, customer_credential, unsupported, canceled,
  deadline_exceeded, client_gone, unclassified, wrapped, as_upstream, as_customer_credential,
  is_deadline, contract_error, upstream_failure, customer_or_upstream, upstream_or_unclassified,
}

-- What a body says: its code and message, whether and when to retry, and the category.
pub record Answer : Type 0 where
  pub code : ErrorCode
  pub message : String
  pub retryable : Bool
  pub hint : Option ℤ
  pub category : Option UpstreamCategory

abbrev pub said : Error → Answer
said e = record {
  code = e.code;
  message = e.message;
  retryable = e.retryable;
  hint = e.retry_after_ms;
  category = e.upstream_category;
}

-- An adapter's classification is believed; its hint counts where its code may be retried and the
-- hint is positive.
abbrev pub classified : (String → String) → Upstream → Answer
classified safe u = record {
  code = u.code;
  message = safe u.detail;
  retryable = retryable_code u.code;
  hint =
      if retryable_code u.code && ltb_ℤ (pos 0) u.retry_after_ms
      then some u.retry_after_ms
      else none;
  category = some u.category;
}

abbrev pub unknown_failure : String → Answer
unknown_failure message = record {
  code = provider_error;
  message = message;
  retryable = true;
  hint = none;
  category = some unknown;
}

-- The answer to a failure, by what it is under its wrapping; `late` and `described` are the messages
-- for a provider that did not respond and for an error that nobody classified.
abbrev pub answer_of : (String → String) → String → String → Failure → Answer
answer_of safe late described (upstream u) = classified safe u
answer_of safe late described (customer_upstream u) = classified safe u
answer_of safe late described (customer_credential c) = record {
  code = byok_credential_invalid;
  message = safe "the customer provider credential is unavailable";
  retryable = false;
  hint = none;
  category = none;
}
answer_of safe late described deadline_exceeded = record {
  code = provider_timeout;
  message = safe late;
  retryable = true;
  hint = none;
  category = some timeout;
}
answer_of safe late described (wrapped m f) = answer_of safe late described f
answer_of safe late described _ = unknown_failure (safe described)

module _ (text : ErrorText) (dnr : String → String) (describe : Failure → String)
    (request_id slug : String) where
  classified-said :
      (u : Upstream) → said (contract_error text request_id u) ≡ classified text.safe u
  unfolding contract_error new_error with_upstream with_retry_after
  classified-said u = ground arith

  -- The answer to a failure, with what errors.As and errors.Is find in it.
  abbrev found : Failure → Option ErrorCode → Option Upstream → Bool → Error
  found whole (some c) u late =
      new_error text request_id byok_credential_invalid
        "the customer provider credential is unavailable"
  found whole none (some u) late = contract_error text request_id u
  found whole none none late =
      if late
      then with_upstream text timeout none (new_error text request_id provider_timeout (dnr slug))
      else with_upstream text unknown
          (some (record { provider = slug; status = none; code = none; message = none }))
          (new_error text request_id provider_error (describe whole))

  upstream_failure-found :
      (f : Failure)
      → upstream_failure text dnr describe request_id slug f
        ≡ found f (as_customer_credential f) (as_upstream f) (is_deadline f)
  unfolding upstream_failure customer_or_upstream upstream_or_unclassified
  upstream_failure-found f = choose (as_customer_credential f) (as_upstream f)
    where
      choose :
          (c : Option ErrorCode) (u : Option Upstream)
          → elim c [
            | some c ↦
                new_error text request_id byok_credential_invalid
                  "the customer provider credential is unavailable"
            | none ↦ upstream_or_unclassified text dnr describe request_id slug f u
          ]
            ≡ found f c u (is_deadline f)
      choose (some c) u = refl
      choose none (some u) = refl
      choose none none = refl

  found_exact :
      (whole f : Failure)
      → said (found whole (as_customer_credential f) (as_upstream f) (is_deadline f))
        ≡ answer_of text.safe (dnr slug) (describe whole) f
  unfolding as_customer_credential as_upstream is_deadline new_error with_upstream retryable_code
  found_exact whole (upstream u) = classified-said u
  found_exact whole (customer_upstream u) = classified-said u
  found_exact whole (customer_credential c) = refl
  found_exact whole (unsupported u) = refl
  found_exact whole canceled = refl
  found_exact whole deadline_exceeded = refl
  found_exact whole client_gone = refl
  found_exact whole (unclassified m) = refl
  found_exact whole (wrapped m f) = found_exact whole f

  -- The body for a failed attempt, however the failure is wrapped on the way: an adapter's
  -- classification is kept, with its code and category, retryable as the code is, and with its hint
  -- where the code may be retried and the hint is positive; a customer's unusable key is told as that,
  -- not retryable; a deadline is a retryable timeout; and what nobody classified is a retryable
  -- provider error. The message has passed the filter of free text.
  pub upstream_failure_exact :
      (f : Failure)
      → said (upstream_failure text dnr describe request_id slug f)
        ≡ answer_of text.safe (dnr slug) (describe f) f
  upstream_failure_exact f = ap said (upstream_failure-found f) ∙ found_exact f f
