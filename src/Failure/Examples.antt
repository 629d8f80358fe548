-- ===== src/Failure/Examples.antt =====
-- The classification of errors at a throttled customer key.
use kaana.Prelude.{◌≡◌, true, false, none, [], ◌∷◌, ◌&&◌, not}
use kaana.Prelude.Int.{pos}
use kaana.Contract.{ErrorText, rate_limited, rate_limit}
use kaana.Failure.{
  Upstream, upstream, wrapped, deployment_attributable, attributable_category,
  customer_credential_failure, upstream_failure,
}
use kaana.Failure.Bodies.{said, answer_of, upstream_failure_exact}
use kaana.Failure.Isolation.{wrap_all, account_code, customer_account_isolated}

abbrev throttle : Upstream
throttle = record {
  code = rate_limited;
  category = rate_limit;
  detail = "slow down";
  retry_after_ms = pos 1500;
  passthrough = none;
  recurs_on_this_route = false;
}

abbrev plain_text : ErrorText
plain_text = record { safe = λ s. s; cut = λ s. s }

customer_account_isolated_example :
    deployment_attributable (wrap_all ("stream" ∷ []) (customer_credential_failure true throttle))
    ≡ (attributable_category rate_limit && not (true && account_code rate_limited))
customer_account_isolated_example = customer_account_isolated ("stream" ∷ []) true throttle

upstream_failure_exact_example :
    said (
      upstream_failure plain_text
        (λ s. s)
        (λ f. "failed")
        "r1"
        "groq"
        (wrapped "stream" (upstream throttle)))
    ≡ answer_of (λ s. s) "groq" "failed" (wrapped "stream" (upstream throttle))
upstream_failure_exact_example =
    upstream_failure_exact plain_text (λ s. s) (λ f. "failed") "r1" "groq"
      (wrapped "stream" (upstream throttle))
