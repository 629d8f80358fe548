-- ===== src/Failure/Isolation.antt =====
-- What an adapter's error means for a deployment that others share, and for the customer.
use kaana.Prelude.{String, ◌≡◌, refl, Bool, true, false, List, [], ◌∷◌, ◌&&◌, not, arith, ◌∙◌}
use kaana.Contract.{ErrorCode, provider_credential_invalid, provider_billing_refused, rate_limited}
use kaana.Failure.{
  Failure, Upstream, wrapped, as_upstream, as_customer_upstream, attributable_category,
  deployment_attributable, customer_credential_failure, attributable_upstream, owned_failure,
}

-- `fmt.Errorf` with `%w`, any number of times.
abbrev pub wrap_all : List String → Failure → Failure
wrap_all [] f = f
wrap_all (m ∷ ms) f = wrapped m (wrap_all ms f)

wrapped_attributable :
    (m : String) (f : Failure) → deployment_attributable (wrapped m f) ≡ deployment_attributable f
unfolding deployment_attributable as_upstream as_customer_upstream
wrapped_attributable m f = refl

wrap_all_attributable :
    (ms : List String) (f : Failure)
    → deployment_attributable (wrap_all ms f) ≡ deployment_attributable f
wrap_all_attributable [] f = refl
wrap_all_attributable (m ∷ ms) f =
    wrapped_attributable m (wrap_all ms f) ∙ wrap_all_attributable ms f

-- The codes by which a provider speaks of a customer's own account.
abbrev pub account_code : ErrorCode → Bool
account_code provider_credential_invalid = true
account_code provider_billing_refused = true
account_code rate_limited = true
account_code _ = false

owned_attributable :
    (c : ErrorCode) (u : Upstream)
    → deployment_attributable (owned_failure c u)
      ≡ (attributable_category u.category && not (account_code c))
unfolding owned_failure deployment_attributable attributable_upstream as_upstream
    as_customer_upstream
owned_attributable c u = ground (arith, c)

unwrapped_attributable :
    (owned : Bool) (u : Upstream)
    → deployment_attributable (customer_credential_failure owned u)
      ≡ (attributable_category u.category && not (owned && account_code u.code))
unfolding customer_credential_failure deployment_attributable attributable_upstream as_upstream
    as_customer_upstream
unwrapped_attributable true u = owned_attributable u.code u
unwrapped_attributable false u = ground arith

-- A failure that an adapter hands over, however it is wrapped on the way, is held against the shared
-- deployment exactly where its category says something of the deployment and it is not a customer's
-- own key that was refused, not billed or throttled.
pub customer_account_isolated :
    (ms : List String) (owned : Bool) (u : Upstream)
    → deployment_attributable (wrap_all ms (customer_credential_failure owned u))
      ≡ (attributable_category u.category && not (owned && account_code u.code))
customer_account_isolated ms owned u =
    wrap_all_attributable ms (customer_credential_failure owned u) ∙ unwrapped_attributable owned u
