-- ===== src/Contract/ErrorBody.antt =====
-- The error body that every inference surface returns (internal/contract/errors.go).
use kaana.Prelude.{String, ◌≡◌, true, Option, some, List, [], ◌∷◌, arith}
use kaana.Prelude.Int.{ℤ, pos, ◌≤ℤ◌}
use kaana.Contract.{
  ErrorCode, UpstreamCategory, Passthrough, Error, ErrorText, new_error, with_param,
  with_retry_after, without_retry, with_upstream, retryable_code,
}

-- A call of one of the body's builder methods.
pub data Builder : Type 0 where
  param : String → Builder
  retry_after : ℤ → Builder
  no_retry : Builder
  upstream : UpstreamCategory → Option Passthrough → Builder

-- What Oxy's parse demands of the two retry fields.
pub record IsAccepted (e : Error) : Type 0 where
  pub claim : e.retryable ≡ true → retryable_code e.code ≡ true
  pub hint : (ms : ℤ) → e.retry_after_ms ≡ some ms → (e.retryable ≡ true) × (pos 0 ≤ℤ ms)

module _ (text : ErrorText) where
  unfoldable pub apply : Error → Builder → Error
  apply e (param p) = with_param p e
  apply e (retry_after ms) = with_retry_after ms e
  apply e no_retry = without_retry e
  apply e (upstream c p) = with_upstream text c p e

  unfoldable pub build : Error → List Builder → Error
  unfolding apply
  build e [] = e
  build e (b ∷ bs) = build (apply e b) bs

  apply-IsAccepted : (e : Error) (b : Builder) → IsAccepted e → IsAccepted (apply e b)
  unfolding apply with_param with_retry_after without_retry with_upstream
  apply-IsAccepted e (param p) h = record { claim = h.claim; hint = h.hint }
  apply-IsAccepted e (retry_after ms) h = record {
    claim = ground (arith, h.claim);
    hint = λ n x. ground (arith, h.hint n);
  }
  apply-IsAccepted e no_retry h = record { claim = λ c. cc; hint = λ n c. cc }
  apply-IsAccepted e (upstream c p) h = record { claim = h.claim; hint = h.hint }

  build-IsAccepted : (e : Error) (bs : List Builder) → IsAccepted e → IsAccepted (build e bs)
  unfolding build
  build-IsAccepted e [] h = h
  build-IsAccepted e (b ∷ bs) h = build-IsAccepted (apply e b) bs (apply-IsAccepted e b h)

  new_error-IsAccepted :
      (id : String) (c : ErrorCode) (m : String) → IsAccepted (new_error text id c m)
  unfolding new_error
  new_error-IsAccepted id c m = record { claim = λ h. h; hint = λ n x. cc }

  -- However an error body is built, it claims to be retryable only for a code that allows it, and
  -- carries a retry hint only where it claims to be retryable, and then not a negative one.
  pub built_error-IsAccepted :
      (id : String) (c : ErrorCode) (m : String) (bs : List Builder)
      → IsAccepted (build (new_error text id c m) bs)
  built_error-IsAccepted id c m bs =
      build-IsAccepted (new_error text id c m) bs (new_error-IsAccepted id c m)
