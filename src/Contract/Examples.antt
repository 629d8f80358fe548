-- ===== src/Contract/Examples.antt =====
-- The error body and the references at concrete texts.
use kaana.Prelude.{none, [], ◌∷◌}
use kaana.Prelude.Int.{pos, negsuc}
use kaana.Contract.{ErrorText, rate_limited, rate_limit, new_error}
use kaana.Contract.ErrorBody.{
  IsAccepted, build, retry_after, no_retry, upstream, built_error-IsAccepted,
}

abbrev plain_text : ErrorText
plain_text = record { safe = λ s. s; cut = λ s. s }

built_error-IsAccepted_example : IsAccepted (
    build plain_text
      (new_error plain_text "r1" rate_limited "slow down")
      (upstream rate_limit none ∷ retry_after (pos 700) ∷ retry_after (negsuc 3) ∷ no_retry ∷ []))
built_error-IsAccepted_example =
    built_error-IsAccepted plain_text "r1" rate_limited "slow down"
      (upstream rate_limit none ∷ retry_after (pos 700) ∷ retry_after (negsuc 3) ∷ no_retry ∷ [])
