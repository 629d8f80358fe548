-- ===== src/KeyWalk/Verdicts.antt =====
-- What an exchange does to the keys of the pool (credential.go).
use kaana.Prelude.{
  ℕ, ◌≡◌, ◌≢◌, refl, ◌∙◌, Bool, true, false, Option, some, ◌&&◌, arith, if◌then◌else◌,
}
use kaana.Prelude.Time.{Time}
use kaana.Failure.{Failure}
use kaana.KeyPool.{
  provider_answer, KeyPool, PooledKey, Evidence, QuotaObservation, quota_exhausted,
  allow_throttle_rotation,
}
use kaana.KeyPool.Retirement.{observe-same}
use kaana.KeyWalk.{
  Walk, Turn, again, ends, transport_failed, refused, CredentialVerdict, verdict_healthy,
  verdict_request_fault, verdict_exhausted, verdict_rejected, AttemptOutcome, mark_transient,
  record_row, with_pool, with_refusal, throttle_turn, verdict_turn, exchanged_turn,
  credential_verdict, failed, row_healthy_failure, throttled, outcome_of, evidence_of, until_of,
}

abbrev pub pool_after : {T W : Type 0} → Turn T W → KeyPool
pool_after (again s) = s.pool
pool_after (ends s o) = s.pool

-- A verdict that says nothing against the key.
abbrev pub IsUnblamed : CredentialVerdict → Type 0
IsUnblamed verdict_healthy = Unit
IsUnblamed verdict_request_fault = Unit
IsUnblamed _ = ⊥

module _ {W : Type 0} where
  row_pool :
      (named : Bool) (k : PooledKey) (index : ℕ) (outcome : AttemptOutcome) (e : Evidence)
      (at until : Time) (s : Walk W)
      → (record_row named k index outcome e at until s).pool ≡ s.pool
  unfolding record_row
  row_pool named k index outcome e at until s = ground arith

  transient_pool :
      (b : Bool) (k : PooledKey) (s : Walk W) → (if b then s else mark_transient k s).pool ≡ s.pool
  unfolding mark_transient
  transient_pool true k s = refl
  transient_pool false k s = refl

module _ (T : Type 0) {W : Type 0} (named : Bool) where
  throttle_pool :
      (k : PooledKey) (f : Failure) (s : Walk W)
      → pool_after {T = T} (throttle_turn named k f s) ≡ s.pool
  unfolding throttle_turn with_refusal
  throttle_pool k f s = choose (throttled f && (allow_throttle_rotation s.pool s.attempt).1)
    where
      choose :
          (b : Bool)
          → pool_after {T = T} (
              if b
              then again (
                  with_refusal k f
                    (record s { attempt = (allow_throttle_rotation s.pool s.attempt).0 }))
              else ends s (failed (some k) f))
            ≡ s.pool
      choose true = refl
      choose false = refl

  verdict_pool :
      (c : CredentialVerdict) (k : PooledKey) (index : ℕ) (at : Time) (out : Option Time)
      (f : Failure) (s : Walk W)
      → IsUnblamed c
      → pool_after {T = T} (verdict_turn named c k index at out f s) ≡ s.pool
  unfolding verdict_turn
  verdict_pool verdict_exhausted k index at out f s u = absurd u
  verdict_pool verdict_rejected k index at out f s u = absurd u
  verdict_pool verdict_request_fault k index at out f s u = row_pool named k index _ _ at _ s
  verdict_pool verdict_healthy k index at out f s u =
      throttle_pool k f _
      ∙ transient_pool s.pool.customer_owned k _
      ∙ row_pool named k index (outcome_of row_healthy_failure out)
          (evidence_of provider_answer out) at (until_of out) s

  -- A refusal whose verdict says nothing against the key (a throttle, an outage, a timeout, a
  -- request that the provider refuses), with headers that report no exhaustion, leaves every key of
  -- the pool as it was; so does a transport failure.
  pub unblamed-pool_after :
      (k : PooledKey) (index : ℕ) (at : Time) (said : QuotaObservation) (f g : Failure) (s : Walk W)
      → IsUnblamed (credential_verdict f)
      → said.state ≢ quota_exhausted
      → (pool_after {T = T} (exchanged_turn named (refused said f) k index at s) ≡ s.pool)
        × (pool_after {T = T} (exchanged_turn named (transport_failed g) k index at s) ≡ s.pool)
  unfolding exchanged_turn with_pool mark_transient
  unblamed-pool_after k index at said f g s u h = (
    verdict_pool (credential_verdict f) k index at _ f _ u
        ∙ observe-same k.position said at s.pool h,
    row_pool named k index _ _ at _ s,
  )
