-- ===== src/KeyWalk.antt =====
-- internal/provider/credential.go, the walk: one call sent with the first credential that can serve
-- it, rotating on the failures that say something about a credential. The durable runtime, the
-- clock and the upstream exchange are the world's: `Env` takes its state and gives the answer with
-- the next state. An exchange ends in one of the three ways that Walk's `try` builds. A row of the
-- durable record leaves out the call's constant fields; that a row may fail to be written changes
-- nothing else. `exchanged` is not a variable of the source: it is the keys that a call was sent
-- with, the last one first. The loop runs on fuel, one unit for each turn.
pub mod Once
pub mod Bounds
pub mod Verdicts
mod Examples
use kaana.Prelude.{
  ℕ, zero, suc, ◌+◌, String, Bool, true, false, Option, none, some, List, [], ◌∷◌, ◌&&◌, not,
  str_eq, if◌then◌else◌,
}
use kaana.Prelude.Int.{pos}
use kaana.Prelude.Time.{Time, zero_time, add_time, minute}
use kaana.Contract.{
  ErrorCode, UpstreamCategory, Passthrough, rate_limit, provider_credential_invalid,
  byok_credential_invalid, provider_billing_refused, quota_exceeded, insufficient_balance,
  spending_limit_exceeded, invalid_request, model_not_found, unsupported_modality,
  context_length_exceeded, request_too_large, output_limit_exceeded, upstream_content_filtered,
  permission_denied, authentication_failed,
}
use kaana.Failure.{Failure, Upstream, as_upstream, unclassified, wrapped}
use kaana.KeyPool.{
  KeyPool, PooledKey, KeyAttempt, KeyRetirement, Evidence, View, QuotaObservation, exhausted,
  rejected, quota_header, response_status, provider_answer, recorded, lease, begin, is_retired,
  retire, mark_usable, recover_key, observe, no_usable_credential, allow_throttle_rotation,
}

pub data CredentialVerdict : Type 0 where
  verdict_healthy verdict_exhausted verdict_rejected verdict_request_fault : CredentialVerdict

unfoldable pub code_verdict : ErrorCode → CredentialVerdict
code_verdict provider_credential_invalid = verdict_rejected
code_verdict byok_credential_invalid = verdict_request_fault
code_verdict provider_billing_refused = verdict_exhausted
code_verdict quota_exceeded = verdict_request_fault
code_verdict insufficient_balance = verdict_request_fault
code_verdict spending_limit_exceeded = verdict_request_fault
code_verdict invalid_request = verdict_request_fault
code_verdict model_not_found = verdict_request_fault
code_verdict unsupported_modality = verdict_request_fault
code_verdict context_length_exceeded = verdict_request_fault
code_verdict request_too_large = verdict_request_fault
code_verdict output_limit_exceeded = verdict_request_fault
code_verdict upstream_content_filtered = verdict_request_fault
code_verdict permission_denied = verdict_request_fault
code_verdict authentication_failed = verdict_request_fault
code_verdict _ = verdict_healthy

upstream_verdict : Option Upstream → CredentialVerdict
upstream_verdict none = verdict_healthy
upstream_verdict (some u) = code_verdict u.code

-- CredentialVerdictFor
unfoldable pub credential_verdict : Failure → CredentialVerdict
unfolding upstream_verdict
credential_verdict f = upstream_verdict (as_upstream f)

abbrev is_rate_limit : UpstreamCategory → Bool
is_rate_limit rate_limit = true
is_rate_limit _ = false

abbrev throttled_upstream : Option Upstream → Bool
throttled_upstream none = false
throttled_upstream (some u) = is_rate_limit u.category

unfoldable pub throttled : Failure → Bool
throttled f = throttled_upstream (as_upstream f)

-- What ClaimCredentialRecovery answers.
pub data Claim : Type 0 where
  claimed usable busy : Claim
  claim_failed : Failure → Claim
  claim_unknown : String → Claim

-- `said` is what the pool's quota signals read in the response's headers.
pub data Exchange (T : Type 0) : Type 0 where
  transport_failed : Failure → Exchange T
  accepted : (said : QuotaObservation) → T → Exchange T
  refused : (said : QuotaObservation) → Failure → Exchange T

pub record Env (T W : Type 0) : Type 0 where
  pub now : W → Time × W
  pub claim : PooledKey → Time → Time → W → Claim × W
  pub exchange : PooledKey → W → Exchange T × W
  -- The text and the passthrough of NoUsableCredential's error.
  pub describe : KeyPool → ℕ → String
  pub said : KeyPool → Option Passthrough

pub data AttemptOutcome : Type 0 where
  row_transport_failure row_accepted row_exhausted row_rejected : AttemptOutcome
  row_request_fault row_healthy_failure : AttemptOutcome

-- CredentialAttempt
pub record Row : Type 0 where
  pub index : ℕ
  pub key_id : String
  pub outcome : AttemptOutcome
  pub evidence : Evidence
  pub occurred_at : Time
  pub retired_until : Time

-- CredentialAttemptSequence, one for a request; a transient key is its provider and its id.
pub record Sequence : Type 0 where
  pub next_index : ℕ
  pub transient : List (String × String)

unfoldable pub failed_transiently : String → String → List (String × String) → Bool
failed_transiently slug key_id [] = false
failed_transiently slug key_id ((s, k) ∷ rest) =
    if str_eq slug s && str_eq key_id k then true else failed_transiently slug key_id rest

-- The variables of WalkAttempts.
pub record Walk (W : Type 0) : Type 0 where
  pub pool : KeyPool
  pub attempt : KeyAttempt
  pub sequence : Sequence
  pub refusal : Option (PooledKey × Failure)
  pub rows : List Row
  pub exchanged : List PooledKey
  pub world : W

pub data Outcome (T : Type 0) : Type 0 where
  answered : T → PooledKey → Outcome T
  failed : Option PooledKey → Failure → Outcome T
  out_of_fuel : Outcome T

-- A turn of the loop goes on or returns.
pub data Turn (T W : Type 0) : Type 0 where
  again : Walk W → Turn T W
  ends : Walk W → Outcome T → Turn T W

-- attemptOutcome and the evidence beside it.
abbrev outcome_of : AttemptOutcome → Option Time → AttemptOutcome
outcome_of fallback none = fallback
outcome_of fallback (some until) = row_exhausted

abbrev evidence_of : Evidence → Option Time → Evidence
evidence_of fallback none = fallback
evidence_of fallback (some until) = quota_header

abbrev until_of : Option Time → Time
until_of none = zero_time
until_of (some until) = until

module _ {W : Type 0} where
  unfoldable pub mark_transient : PooledKey → Walk W → Walk W
  mark_transient k s = record s {
    sequence = record s.sequence { transient = (s.pool.provider, k.key_id) ∷ s.sequence.transient };
  }

  -- recordCredentialAttempt; `named` says that the call has a request id.
  unfoldable pub record_row :
      Bool → PooledKey → ℕ → AttemptOutcome → Evidence → Time → Time → Walk W → Walk W
  record_row named k index outcome evidence at until s =
      if not (k.has_runtime && named) then s else record s {
        rows =
            record {
              index = index;
              key_id = k.key_id;
              outcome = outcome;
              evidence = evidence;
              occurred_at = at;
              retired_until = until;
            }
            ∷ s.rows;
      }

  with_pool : KeyPool → Walk W → Walk W
  with_pool p s = record s { pool = p }

  with_refusal : PooledKey → Failure → Walk W → Walk W
  with_refusal k f s = record s { refusal = some (k, f) }

module _ {T W : Type 0} (named : Bool) where
  -- An exhausted or a rejected key: retired, and the walk moves on.
  retired_turn : KeyRetirement → AttemptOutcome → PooledKey → ℕ → Time → Failure → Walk W → Turn T W
  unfolding with_pool with_refusal
  retired_turn reason outcome k index at f s = again (
      with_refusal k f (
        record_row named k index outcome provider_answer at (add_time at s.pool.policy.retirement)
          (with_pool (retire k.position reason at zero_time s.pool) s)))

  throttle_turn : PooledKey → Failure → Walk W → Turn T W
  unfolding with_refusal
  throttle_turn k f s =
      let (a, allowed) = allow_throttle_rotation s.pool s.attempt in
      if throttled f && allowed
      then again (with_refusal k f (record s { attempt = a }))
      else ends s (failed (some k) f)

  -- The `switch` on the verdict; `out` is what the quota headers said.
  verdict_turn :
      CredentialVerdict → PooledKey → ℕ → Time → Option Time → Failure → Walk W → Turn T W
  unfolding retired_turn throttle_turn
  verdict_turn verdict_exhausted k index at out f s =
      retired_turn exhausted row_exhausted k index at f s
  verdict_turn verdict_rejected k index at out f s =
      retired_turn rejected row_rejected k index at f s
  verdict_turn verdict_request_fault k index at out f s =
      ends
        (record_row named k index (outcome_of row_request_fault out)
          (evidence_of provider_answer out) at (until_of out) s)
        (failed (some k) f)
  verdict_turn verdict_healthy k index at out f s =
      let s1 =
        record_row named k index (outcome_of row_healthy_failure out)
          (evidence_of provider_answer out) at (until_of out) s in
      throttle_turn k f (if s.pool.customer_owned then s1 else mark_transient k s1)

  accepted_turn : T → PooledKey → ℕ → Time → Option Time → Walk W → Turn T W
  unfolding with_pool
  accepted_turn value k index at (some until) s =
      ends (record_row named k index row_exhausted quota_header at until s) (answered value k)
  accepted_turn value k index at none s =
      let s1 = record_row named k index row_accepted response_status at zero_time s in
      ends (with_pool (mark_usable k.position response_status at s1.pool) s1) (answered value k)

  -- After the exchange, at the time that is read behind it.
  unfoldable pub exchanged_turn : Exchange T → PooledKey → ℕ → Time → Walk W → Turn T W
  unfolding accepted_turn verdict_turn with_pool
  exchanged_turn (transport_failed f) k index at s =
      ends
        (mark_transient k
          (record_row named k index row_transport_failure (recorded "transport") at zero_time s))
        (failed (some k) f)
  exchanged_turn (accepted said value) k index at s =
      let (p, out) = observe k.position said at s.pool in
      accepted_turn value k index at out (with_pool p s)
  exchanged_turn (refused said f) k index at s =
      let (p, out) = observe k.position said at s.pool in
      verdict_turn (credential_verdict f) k index at out f (with_pool p s)

module _ {T W : Type 0} (env : Env T W) (named : Bool) where
  -- The exchange with a leased key.
  unfoldable pub try_turn : PooledKey → Walk W → Turn T W
  try_turn k s =
      let (result, w) = env.exchange k s.world in
      let (at, w') = env.now w in
      exchanged_turn named result k s.sequence.next_index at (record s {
        sequence = record s.sequence { next_index = s.sequence.next_index + 1 };
        exchanged = k ∷ s.exchanged;
        world = w';
      })

  claim_turn : Claim → PooledKey → Walk W → Turn T W
  claim_turn claimed k s = try_turn k s
  claim_turn usable k s = try_turn k (record s { pool = recover_key k.position s.pool })
  claim_turn busy k s = again s
  claim_turn (claim_failed f) k s =
      ends s (failed (some k) (wrapped "provider: claiming credential recovery" f))
  claim_turn (claim_unknown d) k s =
      ends s (failed (some k) (unclassified "provider: credential recovery returned"))

  none_leased : Time → Walk W → Option (PooledKey × Failure) → Turn T W
  none_leased now s (some (k, f)) = ends s (failed (some k) f)
  none_leased now s none =
      ends s (failed none (no_usable_credential env.describe env.said s.attempt.view now s.pool))

  leased_turn : Time → Walk W → Option PooledKey → Turn T W
  unfolding claim_turn none_leased
  leased_turn now s none = none_leased now s s.refusal
  leased_turn now s (some k) =
      if is_retired k && k.has_runtime
      then (let (answer, w) = env.claim k now (add_time now (pos minute)) s.world in
          claim_turn answer k (record s { world = w }))
      else try_turn k s

  avoid : Walk W → String → Bool
  avoid s key_id = failed_transiently s.pool.provider key_id s.sequence.transient

  unfoldable pub turn : Walk W → Turn T W
  unfolding leased_turn avoid
  turn s =
      let (now, w) = env.now s.world in
      let (a, leased) = lease (avoid s) now true s.pool s.attempt in
      leased_turn now (record s { attempt = a; world = w }) leased

  resume : Turn T W → (Walk W → Walk W × Outcome T) → Walk W × Outcome T
  resume (again s) loop = loop s
  resume (ends s o) loop = (s, o)

  unfoldable pub walk_from : ℕ → Walk W → Walk W × Outcome T
  unfolding resume
  walk_from zero s = (s, out_of_fuel)
  walk_from (suc n) s = resume (turn s) (walk_from n)

  -- WalkAttempts, over a view of a pool and the request's sequence.
  unfoldable pub walk_attempts : ℕ → KeyPool → View → Sequence → W → Walk W × Outcome T
  walk_attempts fuel p v sequence w = walk_from fuel (record {
    pool = p;
    attempt = begin v;
    sequence = sequence;
    refusal = none;
    rows = [];
    exchanged = [];
    world = w;
  })
