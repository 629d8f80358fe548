-- ===== src/KeyPool.antt =====
-- internal/provider/credential.go, the pool: every credential that the process has for one provider
-- and which of them are usable. A view (Bind, WithinFunding) is its binding and its ceiling beside
-- the one pool that it reads; all mutations are applied to that pool. Headers, the parsing of the
-- numbers in them and TrimSpace are parameters.
pub mod Leases
pub mod Retirement
pub mod Build
pub mod Quota
mod Examples
use kaana.Prelude.{
  ℕ, ◌+◌, String, Bool, true, false, Option, none, some, List, [], ◌∷◌, ◌/◌, ◌&&◌, ◌||◌, not, ltb,
  leb, ◌==◌, length, str_eq, if◌then◌else◌,
}
use kaana.Prelude.Int.{ℤ, pos, negsuc, ltb_ℤ}
use kaana.Prelude.Floats.{Floats}
use kaana.Prelude.Time.{
  Time, Duration, zero_time, is_zero, before, after, add_time, sub_time, millisecond,
}
use kaana.Contract.{
  UpstreamCategory, Passthrough, quota, authentication, deployment_unavailable,
  provider_credential_invalid,
}
use kaana.Funding.{Funding, FundingTier, tier_none, KeyClass, admits, valid_tier}
use kaana.Failure.{Failure, Upstream, upstream}

-- KeyRetirement, where it is not empty.
pub data KeyRetirement : Type 0 where
  exhausted rejected : KeyRetirement

-- The `evidence` of a key.
pub data Evidence : Type 0 where
  no_evidence provider_answer quota_header response_status : Evidence
  recorded : String → Evidence

pub record PooledKey : Type 0 where
  pub position : ℕ
  pub key_id : String
  pub class : KeyClass
  pub funding : Funding
  pub secret : String
  pub retired_until : Time
  pub reason : Option KeyRetirement
  pub has_runtime : Bool
  pub evidence : Evidence
  pub observed_at : Time

pub record KeyPolicy : Type 0 where
  pub retirement : Duration
  pub on_separate_accounts : Bool

pub record KeyPool : Type 0 where
  pub provider : String
  pub policy : KeyPolicy
  pub customer_owned : Bool
  pub keys : List PooledKey

abbrev is_some : Option KeyRetirement → Bool
is_some none = false
is_some (some r) = true

-- onlyKeyID and ceiling of a view; "" and `tier_none` for the pool itself.
pub record View : Type 0 where
  pub only_key_id : String
  pub ceiling : FundingTier

-- Whether a view may spend a key: the two tests that every loop over the keys begins with.
unfoldable pub in_view : View → PooledKey → Bool
in_view v k =
    (str_eq v.only_key_id "" || str_eq k.key_id v.only_key_id) && admits v.ceiling k.funding

abbrev any_key : (PooledKey → Bool) → List PooledKey → Bool
any_key p [] = false
any_key p (k ∷ ks) = if p k then true else any_key p ks

unfoldable pub bind : (String → String) → String → KeyPool → View → Option View
bind trim_space key_id p v =
    if not (str_eq (trim_space key_id) key_id) || str_eq key_id ""
    then none
    else if any_key (λ k. str_eq k.key_id key_id) p.keys
    then some (record v { only_key_id = key_id })
    else none

unfoldable pub within_funding : FundingTier → KeyPool → View → Option View
within_funding tier_none p v = some v
within_funding ceiling p v =
    if not (valid_tier ceiling)
    then none
    else if p.customer_owned
    then none
    else if any_key (in_view (record v { ceiling = ceiling })) p.keys
    then some (record v { ceiling = ceiling })
    else none

funding_in : String → List PooledKey → Option Funding
funding_in key_id [] = none
funding_in key_id (k ∷ ks) = if str_eq k.key_id key_id then some k.funding else funding_in key_id ks

unfoldable pub funding_of : String → KeyPool → Option Funding
unfolding funding_in
funding_of key_id p = if str_eq key_id "" then none else funding_in key_id p.keys

-- The first key of a position, changed.
unfoldable pub update_at : ℕ → (PooledKey → PooledKey) → List PooledKey → List PooledKey
update_at position f [] = []
update_at position f (k ∷ ks) =
    if k.position == position then f k ∷ ks else k ∷ update_at position f ks

-- `if !until.After(at) { until = at.Add(retirement) }`
abbrev pub retire_until : KeyPool → Time → Time → Time
retire_until p at until = if after until at then until else add_time at p.policy.retirement

unfoldable pub retire : ℕ → KeyRetirement → Time → Time → KeyPool → KeyPool
retire position reason at until p = record p {
  keys =
      update_at position
        (λ k. record k {
          retired_until = retire_until p at until;
          reason = some reason;
          evidence = provider_answer;
          observed_at = at;
        })
        p.keys;
}

unfoldable pub mark_usable : ℕ → Evidence → Time → KeyPool → KeyPool
mark_usable position evidence at p = record p {
  keys =
      update_at position
        (λ k. record k {
          retired_until = zero_time;
          reason = none;
          evidence = evidence;
          observed_at = at;
        })
        p.keys;
}

-- recover
unfoldable pub recover_key : ℕ → KeyPool → KeyPool
unfolding mark_usable
recover_key position p = mark_usable position no_evidence zero_time p

pub data QuotaState : Type 0 where
  quota_healthy quota_exhausted quota_unavailable quota_unknown : QuotaState

pub data QuotaSignal : Type 0 where
  remaining_credits reset_at : QuotaSignal
  other_signal : String → QuotaSignal

pub record QuotaObservation : Type 0 where
  pub state : QuotaState
  pub reset_at : Time

-- Go's float64, and the library's strconv.ParseFloat, strconv.ParseInt and time.Unix: a parser gives
-- `none` for an error.
pub record HeaderNumbers : Type 1 where
  pub floats : Floats
  pub parse_float : String → Option floats.Float
  pub seconds : String → Option ℤ
  pub unix : ℤ → Time

abbrev unless_exhausted : QuotaState → QuotaState
unless_exhausted quota_exhausted = quota_exhausted
unless_exhausted _ = quota_healthy

-- remaining <= 0
abbrev pub is_spent : (n : HeaderNumbers) → n.floats.Float → Bool
is_spent n remaining = n.floats.less_equal remaining (n.floats.literal 0 1)

abbrev credits_state : (n : HeaderNumbers) → Option n.floats.Float → QuotaState → QuotaState
credits_state n none old = quota_unavailable
credits_state n (some remaining) old =
    if is_spent n remaining then quota_exhausted else unless_exhausted old

abbrev reset_time : HeaderNumbers → Option ℤ → Time → Time
reset_time n none old = old
reset_time n (some s) old = if ltb_ℤ (pos 0) s then n.unix s else old

-- The `switch` on a header that is present.
unfoldable pub read_signal :
    HeaderNumbers → QuotaSignal → String → QuotaObservation → QuotaObservation
read_signal n remaining_credits raw o = record o {
  state = credits_state n (n.parse_float raw) o.state;
}
read_signal n reset_at raw o = record o { reset_at = reset_time n (n.seconds raw) o.reset_at }
read_signal n (other_signal s) raw o = o

-- The loop over the mapping, in the order that Go's map iteration happens to give.
unfoldable pub read_from :
    HeaderNumbers
    → (String → String)
    → List (String × QuotaSignal)
    → QuotaObservation
    → QuotaObservation
read_from n header [] o = o
read_from n header ((name, signal) ∷ rest) o =
    read_from n header rest
      (if str_eq (header name) "" then o else read_signal n signal (header name) o)

-- QuotaHeaders.Read; `header` gives a header's trimmed value, `none` is the nil header.
unfoldable pub read_quota :
    HeaderNumbers → Option (String → String) → List (String × QuotaSignal) → QuotaObservation
read_quota n none m = record { state = quota_unknown; reset_at = zero_time }
read_quota n (some header) m =
    read_from n header m (record { state = quota_unknown; reset_at = zero_time })

observed : ℕ → Time → QuotaObservation → QuotaState → KeyPool → KeyPool × Option Time
unfolding retire
observed position at o quota_exhausted p =
    let p1 = retire position exhausted at o.reset_at p in
    (
      record p1 { keys = update_at position (λ k. record k { evidence = quota_header }) p1.keys },
      some (retire_until p at o.reset_at),
    )
observed position at o _ p = (p, none)

-- observe: the moment until which an exhausted key is out, `none` for (false, zero time).
unfoldable pub observe : ℕ → QuotaObservation → Time → KeyPool → KeyPool × Option Time
unfolding observed
observe position o at p = observed position at o o.state p

-- What the loop of NoUsableCredential gathers.
pub record Unusable : Type 0 where
  pub category : UpstreamCategory
  pub earliest : Time
  pub count : ℕ

abbrev reason_category : Option KeyRetirement → UpstreamCategory → UpstreamCategory
reason_category (some rejected) c = authentication
reason_category _ c = c

unfoldable pub gather : View → List PooledKey → Unusable → Unusable
gather v [] u = u
gather v (k ∷ ks) u = gather v ks (
    if not (in_view v k) then u else record {
      category = reason_category k.reason u.category;
      earliest =
          if is_zero u.earliest || before k.retired_until u.earliest
          then k.retired_until
          else u.earliest;
      count = u.count + 1;
    })

-- int(wait.Milliseconds()) of a positive wait, 0 otherwise
abbrev wait_ms : Duration → ℤ
wait_ms (pos n) = pos (n / millisecond)
wait_ms (negsuc n) = pos 0

-- NoUsableCredential; `describe` gives the error's text and `said` its passthrough.
unfoldable pub no_usable_credential :
    (KeyPool → ℕ → String) → (KeyPool → Option Passthrough) → View → Time → KeyPool → Failure
unfolding gather
no_usable_credential describe said v at p =
    if length p.keys == 0
    then upstream (record {
      code = provider_credential_invalid;
      category = authentication;
      detail = describe p 0;
      retry_after_ms = pos 0;
      passthrough = said p;
      recurs_on_this_route = false;
    })
    else (let u = gather v p.keys (record { category = quota; earliest = zero_time; count = 0 }) in
        upstream (record {
          code = deployment_unavailable;
          category = u.category;
          detail = describe p u.count;
          retry_after_ms = wait_ms (sub_time u.earliest at);
          passthrough = said p;
          recurs_on_this_route = false;
        }))

-- KeyAttempt, one request's walk: the positions it has tried and the rotations spent on a throttle.
pub record KeyAttempt : Type 0 where
  pub view : View
  pub tried : List ℕ
  pub throttle_rotations : ℕ

unfoldable pub begin : View → KeyAttempt
begin v = record { view = v; tried = []; throttle_rotations = 0 }

unfoldable pub is_tried : ℕ → List ℕ → Bool
is_tried n [] = false
is_tried n (t ∷ ts) = if n == t then true else is_tried n ts

abbrev pub is_retired : PooledKey → Bool
is_retired k = is_some k.reason

-- The guards of `next` but the last one.
unfoldable pub leasable : KeyAttempt → Time → Bool → PooledKey → Bool
leasable a at allow_recovery k =
    in_view a.view k
    && (not (is_tried k.position a.tried)
        && (not (after k.retired_until at) && not (is_retired k && not allow_recovery)))

unfoldable pub find_key : (PooledKey → Bool) → List PooledKey → Option PooledKey
find_key p [] = none
find_key p (k ∷ ks) = if p k then some k else find_key p ks

second_pass : KeyAttempt → Time → Bool → List PooledKey → Option PooledKey → Option PooledKey
second_pass a at allow_recovery ks (some k) = some k
second_pass a at allow_recovery ks none = find_key (leasable a at allow_recovery) ks

take_key : KeyAttempt → Option PooledKey → KeyAttempt × Option PooledKey
take_key a none = (a, none)
take_key a (some k) = (record a { tried = k.position ∷ a.tried }, some k)

-- The two passes; `avoid` names the keys that failed this request transiently. The key that is
-- leased is given as it stands in the pool: a Key's `recovery` is `is_retired`.
unfoldable pub lease :
    (String → Bool) → Time → Bool → KeyPool → KeyAttempt → KeyAttempt × Option PooledKey
unfolding take_key second_pass
lease avoid at allow_recovery p a = take_key a (
    second_pass a at allow_recovery p.keys
      (find_key (λ k. leasable a at allow_recovery k && not (avoid k.key_id)) p.keys))

-- AllowThrottleRotation
unfoldable pub allow_throttle_rotation : KeyPool → KeyAttempt → KeyAttempt × Bool
allow_throttle_rotation p a =
    if not p.policy.on_separate_accounts || ltb 0 a.throttle_rotations
    then (a, false)
    else (record a { throttle_rotations = a.throttle_rotations + 1 }, true)
