-- ===== src/KeyPool/Examples.antt =====
-- A pool of three keys, one of them out of rotation.
use kaana.Prelude.{
  ◌≡◌, some, if◌then◌else◌, str_eq, ◌≢◌, List, ℕ, String, refl, Bool, true, false, none, [], ◌∷◌,
  arith, ltb, leb, ◌+◌, ◌-◌, ◌*◌,
}
use kaana.Prelude.Int.{pos, pos_part}
use kaana.Prelude.Floats.{Floats}
use kaana.Funding.{
  class_unstated, unstated, funding_for, from_class, free, paid, prepaid, Funding, class_paid,
  tier_none, tier_free, rank, admits,
}
use kaana.KeyPool.{
  HeaderNumbers, remaining_credits, reset_at, quota_exhausted, quota_unavailable, read_quota,
  KeyPool, PooledKey, KeyAttempt, no_evidence, lease, leasable, in_view, is_tried, find_key,
}
use kaana.KeyPool.Build.{
  KeyDeclaration, DeclaredFunding, stated, no_reason, new_key_pool, build_keys, sort_keys,
  insert_key, is_seen, validate_credential,
}
use kaana.KeyPool.Build.Order.{IsBuilt, new_key_pool-IsBuilt}
use kaana.KeyPool.Quota.{read_quota-NoneSpent, read_quota_order}
use kaana.KeyPool.Leases.{IsLease, lease-IsLease}

abbrev key : ℕ → String → Funding → ℕ → PooledKey
key position id funding until = record {
  position = position;
  key_id = id;
  class = class_paid;
  funding = funding;
  secret = id;
  retired_until = until;
  reason = none;
  has_runtime = false;
  evidence = no_evidence;
  observed_at = 0;
}

abbrev built_key : ℕ → String → String → Funding → PooledKey
built_key position id secret funding = record (key position id funding 0) {
  class = class_unstated;
  secret = secret;
}

abbrev three_keys : KeyPool
three_keys = record {
  provider = "groq";
  policy = record { retirement = pos 900_000_000_000; on_separate_accounts = true };
  customer_owned = false;
  keys = key 2 "free" free 50 ∷ key 1 "grant" prepaid 0 ∷ key 3 "paid" paid 0 ∷ [];
}

abbrev unbounded : KeyAttempt
unbounded = record {
  view = record { only_key_id = ""; ceiling = tier_none };
  tried = [];
  throttle_rotations = 0;
}

abbrev free_only : KeyAttempt
free_only = record unbounded { view = record { only_key_id = ""; ceiling = tier_free } }

never : String → Bool
never id = false

lease-IsLease_example : IsLease never 40 true three_keys.keys unbounded (key 1 "grant" prepaid 0)
unfolding lease leasable in_view find_key is_tried admits rank never
lease-IsLease_example =
    lease-IsLease never 40 true three_keys unbounded (key 1 "grant" prepaid 0)
      ((λ _. omega arith, (λ _. omega arith, tt)), ((λ _. omega arith, tt), (tt, tt))) refl

abbrev declared : String → String → DeclaredFunding → KeyDeclaration
declared id secret funding = record {
  key_id = id;
  secret = secret;
  class = class_unstated;
  funding = funding;
  has_runtime = false;
  reason = no_reason;
  evidence = no_evidence;
  observed_at = 0;
  retired_until = 0;
  lease_until = 0;
}

abbrev declarations : List KeyDeclaration
declarations =
    declared "main" "s1" (stated paid)
    ∷ declared "" "s2" (stated free)
    ∷ declared "spare" "s3" (stated unstated)
    ∷ []

abbrev some_bytes : String → List ℕ
some_bytes s = 0x41 ∷ []

abbrev built : KeyPool
built = record {
  provider = "groq";
  policy = record { retirement = pos 900_000_000_000; on_separate_accounts = false };
  customer_owned = false;
  keys =
      built_key 2 "key-n" "s2" free
      ∷ built_key 1 "main" "s1" paid
      ∷ built_key 3 "spare" "s3" unstated
      ∷ [];
}

new_key_pool-IsBuilt_example : IsBuilt some_bytes (λ s. s) (λ n. "key-n") declarations built
unfolding new_key_pool build_keys sort_keys insert_key is_seen validate_credential rank funding_for
    from_class
new_key_pool-IsBuilt_example =
    new_key_pool-IsBuilt some_bytes (λ s. s) (λ n. "key-n") "groq" declarations
      (record { retirement = pos 0; on_separate_accounts = false }) false built refl

-- Numbers for float64.
abbrev whole : Floats
whole = record {
  Float = ℕ;
  literal = λ n d. n;
  add = λ a b. a + b;
  sub = λ a b. a - b;
  mul = λ a b. a * b;
  div = λ a b. a;
  less = λ a b. ltb a b;
  less_equal = λ a b. leb a b;
  truncate = λ a. pos a;
  from_int = λ a. pos_part a;
}

abbrev quota_numbers : HeaderNumbers
quota_numbers = record {
  floats = whole;
  parse_float = λ s. if str_eq s "0" then some 0 else if str_eq s "12" then some 12 else none;
  seconds = λ s. none;
  unix = λ s. 0;
}

abbrev quota_headers : String → String
quota_headers name =
    if str_eq name "x-credits"
    then "0"
    else if str_eq name "x-balance"
    then "n/a"
    else if str_eq name "x-left"
    then "12"
    else ""

read_quota-NoneSpent_example :
    (read_quota quota_numbers (some quota_headers) (
      ("x-balance", remaining_credits)
      ∷ ("x-left", remaining_credits)
      ∷ ("x-credits", reset_at)
      ∷ [])).state
    ≢ quota_exhausted
read_quota-NoneSpent_example =
    read_quota-NoneSpent quota_numbers quota_headers
      (("x-balance", remaining_credits)
        ∷ ("x-left", remaining_credits)
        ∷ ("x-credits", reset_at)
        ∷ [])
      (λ r e. cc, (λ r e. ground (arith, e), tt))

read_quota_order_example :
    ((read_quota quota_numbers
        (some quota_headers)
        (("x-credits", remaining_credits) ∷ ("x-balance", remaining_credits) ∷ [])).state
      ≡ quota_unavailable)
    × ((read_quota quota_numbers
          (some quota_headers)
          (("x-balance", remaining_credits) ∷ ("x-credits", remaining_credits) ∷ [])).state
        ≡ quota_exhausted)
read_quota_order_example =
    read_quota_order quota_numbers quota_headers "x-credits" "x-balance" refl refl 0 refl refl refl
