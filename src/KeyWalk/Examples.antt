-- ===== src/KeyWalk/Examples.antt =====
-- A walk over two keys of which the upstream refuses to bill the first.
use kaana.Prelude.{◌≡◌, ℕ, zero, suc, ◌+◌, ◌-◌, String, true, false, none, [], ◌∷◌}
use kaana.Prelude.Int.{pos}
use kaana.Contract.{provider_billing_refused, quota}
use kaana.Failure.{upstream}
use kaana.Funding.{free, paid, class_paid, tier_none, Funding}
use kaana.KeyPool.{KeyPool, PooledKey, View, quota_unknown, no_evidence}
use kaana.Failure.{Failure, client_gone, as_upstream}
use kaana.Contract.{rate_limited, rate_limit}
use kaana.KeyPool.{QuotaObservation}
use kaana.KeyWalk.Verdicts.{pool_after, unblamed-pool_after}
use kaana.KeyWalk.{
  Walk, transport_failed, exchanged_turn, credential_verdict, code_verdict, Env, Exchange, claimed,
  refused, accepted, walk_attempts,
}
use kaana.KeyWalk.Bounds.{IsDone, walk_attempts-IsDone}

abbrev key : ℕ → String → Funding → PooledKey
key position id funding = record {
  position = position;
  key_id = id;
  class = class_paid;
  funding = funding;
  secret = id;
  retired_until = 0;
  reason = none;
  has_runtime = true;
  evidence = no_evidence;
  observed_at = 0;
}

abbrev two_keys : KeyPool
two_keys = record {
  provider = "groq";
  policy = record { retirement = pos 900_000_000_000; on_separate_accounts = false };
  customer_owned = false;
  keys = key 1 "free" free ∷ key 2 "paid" paid ∷ [];
}

abbrev by_position : ℕ → Exchange String
by_position zero = accepted (record { state = quota_unknown; reset_at = 0 }) "answer"
by_position (suc n) =
    refused (record { state = quota_unknown; reset_at = 0 })
      (upstream (record {
        code = provider_billing_refused;
        category = quota;
        detail = "no balance";
        retry_after_ms = pos 0;
        passthrough = none;
        recurs_on_this_route = false;
      }))

-- The world counts its clock's readings; the upstream bills the second key only.
abbrev env : Env String ℕ
env = record {
  now = λ w. (w, w + 1);
  claim = λ k now until w. (claimed, w);
  exchange = λ k w. (by_position (2 - k.position), w);
  describe = λ p n. "none left";
  said = λ p. none;
}

abbrev any_key : View
any_key = record { only_key_id = ""; ceiling = tier_none }

walk_attempts-IsDone_example :
    IsDone env true any_key 2
      (walk_attempts env true 3 two_keys any_key (record { next_index = 0; transient = [] }) 10)
walk_attempts-IsDone_example =
    walk_attempts-IsDone env true two_keys any_key (record { next_index = 0; transient = [] }) 10

abbrev busy_upstream : Failure
busy_upstream = upstream (record {
  code = rate_limited;
  category = rate_limit;
  detail = "slow down";
  retry_after_ms = pos 0;
  passthrough = none;
  recurs_on_this_route = false;
})

abbrev nothing_said : QuotaObservation
nothing_said = record { state = quota_unknown; reset_at = 0 }

abbrev walking : Walk ℕ
walking = record {
  pool = two_keys;
  attempt = record { view = any_key; tried = 1 ∷ []; throttle_rotations = 0 };
  sequence = record { next_index = 1; transient = [] };
  refusal = none;
  rows = [];
  exchanged = key 1 "free" free ∷ [];
  world = 10;
}

unblamed-pool_after_example :
    (pool_after {T = String}
        (exchanged_turn true (refused nothing_said busy_upstream) (key 1 "free" free) 0 11 walking)
      ≡ two_keys)
    × (pool_after {T = String}
          (exchanged_turn true (transport_failed client_gone) (key 1 "free" free) 0 11 walking)
        ≡ two_keys)
unfolding credential_verdict as_upstream code_verdict
unblamed-pool_after_example =
    unblamed-pool_after String true (key 1 "free" free) 0 11 nothing_said busy_upstream client_gone
      walking tt (λ q. cc)
