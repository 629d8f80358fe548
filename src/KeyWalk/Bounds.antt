-- ===== src/KeyWalk/Bounds.antt =====
-- How far one request's walk through a pool goes (credential.go).
use mathlib.Core.Path.{subst}
use kaana.Prelude.{
  ℕ, zero, suc, ◌+◌, ◌≤◌, ◌<◌, ◌≡◌, refl, ap, sym, ◌∙◌, Bool, true, false, Option, none, some, List,
  [], ◌∷◌, ◌&&◌, not, arith, length, if◌then◌else◌,
}
use kaana.Prelude.Int.{pos}
use kaana.Prelude.Time.{Time, zero_time, add_time, minute}
use kaana.Failure.{Failure}
use kaana.KeyPool.{
  KeyPool, PooledKey, KeyAttempt, KeyRetirement, is_tried, Evidence, provider_answer,
  response_status, recorded, View, in_view, retire, mark_usable, recover_key, observe, begin,
  is_retired, allow_throttle_rotation,
}
use kaana.KeyPool.Leases.{untried, Taken, none_left, took, lease-Taken}
use kaana.KeyPool.Retirement.{
  untried-retire, untried-mark_usable, untried-recover_key, untried-observe,
}
use kaana.KeyWalk.Once.{IsOnce, IsFresh, AllDistinct, taken-IsFresh, sent-IsOnce}
use kaana.KeyWalk.{
  Walk, Turn, again, ends, Outcome, answered, failed, out_of_fuel, Env, Exchange, transport_failed,
  accepted, refused, Claim, claimed, usable, busy, claim_failed, claim_unknown, CredentialVerdict,
  verdict_healthy, verdict_exhausted, verdict_rejected, verdict_request_fault, AttemptOutcome,
  Sequence, mark_transient, record_row, with_pool, with_refusal, retired_turn, throttle_turn,
  verdict_turn, accepted_turn, exchanged_turn, try_turn, claim_turn, none_leased, leased_turn, turn,
  resume, walk_from, walk_attempts, outcome_of, evidence_of, until_of, row_healthy_failure,
  row_accepted, row_transport_failure, credential_verdict, throttled, avoid,
}

-- Every key that a call was sent with is one of the view.
abbrev pub AllIn : View → List PooledKey → Type 0
AllIn v [] = Unit
AllIn v (k ∷ ks) = (in_view v k ≡ true) × AllIn v ks

-- The walk's view, the keys that it has sent a call with, and how many it has left to try: with
-- those they are at most `limit`, and fewer than `left`.
record IsWithin (v : View) (limit left : ℕ) (view : View) (tried : List ℕ) (sent : List PooledKey)
    (rest : ℕ) : Type 0 where
  once : IsOnce tried sent
  viewed : view ≡ v
  allowed : AllIn v sent
  few : length sent + rest ≤ limit
  fewer : rest < left

abbrev pub IsReturn : {T : Type 0} → Outcome T → Type 0
IsReturn (answered v k) = Unit
IsReturn (failed k f) = Unit
IsReturn out_of_fuel = ⊥

allow_same :
    (p : KeyPool) (a : KeyAttempt)
    → ((allow_throttle_rotation p a).0.view ≡ a.view)
      × ((allow_throttle_rotation p a).0.tried ≡ a.tried)
unfolding allow_throttle_rotation
allow_same p a = ground arith

module _ {W : Type 0} (v : View) (limit left : ℕ) where
  abbrev Ok : Walk W → Type 0
  Ok s =
      IsWithin v limit left s.attempt.view s.attempt.tried s.exchanged
        (untried s.pool.keys s.attempt.tried)

  Ok-pool :
      (s : Walk W) (p : KeyPool)
      → untried p.keys s.attempt.tried ≡ untried s.pool.keys s.attempt.tried
      → Ok s
      → Ok (with_pool p s)
  unfolding with_pool
  Ok-pool s p e o =
      subst (λ n. IsWithin v limit left s.attempt.view s.attempt.tried s.exchanged n) (sym e) o

  Ok-row :
      (named : Bool) (k : PooledKey) (index : ℕ) (outcome : AttemptOutcome) (e : Evidence)
      (at until : Time) (s : Walk W)
      → Ok s
      → Ok (record_row named k index outcome e at until s)
  unfolding record_row
  Ok-row named k index outcome e at until s o = choose (not (k.has_runtime && named))
    where
      choose :
          (b : Bool)
          → Ok (
              if b then s else record s {
                rows =
                    record {
                      index = index;
                      key_id = k.key_id;
                      outcome = outcome;
                      evidence = e;
                      occurred_at = at;
                      retired_until = until;
                    }
                    ∷ s.rows;
              })
      choose true = o
      choose false = o

  Ok-allowed :
      (s : Walk W) → Ok s → Ok (record s { attempt = (allow_throttle_rotation s.pool s.attempt).0 })
  Ok-allowed s o =
      let same = allow_same s.pool s.attempt in
      record {
        once = subst (λ t. IsOnce t s.exchanged) (sym same.1) o.once;
        viewed = same.0 ∙ o.viewed;
        allowed = o.allowed;
        few = subst (λ t. length s.exchanged + untried s.pool.keys t ≤ limit) (sym same.1) o.few;
        fewer = subst (λ t. untried s.pool.keys t < left) (sym same.1) o.fewer;
      }

  Ok-mark : (k : PooledKey) (s : Walk W) → Ok s → Ok (mark_transient k s)
  unfolding mark_transient
  Ok-mark k s o = o

  Ok-unless :
      (b : Bool) (k : PooledKey) (s : Walk W) → Ok s → Ok (if b then s else mark_transient k s)
  Ok-unless true k s o = o
  Ok-unless false k s o = Ok-mark k s o

data Progress {T W : Type 0} (v : View) (limit left : ℕ) : Turn T W → Type 0 where
  goes_on : {s : Walk W} → Ok v limit left s → Progress v limit left (again s)
  returns :
      {s : Walk W} {o : Outcome T} {m : ℕ}
      → Ok v limit m s
      → IsReturn o
      → Progress v limit left (ends s o)

module _ {T W : Type 0} (named : Bool) (v : View) (limit left : ℕ) where
  retired-Progress :
      (r : KeyRetirement) (outcome : AttemptOutcome) (k : PooledKey) (index : ℕ) (at : Time)
      (f : Failure) (s : Walk W)
      → Ok v limit left s
      → Progress {T = T} v limit left (retired_turn named r outcome k index at f s)
  unfolding retired_turn with_refusal
  retired-Progress r outcome k index at f s o = goes_on (
      Ok-row v limit left named k index outcome _ at _
        (with_pool (retire k.position r at zero_time s.pool) s)
        (Ok-pool v limit left s (retire k.position r at zero_time s.pool)
          (untried-retire k.position r at zero_time s.pool s.attempt.tried) o))

  throttle-Progress :
      (k : PooledKey) (f : Failure) (s : Walk W)
      → Ok v limit left s
      → Progress {T = T} v limit left (throttle_turn named k f s)
  unfolding throttle_turn with_refusal
  throttle-Progress k f s o = choose (throttled f && (allow_throttle_rotation s.pool s.attempt).1)
    where
      choose :
          (b : Bool)
          → Progress {T = T} v limit left (
              if b
              then again (
                  with_refusal k f
                    (record s { attempt = (allow_throttle_rotation s.pool s.attempt).0 }))
              else ends s (failed (some k) f))
      choose true = goes_on (Ok-allowed v limit left s o)
      choose false = returns o tt

  verdict-Progress :
      (c : CredentialVerdict) (k : PooledKey) (index : ℕ) (at : Time) (out : Option Time)
      (f : Failure) (s : Walk W)
      → Ok v limit left s
      → Progress {T = T} v limit left (verdict_turn named c k index at out f s)
  unfolding verdict_turn
  verdict-Progress verdict_exhausted k index at out f s o = retired-Progress _ _ k index at f s o
  verdict-Progress verdict_rejected k index at out f s o = retired-Progress _ _ k index at f s o
  verdict-Progress verdict_request_fault k index at out f s o =
      returns (Ok-row v limit left named k index _ _ at _ s o) tt
  verdict-Progress verdict_healthy k index at out f s o = throttle-Progress k f _ (
      Ok-unless v limit left s.pool.customer_owned k _ (
        Ok-row v limit left named k index (outcome_of row_healthy_failure out)
          (evidence_of provider_answer out) at (until_of out) s o))

  accepted-Progress :
      (value : T) (k : PooledKey) (index : ℕ) (at : Time) (out : Option Time) (s : Walk W)
      → Ok v limit left s
      → Progress v limit left (accepted_turn named value k index at out s)
  unfolding accepted_turn
  accepted-Progress value k index at (some until) s o =
      returns (Ok-row v limit left named k index _ _ at _ s o) tt
  accepted-Progress value k index at none s o =
      returns
        (Ok-pool v limit left logged (mark_usable k.position response_status at logged.pool)
          (untried-mark_usable k.position response_status at logged.pool logged.attempt.tried)
          (Ok-row v limit left named k index row_accepted response_status at zero_time s o))
        tt
    where
      logged : Walk W
      logged = record_row named k index row_accepted response_status at zero_time s

  exchanged-Progress :
      (x : Exchange T) (k : PooledKey) (index : ℕ) (at : Time) (s : Walk W)
      → Ok v limit left s
      → Progress v limit left (exchanged_turn named x k index at s)
  unfolding exchanged_turn
  exchanged-Progress (transport_failed f) k index at s o =
      returns
        (Ok-mark v limit left k _ (
          Ok-row v limit left named k index row_transport_failure (recorded "transport") at
            zero_time s o))
        tt
  exchanged-Progress (accepted said value) k index at s o = accepted-Progress value k index at _ _ (
      Ok-pool v limit left s (observe k.position said at s.pool).0
        (untried-observe k.position said at s.pool s.attempt.tried) o)
  exchanged-Progress (refused said f) k index at s o =
      verdict-Progress (credential_verdict f) k index at _ f _ (
        Ok-pool v limit left s (observe k.position said at s.pool).0
          (untried-observe k.position said at s.pool s.attempt.tried) o)

-- One more call fits in.
module _ {T W : Type 0} (env : Env T W) (named : Bool) (v : View) (limit left : ℕ) where
  record HasRoom (s : Walk W) (k : PooledKey) : Type 0 where
    fresh : IsFresh k s.attempt.tried s.exchanged
    viewed : s.attempt.view ≡ v
    allowed : AllIn v s.exchanged
    spare : suc (length s.exchanged) + untried s.pool.keys s.attempt.tried ≤ limit
    fewer : untried s.pool.keys s.attempt.tried < left
    key_allowed : in_view v k ≡ true

  room-Ok : (s : Walk W) (k : PooledKey) → HasRoom s k → Ok v limit left s
  room-Ok s k r = record {
    once = r.fresh.once;
    viewed = r.viewed;
    allowed = r.allowed;
    few = omega (arith, r.spare);
    fewer = r.fewer;
  }

  try-Progress :
      (k : PooledKey) (s : Walk W) → HasRoom s k → Progress v limit left (try_turn env named k s)
  unfolding try_turn
  try-Progress k s r = exchanged-Progress named v limit left _ k _ _ _ (record {
    once = sent-IsOnce k s.attempt.tried s.exchanged r.fresh;
    viewed = r.viewed;
    allowed = (r.key_allowed, r.allowed);
    few = r.spare;
    fewer = r.fewer;
  })

  claim-Progress :
      (c : Claim) (k : PooledKey) (s : Walk W)
      → HasRoom s k
      → Progress v limit left (claim_turn env named c k s)
  unfolding claim_turn
  claim-Progress claimed k s r = try-Progress k s r
  claim-Progress usable k s r =
      try-Progress k (record s { pool = recover_key k.position s.pool })
        (let e = untried-recover_key k.position s.pool s.attempt.tried in
          record {
            fresh = r.fresh;
            viewed = r.viewed;
            allowed = r.allowed;
            spare = omega (arith, r.spare, e);
            fewer = omega (arith, r.fewer, e);
            key_allowed = r.key_allowed;
          })
  claim-Progress busy k s r = goes_on (room-Ok s k r)
  claim-Progress (claim_failed f) k s r = returns (room-Ok s k r) tt
  claim-Progress (claim_unknown d) k s r = returns (room-Ok s k r) tt

  none-Progress :
      (now : Time) (m : ℕ) (s : Walk W) (o : Option (PooledKey × Failure))
      → Ok v limit m s
      → Progress v limit left (none_leased env named now s o)
  unfolding none_leased
  none-Progress now m s (some (k, f)) o = returns o tt
  none-Progress now m s none o = returns o tt

  some-Progress :
      (now : Time) (s : Walk W) (k : PooledKey)
      → HasRoom s k
      → Progress v limit left (leased_turn env named now s (some k))
  unfolding leased_turn
  some-Progress now s k r = choose (is_retired k && k.has_runtime)
    where
      answer : Claim × W
      answer = env.claim k now (add_time now (pos minute)) s.world

      choose :
          (b : Bool)
          → Progress v limit left (
              if b
              then claim_turn env named answer.0 k (record s { world = answer.1 })
              else try_turn env named k s)
      choose true =
          claim-Progress answer.0 k (record s { world = answer.1 })
            (record {
              fresh = r.fresh;
              viewed = r.viewed;
              allowed = r.allowed;
              spare = r.spare;
              fewer = r.fewer;
              key_allowed = r.key_allowed;
            })
      choose false = try-Progress k s r

-- What the walk has not used.
abbrev pub left_of : {W : Type 0} → Walk W → ℕ
left_of s = untried s.pool.keys s.attempt.tried

module _ {T W : Type 0} (env : Env T W) (named : Bool) (v : View) (limit : ℕ) where
  Started : Walk W → Type 0
  Started s = Ok v limit (suc (left_of s)) s

  Taken-Progress :
      (now : Time) (w : W) (s : Walk W) (r : KeyAttempt × Option PooledKey)
      → Taken s.pool s.attempt r
      → Started s
      → Progress v limit
          (left_of s)
          (leased_turn env named now (record s { attempt = r.0; world = w }) r.1)
  unfolding leased_turn Started
  Taken-Progress now w s r none_left o =
      none-Progress env named v limit (left_of s) now (suc (left_of s)) (record s { world = w })
        s.refusal
        (record {
          once = o.once;
          viewed = o.viewed;
          allowed = o.allowed;
          few = o.few;
          fewer = o.fewer;
        })
  Taken-Progress now w s r (took k i free l) o =
      some-Progress env named v limit (left_of s) now
        (record s {
          attempt = record s.attempt { tried = k.position ∷ s.attempt.tried };
          world = w;
        })
        k
        (record {
          fresh = taken-IsFresh k s.attempt.tried s.exchanged free o.once;
          viewed = o.viewed;
          allowed = o.allowed;
          spare = omega (arith, o.few, l);
          fewer = l;
          key_allowed = subst (λ x. in_view x k ≡ true) o.viewed i;
        })

  turn-Progress : (s : Walk W) → Started s → Progress v limit (left_of s) (turn env named s)
  unfolding turn
  turn-Progress s o =
      let clock = env.now s.world in
      Taken-Progress clock.0 clock.1 s _
        (lease-Taken (avoid env named s) clock.0 true s.pool s.attempt) o

  -- What a walk ends with.
  pub record IsDone (r : Walk W × Outcome T) : Type 0 where
    pub finished : IsReturn r.1
    pub allowed : AllIn v r.0.exchanged
    pub distinct : AllDistinct r.0.exchanged
    pub few : length r.0.exchanged ≤ limit

  resumed-IsDone :
      (n left : ℕ) (t : Turn T W)
      → left < suc n
      → Progress v limit left t
      → ((s : Walk W) → left_of s < n → Started s → IsDone (walk_from env named n s))
      → IsDone (resume env named t (walk_from env named n))
  unfolding resume Started
  resumed-IsDone n left t l (goes_on {s} o) rest = rest s (omega (arith, l, o.fewer)) (record {
    once = o.once;
    viewed = o.viewed;
    allowed = o.allowed;
    few = o.few;
    fewer = omega arith;
  })
  resumed-IsDone n left t l (returns {s} {o} k i) rest = record {
    finished = i;
    allowed = k.allowed;
    distinct = k.once.distinct;
    few = omega (arith, k.few);
  }

  walk_from-IsDone :
      (n : ℕ) (s : Walk W) → left_of s < n → Started s → IsDone (walk_from env named n s)
  unfolding walk_from
  walk_from-IsDone zero s l o = absurd (omega (arith, l))
  walk_from-IsDone (suc n) s l o =
      resumed-IsDone n (left_of s) (turn env named s) l (turn-Progress s o) (walk_from-IsDone n)

untried-start : (ks : List PooledKey) → untried ks [] ≡ length ks
unfolding is_tried
untried-start [] = refl
untried-start (k ∷ ks) = ap suc (untried-start ks)

-- Whatever the upstream, the runtime and the clock answer, a walk over a view of a pool returns after
-- at most one turn more than the pool has keys; it sends no more calls than the pool has keys, no two
-- with the key at one position of the pool, and only with keys of the view: those that its binding
-- names and its funding ceiling admits.
pub walk_attempts-IsDone :
    {T W : Type 0} (env : Env T W) (named : Bool) (p : KeyPool) (v : View) (sequence : Sequence)
    (w : W)
    → IsDone env named v
        (length p.keys)
        (walk_attempts env named (suc (length p.keys)) p v sequence w)
unfolding walk_attempts begin Started
walk_attempts-IsDone env named p v sequence w =
    walk_from-IsDone env named v (length p.keys) (suc (length p.keys)) _
      (omega (arith, untried-start p.keys))
      (record {
        once = record { spent = tt; distinct = tt };
        viewed = refl;
        allowed = tt;
        few = omega (arith, untried-start p.keys);
        fewer = omega arith;
      })
