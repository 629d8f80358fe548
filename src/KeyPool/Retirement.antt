-- ===== src/KeyPool/Retirement.antt =====
-- What a pool does to its keys: who they are never changes (credential.go).
use kaana.Prelude.{ap, ◌≢◌, none, ℕ, ◌≡◌, refl, ◌∙◌, List, [], ◌∷◌, arith}
use kaana.Prelude.Time.{Time, zero_time}
use kaana.KeyPool.{
  KeyPool, PooledKey, KeyRetirement, Evidence, QuotaObservation, QuotaState, quota_healthy,
  quota_exhausted, quota_unavailable, quota_unknown, exhausted, update_at, retire, mark_usable,
  recover_key, observe, observed,
}
use kaana.KeyPool.Leases.{untried}

-- A change of a key that keeps its position.
abbrev pub IsLocal : (PooledKey → PooledKey) → Type 0
IsLocal f = (k : PooledKey) → (f k).position ≡ k.position

untried-update_at :
    (n : ℕ) (f : PooledKey → PooledKey) (ks : List PooledKey) (tried : List ℕ)
    → IsLocal f
    → untried (update_at n f ks) tried ≡ untried ks tried
unfolding update_at
untried-update_at n f [] tried l = refl
untried-update_at n f (k ∷ ks) tried l = ground (arith, l k, untried-update_at n f ks tried l)

pub untried-retire :
    (n : ℕ) (r : KeyRetirement) (at until : Time) (p : KeyPool) (tried : List ℕ)
    → untried (retire n r at until p).keys tried ≡ untried p.keys tried
unfolding retire
untried-retire n r at until p tried = untried-update_at n _ p.keys tried (λ k. refl)

pub untried-mark_usable :
    (n : ℕ) (e : Evidence) (at : Time) (p : KeyPool) (tried : List ℕ)
    → untried (mark_usable n e at p).keys tried ≡ untried p.keys tried
unfolding mark_usable
untried-mark_usable n e at p tried = untried-update_at n _ p.keys tried (λ k. refl)

pub untried-recover_key :
    (n : ℕ) (p : KeyPool) (tried : List ℕ)
    → untried (recover_key n p).keys tried ≡ untried p.keys tried
unfolding recover_key
untried-recover_key n p tried = untried-mark_usable n _ zero_time p tried

untried-observed :
    (n : ℕ) (o : QuotaObservation) (q : QuotaState) (at : Time) (p : KeyPool) (tried : List ℕ)
    → untried (observed n at o q p).0.keys tried ≡ untried p.keys tried
unfolding observed
untried-observed n o quota_exhausted at p tried =
    untried-update_at n _ (retire n exhausted at o.reset_at p).keys tried (λ k. refl)
    ∙ untried-retire n exhausted at o.reset_at p tried
untried-observed n o quota_healthy at p tried = refl
untried-observed n o quota_unavailable at p tried = refl
untried-observed n o quota_unknown at p tried = refl

pub untried-observe :
    (n : ℕ) (o : QuotaObservation) (at : Time) (p : KeyPool) (tried : List ℕ)
    → untried (observe n o at p).0.keys tried ≡ untried p.keys tried
unfolding observe
untried-observe n o at p tried = untried-observed n o o.state at p tried

observed-same :
    (n : ℕ) (at : Time) (o : QuotaObservation) (q : QuotaState) (p : KeyPool)
    → q ≢ quota_exhausted
    → observed n at o q p ≡ (p, none)
unfolding observed
observed-same n at o quota_exhausted p h = absurd (h refl)
observed-same n at o quota_healthy p h = refl
observed-same n at o quota_unavailable p h = refl
observed-same n at o quota_unknown p h = refl

-- An observation that is not an exhaustion leaves the pool as it was.
pub observe-same :
    (n : ℕ) (o : QuotaObservation) (at : Time) (p : KeyPool)
    → o.state ≢ quota_exhausted
    → (observe n o at p).0 ≡ p
unfolding observe
observe-same n o at p h = ap (λ r. r.0) (observed-same n at o o.state p h)
