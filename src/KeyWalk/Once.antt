-- ===== src/KeyWalk/Once.antt =====
-- No key is sent twice in one request's walk through a pool: what is sent is tried, and what is leased
-- is not (credential.go).
use kaana.Prelude.{ℕ, ◌≡◌, ◌≢◌, sym, ◌∙◌, true, false, List, [], ◌∷◌, arith, true≢false, ap}
use kaana.KeyPool.{PooledKey, is_tried}

abbrev pub AllTried : List ℕ → List PooledKey → Type 0
AllTried tried [] = Unit
AllTried tried (k ∷ ks) = (is_tried k.position tried ≡ true) × AllTried tried ks

-- No key has the position.
abbrev pub NotAt : ℕ → List PooledKey → Type 0
NotAt position [] = Unit
NotAt position (k ∷ ks) = (k.position ≢ position) × NotAt position ks

-- No two keys have one position.
abbrev pub AllDistinct : List PooledKey → Type 0
AllDistinct [] = Unit
AllDistinct (k ∷ ks) = NotAt k.position ks × AllDistinct ks

pub record IsOnce (tried : List ℕ) (sent : List PooledKey) : Type 0 where
  pub spent : AllTried tried sent
  pub distinct : AllDistinct sent

-- A key that is taken now may be sent next.
pub record IsFresh (k : PooledKey) (tried : List ℕ) (sent : List PooledKey) : Type 0 where
  pub once : IsOnce tried sent
  pub marked : is_tried k.position tried ≡ true
  pub unsent : NotAt k.position sent

AllTried-cons :
    (n : ℕ) (tried : List ℕ) (sent : List PooledKey)
    → AllTried tried sent
    → AllTried (n ∷ tried) sent
unfolding is_tried
AllTried-cons n tried [] all = tt
AllTried-cons n tried (k ∷ ks) all = (ground (arith, all.0), AllTried-cons n tried ks all.1)

untried-NotAt :
    (n : ℕ) (tried : List ℕ) (sent : List PooledKey)
    → is_tried n tried ≡ false
    → AllTried tried sent
    → NotAt n sent
untried-NotAt n tried [] free all = tt
untried-NotAt n tried (k ∷ ks) free all = (
  λ e. true≢false (sym all.0 ∙ ap (λ m. is_tried m tried) e ∙ free),
  untried-NotAt n tried ks free all.1,
)

pub taken-IsFresh :
    (k : PooledKey) (tried : List ℕ) (sent : List PooledKey)
    → is_tried k.position tried ≡ false
    → IsOnce tried sent
    → IsFresh k (k.position ∷ tried) sent
unfolding is_tried
taken-IsFresh k tried sent free o = record {
  once = record { spent = AllTried-cons k.position tried sent o.spent; distinct = o.distinct };
  marked = ground arith;
  unsent = untried-NotAt k.position tried sent free o.spent;
}

pub sent-IsOnce :
    (k : PooledKey) (tried : List ℕ) (sent : List PooledKey)
    → IsFresh k tried sent
    → IsOnce tried (k ∷ sent)
sent-IsOnce k tried sent f = record {
  spent = (f.marked, f.once.spent);
  distinct = (f.unsent, f.once.distinct);
}
