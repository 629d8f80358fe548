-- ===== src/KeyPool/Leases.antt =====
-- Which key of a pool a walk leases next (KeyAttempt.next in credential.go).
use mathlib.Core.Path.{subst}
use mathlib.Core.Option.{some-injective}
use kaana.Prelude.{
  ℕ, suc, ◌≤◌, ◌<◌, String, ◌≡◌, refl, sym, ◌∙◌, Bool, true, false, Option, none, some, List, [],
  ◌∷◌, ◌&&◌, not, arith, if◌then◌else◌, true≢false,
}
use kaana.Prelude.Time.{Time, after}
use kaana.Funding.{rank}
use kaana.KeyPool.{
  KeyPool, PooledKey, KeyAttempt, in_view, is_tried, is_retired, leasable, find_key, lease,
  take_key, second_pass,
}

-- How many keys of a pool have a position that is not tried.
abbrev pub untried : List PooledKey → List ℕ → ℕ
untried [] tried = 0
untried (k ∷ ks) tried =
    if is_tried k.position tried then untried ks tried else suc (untried ks tried)

untried-cons :
    (ks : List PooledKey) (n : ℕ) (tried : List ℕ) → untried ks (n ∷ tried) ≤ untried ks tried
unfolding is_tried
untried-cons [] n tried = omega arith
untried-cons (k ∷ ks) n tried = ground (arith, untried-cons ks n tried)

-- A key that stands in a pool, before every key for which p holds.
pub data First (p : PooledKey → Bool) (k : PooledKey) : List PooledKey → Type 0 where
  here : {ks : List PooledKey} → p k ≡ true → First p k (k ∷ ks)
  later : {x : PooledKey} {ks : List PooledKey} → p x ≡ false → First p k ks → First p k (x ∷ ks)

find_key-First :
    (p : PooledKey → Bool) (ks : List PooledKey) (k : PooledKey)
    → find_key p ks ≡ some k
    → First p k ks
unfolding find_key
find_key-First p [] k q = ground (arith, q)
find_key-First p (x ∷ ks) k q = choose (p x) refl q (find_key-First p ks k)
  where
    choose :
        (b : Bool)
        → p x ≡ b
        → (if b then some x else find_key p ks) ≡ some k
        → (find_key p ks ≡ some k → First p k ks)
        → First p k (x ∷ ks)
    choose true e r rest = subst (λ y. First p y (x ∷ ks)) (some-injective x k r) (here e)
    choose false e r rest = later e (rest r)

First-holds :
    {p : PooledKey → Bool} {k : PooledKey} {ks : List PooledKey} → First p k ks → p k ≡ true
First-holds (here e) = e
First-holds (later e f) = First-holds f

First-untried :
    {p : PooledKey → Bool} {k : PooledKey} {ks : List PooledKey} (tried : List ℕ)
    → First p k ks
    → is_tried k.position tried ≡ false
    → untried ks (k.position ∷ tried) < untried ks tried
unfolding is_tried
First-untried {p} {k} tried (here {ks} e) t = ground (arith, t, untried-cons ks k.position tried)
First-untried {p} {k} tried (later {x} {ks} e f) t = ground (arith, First-untried tried f t)

-- Every key that p admits is at least as dear as k.
abbrev pub NoneCheaper : ℕ → (PooledKey → Bool) → List PooledKey → Type 0
NoneCheaper n p [] = Unit
NoneCheaper n p (k ∷ ks) = (p k ≡ true → n ≤ rank k.funding) × NoneCheaper n p ks

abbrev pub NoneIn : (PooledKey → Bool) → List PooledKey → Type 0
NoneIn p [] = Unit
NoneIn p (k ∷ ks) = (p k ≡ false) × NoneIn p ks

-- The order that newKeyPool leaves: by rank.
abbrev pub Sorted : List PooledKey → Type 0
Sorted [] = Unit
Sorted (k ∷ ks) = NoneCheaper (rank k.funding) (λ _. true) ks × Sorted ks

NoneCheaper-weaken :
    (n : ℕ) (p : PooledKey → Bool) (ks : List PooledKey)
    → NoneCheaper n (λ _. true) ks
    → NoneCheaper n p ks
NoneCheaper-weaken n p [] h = tt
NoneCheaper-weaken n p (k ∷ ks) h = (λ _. h.0 refl, NoneCheaper-weaken n p ks h.1)

First-cheapest :
    {p : PooledKey → Bool} {k : PooledKey} {ks : List PooledKey}
    → First p k ks
    → Sorted ks
    → NoneCheaper (rank k.funding) p ks
First-cheapest {p} {k} (here {ks} e) s = (λ _. omega arith, NoneCheaper-weaken _ p ks s.0)
First-cheapest {p} {k} (later {x} {ks} e f) s =
    (λ t. absurd (true≢false (sym t ∙ e)), First-cheapest f s.1)

find_key-NoneIn : (p : PooledKey → Bool) (ks : List PooledKey) → find_key p ks ≡ none → NoneIn p ks
unfolding find_key
find_key-NoneIn p [] q = tt
find_key-NoneIn p (x ∷ ks) q = choose (p x) refl q (find_key-NoneIn p ks)
  where
    choose :
        (b : Bool)
        → p x ≡ b
        → (if b then some x else find_key p ks) ≡ none
        → (find_key p ks ≡ none → NoneIn p ks)
        → NoneIn p (x ∷ ks)
    choose true e r rest = ground (arith, r)
    choose false e r rest = (e, rest r)

-- Where a lease comes from.
pub data Leased (avoid : String → Bool) (at : Time) (recovery : Bool) (ks : List PooledKey)
    (a : KeyAttempt) : Option PooledKey → Type 0 where
  no_key : NoneIn (leasable a at recovery) ks → Leased avoid at recovery ks a none
  first_choice :
      {k : PooledKey}
      → First (λ x. leasable a at recovery x && not (avoid x.key_id)) k ks
      → Leased avoid at recovery ks a (some k)
  second_choice :
      {k : PooledKey}
      → NoneIn (λ x. leasable a at recovery x && not (avoid x.key_id)) ks
      → First (leasable a at recovery) k ks
      → Leased avoid at recovery ks a (some k)

module _ (avoid : String → Bool) (at : Time) (recovery : Bool) (p : KeyPool) (a : KeyAttempt) where
  abbrev fresh : PooledKey → Bool
  fresh k = leasable a at recovery k && not (avoid k.key_id)

  choice-Leased :
      Leased avoid at recovery p.keys a (second_pass a at recovery p.keys (find_key fresh p.keys))
  unfolding second_pass
  choice-Leased =
      choose (find_key fresh p.keys) refl (find_key (leasable a at recovery) p.keys) refl
    where
      choose :
          (o : Option PooledKey)
          → find_key fresh p.keys ≡ o
          → (o' : Option PooledKey) → find_key (leasable a at recovery) p.keys ≡ o'
          → Leased avoid at recovery p.keys a (second_pass a at recovery p.keys o)
      choose (some k) e o' e' = first_choice (find_key-First fresh p.keys k e)
      choose none e none e' = rw e' (no_key (find_key-NoneIn (leasable a at recovery) p.keys e'))
      choose none e (some k) e' = rw e' (
          second_choice (find_key-NoneIn fresh p.keys e)
            (find_key-First (leasable a at recovery) p.keys k e'))

  taken_same : (o : Option PooledKey) → o ≡ (take_key a o).1
  unfolding take_key
  taken_same none = refl
  taken_same (some k) = refl

  lease-Leased : Leased avoid at recovery p.keys a (lease avoid at recovery p a).1
  unfolding lease
  lease-Leased = subst (Leased avoid at recovery p.keys a) (taken_same _) choice-Leased

-- A key that a walk may spend now, the cheapest there is.
pub record IsLease (avoid : String → Bool) (at : Time) (recovery : Bool) (ks : List PooledKey)
    (a : KeyAttempt) (k : PooledKey) : Type 0 where
  pub viewed : in_view a.view k ≡ true
  pub unspent : is_tried k.position a.tried ≡ false
  pub rested : after k.retired_until at ≡ false
  pub recovering : is_retired k ≡ true → recovery ≡ true
  pub cheapest :
      NoneCheaper (rank k.funding) (λ x. leasable a at recovery x && not (avoid x.key_id)) ks
  pub last_resort :
      avoid k.key_id ≡ true
      → NoneIn (λ x. leasable a at recovery x && not (avoid x.key_id)) ks
        × NoneCheaper (rank k.funding) (leasable a at recovery) ks

NoneIn-NoneCheaper :
    (n : ℕ) (p : PooledKey → Bool) (ks : List PooledKey) → NoneIn p ks → NoneCheaper n p ks
NoneIn-NoneCheaper n p [] h = tt
NoneIn-NoneCheaper n p (k ∷ ks) h =
    (λ e. absurd (true≢false (sym e ∙ h.0)), NoneIn-NoneCheaper n p ks h.1)

module _ (avoid : String → Bool) (at : Time) (recovery : Bool) (a : KeyAttempt)
    (ks : List PooledKey) (k : PooledKey) where
  guards :
      leasable a at recovery k ≡ true
      → (in_view a.view k ≡ true)
        × (is_tried k.position a.tried ≡ false)
        × (after k.retired_until at ≡ false)
        × (is_retired k ≡ true → recovery ≡ true)
  unfolding leasable
  guards h = ground (arith, h)

  fresh_parts :
      (leasable a at recovery k && not (avoid k.key_id)) ≡ true
      → (leasable a at recovery k ≡ true) × (avoid k.key_id ≡ false)
  fresh_parts h = ground (arith, h)

  Leased-IsLease :
      Sorted ks → Leased avoid at recovery ks a (some k) → IsLease avoid at recovery ks a k
  Leased-IsLease s (first_choice f) =
      let parts = fresh_parts (First-holds f) in
      let g = guards parts.0 in
      record {
        viewed = g.0;
        unspent = g.1;
        rested = g.2;
        recovering = g.3;
        cheapest = First-cheapest f s;
        last_resort = λ e. absurd (true≢false (sym e ∙ parts.1));
      }
  Leased-IsLease s (second_choice n f) =
      let g = guards (First-holds f) in
      record {
        viewed = g.0;
        unspent = g.1;
        rested = g.2;
        recovering = g.3;
        cheapest = NoneIn-NoneCheaper (rank k.funding) _ ks n;
        last_resort = λ _. (n, First-cheapest f s);
      }

-- In a pool in the order of newKeyPool, a walk leases only a key of its view that it has not tried,
-- that is not retired now, and that is out of recovery unless recovery is allowed; no key that it
-- could lease and that has not failed this request transiently is cheaper; and it leases a key that
-- has failed this request transiently only when there is no other.
pub lease-IsLease :
    (avoid : String → Bool) (at : Time) (recovery : Bool) (p : KeyPool) (a : KeyAttempt)
    (k : PooledKey)
    → Sorted p.keys
    → (lease avoid at recovery p a).1 ≡ some k
    → IsLease avoid at recovery p.keys a k
lease-IsLease avoid at recovery p a k s q =
    Leased-IsLease avoid at recovery a p.keys k s
      (subst (Leased avoid at recovery p.keys a) q (lease-Leased avoid at recovery p a))

-- A walk gives up only when no key of its view is usable and untried.
pub lease-NoneIn :
    (avoid : String → Bool) (at : Time) (recovery : Bool) (p : KeyPool) (a : KeyAttempt)
    → (lease avoid at recovery p a).1 ≡ none
    → NoneIn (leasable a at recovery) p.keys
lease-NoneIn avoid at recovery p a q =
    unleased (subst (Leased avoid at recovery p.keys a) q (lease-Leased avoid at recovery p a))
  where
    unleased : Leased avoid at recovery p.keys a none → NoneIn (leasable a at recovery) p.keys
    unleased (no_key n) = n

-- What a lease does to the attempt: the keys that are left to try are fewer.
pub data Taken (p : KeyPool) (a : KeyAttempt) : KeyAttempt × Option PooledKey → Type 0 where
  none_left : Taken p a (a, none)
  took :
      (k : PooledKey)
      → in_view a.view k ≡ true
      → is_tried k.position a.tried ≡ false
      → untried p.keys (k.position ∷ a.tried) < untried p.keys a.tried
      → Taken p a (record a { tried = k.position ∷ a.tried }, some k)

took-First :
    (p : KeyPool) (a : KeyAttempt) (at : Time) (recovery : Bool) (k : PooledKey)
    (q : PooledKey → Bool)
    → First q k p.keys
    → (leasable a at recovery k ≡ true)
    → Taken p a (record a { tried = k.position ∷ a.tried }, some k)
took-First p a at recovery k q f h =
    let g = guards (λ _. true) at recovery a p.keys k h in
    took k g.0 g.1 (First-untried a.tried f g.1)

choice-Taken :
    (avoid : String → Bool) (at : Time) (recovery : Bool) (p : KeyPool) (a : KeyAttempt)
    (o : Option PooledKey)
    → Leased avoid at recovery p.keys a o
    → Taken p a (take_key a o)
unfolding take_key
choice-Taken avoid at recovery p a none l = none_left
choice-Taken avoid at recovery p a (some k) (first_choice f) =
    took-First p a at recovery k _ f (fresh_parts avoid at recovery a p.keys k (First-holds f)).0
choice-Taken avoid at recovery p a (some k) (second_choice n f) =
    took-First p a at recovery k _ f (First-holds f)

pub lease-Taken :
    (avoid : String → Bool) (at : Time) (recovery : Bool) (p : KeyPool) (a : KeyAttempt)
    → Taken p a (lease avoid at recovery p a)
unfolding lease
lease-Taken avoid at recovery p a =
    choice-Taken avoid at recovery p a _ (choice-Leased avoid at recovery p a)
