-- ===== src/KeyPool/Build/Order.antt =====
-- A pool that newKeyPool builds: its keys in the economic order, each declaration once.
use mathlib.Core.Path.{subst}
use kaana.Prelude.{
  ℕ, ◌+◌, ◌≤◌, ◌≡◌, refl, sym, ap, ◌∙◌, String, Bool, true, false, Option, none, some, List, [],
  ◌∷◌, ◌⊎◌, inl, inr, leb, length, str_eq, eq_iff, Bool-cases, if◌then◌else◌, arith,
}
use kaana.Prelude.Int.{pos, ◌≤ℤ◌}
use kaana.Funding.{Funding, rank}
use kaana.KeyPool.{KeyPool, KeyPolicy, PooledKey, KeyRetirement}
use kaana.KeyPool.Leases.{Sorted, NoneCheaper}
use kaana.KeyPool.Build.{
  KeyDeclaration, PoolError, build_keys, insert_key, sort_keys, new_key_pool, pool_of, with_funding,
  with_reason, declared_reason, pooled, declared_funding, id_of, is_seen, then_rest,
}

-- How many keys of a pool a test holds for.
abbrev pub count : (PooledKey → Bool) → List PooledKey → ℕ
count p [] = 0
count p (k ∷ ks) = (if p k then 1 else 0) + count p ks

count-insert_key :
    (p : PooledKey → Bool) (k : PooledKey) (ks : List PooledKey)
    → count p (insert_key k ks) ≡ count p (k ∷ ks)
unfolding insert_key
count-insert_key p k [] = refl
count-insert_key p k (x ∷ xs) = ground (arith, count-insert_key p k xs)

count-sort_keys : (p : PooledKey → Bool) (ks : List PooledKey) → count p (sort_keys ks) ≡ count p ks
unfolding sort_keys
count-sort_keys p [] = refl
count-sort_keys p (k ∷ ks) =
    omega (arith, count-insert_key p k (sort_keys ks), count-sort_keys p ks)

NoneCheaper-insert_key :
    (n : ℕ) (k : PooledKey) (ks : List PooledKey)
    → n ≤ rank k.funding
    → NoneCheaper n (λ _. true) ks
    → NoneCheaper n (λ _. true) (insert_key k ks)
unfolding insert_key
NoneCheaper-insert_key n k [] h c = (λ _. h, tt)
NoneCheaper-insert_key n k (x ∷ xs) h c =
    choose (leb (rank k.funding) (rank x.funding)) (NoneCheaper-insert_key n k xs h c.1)
  where
    choose :
        (b : Bool)
        → NoneCheaper n (λ _. true) (insert_key k xs)
        → NoneCheaper n (λ _. true) (if b then k ∷ x ∷ xs else x ∷ insert_key k xs)
    choose true i = (λ _. h, c)
    choose false i = (c.0, i)

NoneCheaper-lower :
    (n m : ℕ) (ks : List PooledKey)
    → n ≤ m
    → NoneCheaper m (λ _. true) ks
    → NoneCheaper n (λ _. true) ks
NoneCheaper-lower n m [] h c = tt
NoneCheaper-lower n m (k ∷ ks) h c = (λ e. omega (arith, h, c.0 e), NoneCheaper-lower n m ks h c.1)

insert_key-Sorted : (k : PooledKey) (ks : List PooledKey) → Sorted ks → Sorted (insert_key k ks)
unfolding insert_key
insert_key-Sorted k [] s = (tt, tt)
insert_key-Sorted k (x ∷ xs) s =
    choose (leb (rank k.funding) (rank x.funding)) refl (insert_key-Sorted k xs s.1)
  where
    choose :
        (b : Bool)
        → leb (rank k.funding) (rank x.funding) ≡ b
        → Sorted (insert_key k xs)
        → Sorted (if b then k ∷ x ∷ xs else x ∷ insert_key k xs)
    choose true e i =
        let h : rank k.funding ≤ rank x.funding = ground (arith, e) in
        ((λ _. h, NoneCheaper-lower (rank k.funding) (rank x.funding) xs h s.0), s)
    choose false e i = (NoneCheaper-insert_key (rank x.funding) k xs (ground (arith, e)) s.0, i)

sort_keys-Sorted : (ks : List PooledKey) → Sorted (sort_keys ks)
unfolding sort_keys
sort_keys-Sorted [] = tt
sort_keys-Sorted (k ∷ ks) = insert_key-Sorted k (sort_keys ks) (sort_keys-Sorted ks)

-- What a turn of the loop that does not fail has found.
record IsTaken (d : KeyDeclaration) (id : String) (secrets ids : List String)
    (rest : PoolError ⊎ List PooledKey) (ks : List PooledKey) : Type 0 where
  key : PooledKey
  others : List PooledKey
  new_secret : is_seen d.secret secrets ≡ false
  new_id : is_seen id ids ≡ false
  named : key.key_id ≡ id
  kept : key.secret ≡ d.secret
  went_on : rest ≡ inr others
  all : ks ≡ key ∷ others

with_reason-parts :
    (n : ℕ) (id : String) (d : KeyDeclaration) (f : Funding) (m : PoolError ⊎ Option KeyRetirement)
    (k : PooledKey)
    → with_reason n id d f m ≡ inr k
    → (k.key_id ≡ id) × (k.secret ≡ d.secret)
unfolding with_reason pooled
with_reason-parts n id d f (inl e) k q = ground (arith, q)
with_reason-parts n id d f (inr r) k q = ground (arith, q)

with_funding-parts :
    (n : ℕ) (id : String) (d : KeyDeclaration) (f : Option Funding) (k : PooledKey)
    → with_funding n id d f ≡ inr k
    → (k.key_id ≡ id) × (k.secret ≡ d.secret)
unfolding with_funding
with_funding-parts n id d none k q = ground (arith, q)
with_funding-parts n id d (some f) k q =
    with_reason-parts n id d f (declared_reason n d d.reason) k q

then_rest-IsTaken :
    (d : KeyDeclaration) (id : String) (secrets ids : List String) (m : PoolError ⊎ PooledKey)
    (rest : PoolError ⊎ List PooledKey) (ks : List PooledKey)
    → is_seen d.secret secrets ≡ false
    → is_seen id ids ≡ false
    → ((k : PooledKey) → m ≡ inr k → (k.key_id ≡ id) × (k.secret ≡ d.secret))
    → then_rest m rest ≡ inr ks
    → IsTaken d id secrets ids rest ks
then_rest-IsTaken d id secrets ids (inl e) rest ks a b parts q = ground (arith, q)
then_rest-IsTaken d id secrets ids (inr k) (inl e) ks a b parts q = ground (arith, q)
then_rest-IsTaken d id secrets ids (inr k) (inr others) ks a b parts q = record {
  key = k;
  others = others;
  new_secret = a;
  new_id = b;
  named = (parts k refl).0;
  kept = (parts k refl).1;
  went_on = refl;
  all = ground (arith, q);
}

one_more :
    (x id : String) (ids : List String) (c : ℕ)
    → is_seen id ids ≡ false
    → c ≤ (if is_seen x (id ∷ ids) then 0 else 1)
    → (if str_eq x id then 1 else 0) + c ≤ (if is_seen x ids then 0 else 1)
unfolding is_seen
one_more x id ids c new h = elim (Bool-cases (str_eq x id)) [
  | inl e ↦
      let unseen : is_seen x ids ≡ false =
        subst (λ y. is_seen y ids ≡ false) (sym ((eq_iff x id).0 e)) new in
      ground (arith, h, unseen)
  | inr e ↦ ground (arith, h)
]

module _ (bytes : String → List ℕ) (trim_space : String → String) (key_name : ℕ → String) where
  build_keys-IsTaken :
      (n : ℕ) (secrets ids : List String) (d : KeyDeclaration) (ds : List KeyDeclaration)
      (ks : List PooledKey)
      → build_keys bytes trim_space key_name n secrets ids (d ∷ ds) ≡ inr ks
      → IsTaken d
          (id_of bytes trim_space key_name n d)
          secrets
          ids
          (build_keys bytes trim_space key_name
            (n + 1)
            (d.secret ∷ secrets)
            (id_of bytes trim_space key_name n d ∷ ids)
            ds)
          ks
  unfolding build_keys
  build_keys-IsTaken n secrets ids d ds ks q = ground (
    arith,
    q,
    then_rest-IsTaken d (id_of bytes trim_space key_name n d) secrets ids
        (with_funding n (id_of bytes trim_space key_name n d) d
          (declared_funding d.class d.funding))
        (build_keys bytes trim_space key_name (n + 1) (d.secret ∷ secrets)
          (id_of bytes trim_space key_name n d ∷ ids) ds)
        ks,
  )

  count-ids :
      (n : ℕ) (secrets ids : List String) (ds : List KeyDeclaration) (ks : List PooledKey)
      (x : String)
      → build_keys bytes trim_space key_name n secrets ids ds ≡ inr ks
      → count (λ k. str_eq x k.key_id) ks ≤ (if is_seen x ids then 0 else 1)
  unfolding build_keys
  count-ids n secrets ids [] ks x q = ground (arith, q)
  count-ids n secrets ids (d ∷ ds) ks x q =
      let t = build_keys-IsTaken n secrets ids d ds ks q in
      let ih = count-ids (n + 1) _ _ ds t.others x t.went_on in
      subst (λ l. count (λ k. str_eq x k.key_id) l ≤ (if is_seen x ids then 0 else 1)) (sym t.all)
        (subst
          (λ y.
            (if str_eq x y then 1 else 0) + count (λ k. str_eq x k.key_id) t.others
            ≤ (if is_seen x ids then 0 else 1))
          (sym t.named) (one_more x _ ids _ t.new_id ih))

  count-secrets :
      (n : ℕ) (secrets ids : List String) (ds : List KeyDeclaration) (ks : List PooledKey)
      (x : String)
      → build_keys bytes trim_space key_name n secrets ids ds ≡ inr ks
      → count (λ k. str_eq x k.secret) ks ≤ (if is_seen x secrets then 0 else 1)
  unfolding build_keys
  count-secrets n secrets ids [] ks x q = ground (arith, q)
  count-secrets n secrets ids (d ∷ ds) ks x q =
      let t = build_keys-IsTaken n secrets ids d ds ks q in
      let ih = count-secrets (n + 1) _ _ ds t.others x t.went_on in
      subst (λ l. count (λ k. str_eq x k.secret) l ≤ (if is_seen x secrets then 0 else 1))
        (sym t.all)
        (subst
          (λ y.
            (if str_eq x y then 1 else 0) + count (λ k. str_eq x k.secret) t.others
            ≤ (if is_seen x secrets then 0 else 1))
          (sym t.kept) (one_more x _ secrets _ t.new_secret ih))

  count-all :
      (n : ℕ) (secrets ids : List String) (ds : List KeyDeclaration) (ks : List PooledKey)
      → build_keys bytes trim_space key_name n secrets ids ds ≡ inr ks
      → count (λ _. true) ks ≡ length ds
  unfolding build_keys
  count-all n secrets ids [] ks q = ground (arith, q)
  count-all n secrets ids (d ∷ ds) ks q =
      let t = build_keys-IsTaken n secrets ids d ds ks q in
      omega (arith, ap (count (λ _. true)) t.all, count-all (n + 1) _ _ ds t.others t.went_on)

  -- A pool that can serve: in the order that leases rely on, no id and no secret twice, and as many
  -- keys as were declared.
  pub record IsBuilt (ds : List KeyDeclaration) (p : KeyPool) : Type 0 where
    pub sorted : Sorted p.keys
    pub complete : count (λ _. true) p.keys ≡ length ds
    pub ids : (x : String) → count (λ k. str_eq x k.key_id) p.keys ≤ 1
    pub secrets : (x : String) → count (λ k. str_eq x k.secret) p.keys ≤ 1
    pub retires : pos 1 ≤ℤ p.policy.retirement

  pool_of-IsBuilt :
      (slug : String) (ds : List KeyDeclaration) (policy : KeyPolicy) (owned : Bool) (p : KeyPool)
      (m : PoolError ⊎ List PooledKey)
      → build_keys bytes trim_space key_name 1 [] [] ds ≡ m
      → pool_of slug policy owned m ≡ inr p
      → IsBuilt ds p
  unfolding pool_of is_seen
  pool_of-IsBuilt slug ds policy owned p (inl e) b q = ground (arith, q)
  pool_of-IsBuilt slug ds policy owned p (inr ks) b q =
      let keys : p.keys ≡ sort_keys ks = ground (arith, q) in
      record {
        sorted = subst Sorted (sym keys) (sort_keys-Sorted ks);
        complete =
            ap (count (λ _. true)) keys
            ∙ count-sort_keys (λ _. true) ks
            ∙ count-all 1 [] [] ds ks b;
        ids = λ x.
            let e =
              ap (count (λ k. str_eq x k.key_id)) keys
              ∙ count-sort_keys (λ k. str_eq x k.key_id) ks in
            omega (arith, e, count-ids 1 [] [] ds ks x b);
        secrets = λ x.
            let e =
              ap (count (λ k. str_eq x k.secret)) keys
              ∙ count-sort_keys (λ k. str_eq x k.secret) ks in
            omega (arith, e, count-secrets 1 [] [] ds ks x b);
        retires = ground (arith, q);
      }

  -- A pool that is built from declarations has its keys in the economic order, as many of them as
  -- were declared, no id and no secret twice, and a positive retirement.
  pub new_key_pool-IsBuilt :
      (slug : String) (ds : List KeyDeclaration) (policy : KeyPolicy) (owned : Bool) (p : KeyPool)
      → new_key_pool bytes trim_space key_name slug ds policy owned ≡ inr p
      → IsBuilt ds p
  unfolding new_key_pool
  new_key_pool-IsBuilt slug ds policy owned p q =
      pool_of-IsBuilt slug ds policy owned p (build_keys bytes trim_space key_name 1 [] [] ds) refl
        q
