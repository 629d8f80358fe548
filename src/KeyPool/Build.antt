-- ===== src/KeyPool/Build.antt =====
-- internal/provider/credential.go, newKeyPool: a pool from what its operator declared. The bytes of a
-- secret, TrimSpace and the name "key-<position>" are parameters; an error is told by its kind and
-- the position that it names. The sort is stable, as sort.SliceStable is.
pub mod Order
use kaana.Prelude.{
  ℕ, ◌+◌, ◌≤◌, ◌≡◌, refl, String, Bool, true, false, Option, none, some, List, [], ◌∷◌, ◌++◌, ◌&&◌,
  ◌||◌, ◌⊎◌, inl, inr, not, ltb, leb, ◌==◌, length, str_eq, if◌then◌else◌, arith, ◌∙◌, ap,
}
use kaana.Prelude.Int.{ℤ, pos, ltb_ℤ, ◌≤ℤ◌}
use kaana.Prelude.Time.{Time, Duration, is_zero, after, minute}
use kaana.Funding.{
  Funding, unstated, KeyClass, class_free, class_paid, class_unstated, class_other, funding_for,
  rank,
}
use kaana.KeyPool.{KeyPool, KeyPolicy, PooledKey, KeyRetirement, Evidence}
use kaana.KeyPool.Leases.{Sorted, NoneCheaper}

-- A Funding or a KeyRetirement as a row's text has it.
pub data DeclaredFunding : Type 0 where
  stated : Funding → DeclaredFunding
  other_funding : String → DeclaredFunding

pub data DeclaredReason : Type 0 where
  no_reason : DeclaredReason
  retired_for : KeyRetirement → DeclaredReason
  other_reason : String → DeclaredReason

-- KeyDeclaration, with its CredentialRuntimeState.
pub record KeyDeclaration : Type 0 where
  pub key_id : String
  pub secret : String
  pub class : KeyClass
  pub funding : DeclaredFunding
  pub has_runtime : Bool
  pub reason : DeclaredReason
  pub evidence : Evidence
  pub observed_at : Time
  pub retired_until : Time
  pub lease_until : Time

pub data PoolError : Type 0 where
  invalid_credential same_credential same_key_id bad_class bad_funding : ℕ → PoolError
  stray_times no_expiry unknown_state : ℕ → PoolError

abbrev default_key_retirement : Duration
default_key_retirement = pos (900_000_000_000)

visible : List ℕ → Bool
visible [] = true
visible (b ∷ bs) = not (ltb b 0x21 || ltb 0x7e b) && visible bs

-- ValidateCustomerCredential
unfoldable pub validate_credential : List ℕ → Bool
unfolding visible
validate_credential bytes = not (length bytes == 0 || ltb 4096 (length bytes)) && visible bytes

unfoldable pub is_seen : String → List String → Bool
is_seen x [] = false
is_seen x (y ∷ ys) = if str_eq x y then true else is_seen x ys

abbrev is_named_class : KeyClass → Bool
is_named_class (class_other text) = false
is_named_class _ = true

abbrev or_unstated : Option Funding → Funding
or_unstated none = unstated
or_unstated (some f) = f

-- The funding of a declaration: by its class where it is unstated; `none` is refused.
declared_funding : KeyClass → DeclaredFunding → Option Funding
declared_funding class (stated unstated) = some (or_unstated (funding_for class ""))
declared_funding class (stated f) = some f
declared_funding class (other_funding text) = none

-- The `switch` on the declared state: the reason that the key starts with.
declared_reason : ℕ → KeyDeclaration → DeclaredReason → PoolError ⊎ Option KeyRetirement
declared_reason position d no_reason =
    if not (is_zero d.retired_until) || not (is_zero d.lease_until)
    then inl (stray_times position)
    else inr none
declared_reason position d (retired_for r) =
    if is_zero d.retired_until then inl (no_expiry position) else inr (some r)
declared_reason position d (other_reason text) = inl (unknown_state position)

pooled : ℕ → String → KeyDeclaration → Funding → Option KeyRetirement → PooledKey
pooled position key_id d funding reason = record {
  position = position;
  key_id = key_id;
  class = d.class;
  funding = funding;
  secret = d.secret;
  retired_until = if after d.lease_until d.retired_until then d.lease_until else d.retired_until;
  reason = reason;
  has_runtime = d.has_runtime;
  evidence = d.evidence;
  observed_at = d.observed_at;
}

with_reason :
    ℕ → String → KeyDeclaration → Funding → PoolError ⊎ Option KeyRetirement → PoolError ⊎ PooledKey
unfolding pooled
with_reason position key_id d funding (inl e) = inl e
with_reason position key_id d funding (inr r) = inr (pooled position key_id d funding r)

with_funding : ℕ → String → KeyDeclaration → Option Funding → PoolError ⊎ PooledKey
unfolding with_reason declared_reason
with_funding position key_id d none = inl (bad_funding position)
with_funding position key_id d (some f) =
    with_reason position key_id d f (declared_reason position d d.reason)

abbrev then_rest : PoolError ⊎ PooledKey → PoolError ⊎ List PooledKey → PoolError ⊎ List PooledKey
then_rest (inl e) rest = inl e
then_rest (inr k) (inl e) = inl e
then_rest (inr k) (inr ks) = inr (k ∷ ks)

module _ (bytes : String → List ℕ) (trim_space : String → String) (key_name : ℕ → String) where
  abbrev pub id_of : ℕ → KeyDeclaration → String
  id_of position d =
      if str_eq (trim_space d.key_id) "" then key_name position else trim_space d.key_id

  -- The loop over the declarations; `position` is that of the first of them.
  unfoldable pub build_keys :
      ℕ → List String → List String → List KeyDeclaration → PoolError ⊎ List PooledKey
  unfolding with_funding declared_funding
  build_keys position secrets ids [] = inr []
  build_keys position secrets ids (d ∷ ds) =
      let rest = build_keys (position + 1) (d.secret ∷ secrets) (id_of position d ∷ ids) ds in
      if not (validate_credential (bytes d.secret))
      then inl (invalid_credential position)
      else if is_seen d.secret secrets
      then inl (same_credential position)
      else if is_seen (id_of position d) ids
      then inl (same_key_id position)
      else if not (is_named_class d.class)
      then inl (bad_class position)
      else then_rest
          (with_funding position (id_of position d) d (declared_funding d.class d.funding)) rest

unfoldable pub insert_key : PooledKey → List PooledKey → List PooledKey
insert_key k [] = k ∷ []
insert_key k (x ∷ xs) =
    let rest = insert_key k xs in
    if leb (rank k.funding) (rank x.funding) then k ∷ x ∷ xs else x ∷ rest

-- The keys by the rank of their funding, in the declared order within one.
unfoldable pub sort_keys : List PooledKey → List PooledKey
sort_keys [] = []
sort_keys (k ∷ ks) = insert_key k (sort_keys ks)

pool_of : String → KeyPolicy → Bool → PoolError ⊎ List PooledKey → PoolError ⊎ KeyPool
pool_of slug policy customer_owned (inl e) = inl e
pool_of slug policy customer_owned (inr ks) = inr (record {
  provider = slug;
  policy =
      if ltb_ℤ (pos 0) policy.retirement
      then policy
      else record policy { retirement = default_key_retirement };
  customer_owned = customer_owned;
  keys = sort_keys ks;
})

module _ (bytes : String → List ℕ) (trim_space : String → String) (key_name : ℕ → String) where
  -- newKeyPool
  unfoldable pub new_key_pool :
      String → List KeyDeclaration → KeyPolicy → Bool → PoolError ⊎ KeyPool
  unfolding pool_of
  new_key_pool slug ds policy customer_owned =
      pool_of slug policy customer_owned (build_keys bytes trim_space key_name 1 [] [] ds)
