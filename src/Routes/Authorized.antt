-- ===== src/Routes/Authorized.antt =====
-- internal/kaana/executor.go: what resolveAuthorizedRoutes makes of the signed list.
use mathlib.Core.Path.{subst}
use kaana.Prelude.{
  ℕ, ◌+◌, String, ◌≡◌, refl, ap, sym, ◌∙◌, true, false, Option, none, some, List, [], ◌∷◌, map,
  arith, str_eq, eq_iff, Option-cases, inl, inr,
}
use kaana.Prelude.Time.{Time}
use kaana.Prelude.Assoc.{Assoc, lookup, insert, lookup-insert, string_eq}
use kaana.Prelude.Results.{ok, Result-cases}
use kaana.Contract.Ids.{model_id}
use kaana.Funding.{FundingTier, tier_none}
use kaana.Routes.References.{
  IsReferenced, resolve_reference-IsReferenced, IsOffered, served_by, found-IsOffered,
}
use kaana.Routes.Regions.{AreSame, regions_match-AreSame}
use kaana.Routes.{
  Endpoint, RouteSet, Inventory, Route, Candidate, AuthorizedRoute, resolve_reference, route_of,
  candidates_of, find_deployment, resolve_route, other_revision, resolve_from,
  resolve_authorized_routes, ceiling_of, regions_match,
}

signed_ceiling :
    (o : Option FundingTier) → ceiling_of o ≡ elim o [ none ↦ tier_none | some tier ↦ tier ]
signed_ceiling none = refl
signed_ceiling (some tier) = refl

module _ {C : Type 0} (i : Inventory) (at : Time) where
  -- A candidate says exactly what the entry signed, and its route is one of the inventory's for the
  -- signed reference.
  pub record IsSigned (a : AuthorizedRoute C) (c : Candidate C) : Type 0 where
    pub set : RouteSet
    pub resolves : resolve_reference i a.authorized_reference at ≡ ok set
    pub referenced : IsReferenced i a.authorized_reference at set
    pub listed :
        find_deployment a.authorized_deployment (candidates_of set)
        ≡ some (record c.route { customer_credential = none })
    pub offered :
        (e : Endpoint) × IsOffered e set.endpoints
        × (record (served_by set.reference e) { customer_credential = a.credential } ≡ c.route)
    pub same_deployment : c.route.deployment_id ≡ a.authorized_deployment
    pub same_provider : c.route.provider ≡ a.authorized_provider
    pub same_regions : AreSame a.authorized_regions c.route.regions
    pub same_credential : c.route.customer_credential ≡ a.credential
    pub same_ceiling :
        c.funding_ceiling ≡ elim a.max_funding_tier [ none ↦ tier_none | some tier ↦ tier ]

  -- Entry by entry, and in one revision for each model line.
  pub data AllSigned (revisions : Assoc String String)
      : List (AuthorizedRoute C) → List (Candidate C) → Type 0 where
    none_signed : AllSigned revisions [] []
    signed :
        {a : AuthorizedRoute C} {c : Candidate C} {routes : List (AuthorizedRoute C)}
        {candidates : List (Candidate C)}
        → IsSigned a c
        → lookup (model_id c.route.model_reference) revisions ≡ some c.route.model_reference
        → AllSigned revisions routes candidates
        → AllSigned revisions (a ∷ routes) (c ∷ candidates)

  found_deployment :
      (id reference : String) (endpoints : List Endpoint) (r : Route C)
      → find_deployment id (map (route_of reference) endpoints) ≡ some r
      → (r.deployment_id ≡ id) × (r.customer_credential ≡ none)
  unfolding find_deployment route_of
  found_deployment id reference [] r h = cc
  found_deployment id reference (e ∷ endpoints) r h =
      ground (arith, eq_iff e.deployment_id id, found_deployment id reference endpoints r)

  abbrev bound : Route C → Option C → Route C
  bound r credential = record r { customer_credential = credential }

  resolve_route-ok :
      (a : AuthorizedRoute C) (r : Route C)
      → resolve_route i at a ≡ ok r
      → (set : RouteSet) × (s : Route C) × (resolve_reference i a.authorized_reference at ≡ ok set)
        × (find_deployment a.authorized_deployment (candidates_of set) ≡ some s)
        × (str_eq s.provider a.authorized_provider ≡ true)
        × (regions_match a.authorized_regions s.regions ≡ true)
        × (bound s a.credential ≡ r)
  unfolding resolve_route
  resolve_route-ok a r h = elim (Result-cases (resolve_reference i a.authorized_reference at)) [
    | inr (failure, e) ↦ absurd (ground (arith, e))
    | inl (set, e) ↦
        elim (Option-cases (find_deployment {C = C} a.authorized_deployment (candidates_of set))) [
          | inl f ↦ absurd (ground (arith, e, f))
          | inr (s, f) ↦
              (set, s, e, f, ground (arith, e, f), ground (arith, e, f), ground (arith, e, f))
        ]
  ]

  resolve_route-IsSigned :
      (a : AuthorizedRoute C) (r : Route C)
      → resolve_route i at a ≡ ok r
      → IsSigned a (record { route = r; funding_ceiling = ceiling_of a.max_funding_tier })
  unfolding candidates_of
  resolve_route-IsSigned a r h =
      let (set, s, resolves, f, provider, regions, made) = resolve_route-ok a r h in
      let (deployment, free) =
        found_deployment a.authorized_deployment set.reference set.endpoints s f in
      let (e, among, served) =
        found-IsOffered a.authorized_deployment set.reference set.endpoints s f in
      record {
        set = set;
        resolves = resolves;
        referenced = resolve_reference-IsReferenced i a.authorized_reference at set resolves;
        listed = ground (arith, f, free, made);
        offered = (e, among, ap (λ x. bound x a.credential) served ∙ made);
        same_deployment = ground (arith, made, deployment);
        same_provider = ground (arith, made, eq_iff s.provider a.authorized_provider);
        same_regions =
            regions_match-AreSame a.authorized_regions r.regions
              (ap (λ x. regions_match a.authorized_regions x.regions) (sym made) ∙ regions);
        same_credential = ground (arith, made);
        same_ceiling = signed_ceiling a.max_funding_tier;
      }

  -- A revision that is recorded stays, since only the same one is recorded again.
  recorded_stays :
      (revisions : Assoc String String) (r : Route C)
      → other_revision revisions r ≡ false
      → (k v : String) → lookup k revisions ≡ some v
      → lookup k (insert (model_id r.model_reference) r.model_reference revisions) ≡ some v
  unfolding other_revision
  recorded_stays revisions r h k v e = ground (
    arith,
    lookup-insert (model_id r.model_reference) k r.model_reference revisions,
    eq_iff (model_id r.model_reference) k,
    eq_iff v r.model_reference,
    λ (q : model_id r.model_reference ≡ k). ap (λ j. lookup j revisions) q,
  )

  recorded_now :
      (revisions : Assoc String String) (r : Route C)
      → lookup
          (model_id r.model_reference)
          (insert (model_id r.model_reference) r.model_reference revisions)
        ≡ some r.model_reference
  recorded_now revisions r = ground (
    arith,
    lookup-insert (model_id r.model_reference) (model_id r.model_reference) r.model_reference
        revisions,
    eq_iff (model_id r.model_reference) (model_id r.model_reference),
  )

  resolve_from-cons :
      (index : ℕ) (revisions : Assoc String String) (a : AuthorizedRoute C)
      (routes : List (AuthorizedRoute C)) (candidates : List (Candidate C))
      → resolve_from i at index revisions (a ∷ routes) ≡ ok candidates
      → (r : Route C) × (rest : List (Candidate C)) × (resolve_route i at a ≡ ok r)
        × (other_revision revisions r ≡ false)
        × (resolve_from i at
              (index + 1)
              (insert (model_id r.model_reference) r.model_reference revisions)
              routes
            ≡ ok rest)
        × (record { route = r; funding_ceiling = ceiling_of a.max_funding_tier } ∷ rest
            ≡ candidates)
  unfolding resolve_from
  resolve_from-cons index revisions a routes candidates h =
      elim (Result-cases (resolve_route i at a)) [
        | inr (failure, e) ↦ absurd (ground (arith, e))
        | inl (r, e) ↦
            elim (Result-cases (
              resolve_from i at (index + 1)
                (insert (model_id r.model_reference) r.model_reference revisions) routes)) [
                  | inr (failure, f) ↦ absurd (ground (arith, e, f))
                  | inl (rest, f) ↦ (r, rest, e, ground (arith, e, f), f, ground (arith, e, f))
                ]
      ]

  resolve_from-AllSigned :
      (index : ℕ) (revisions : Assoc String String) (routes : List (AuthorizedRoute C))
      (candidates : List (Candidate C))
      → resolve_from i at index revisions routes ≡ ok candidates
      → (final : Assoc String String) × ((k v : String)
          → lookup k revisions ≡ some v
          → lookup k final ≡ some v)
        × AllSigned final routes candidates
  unfolding resolve_from
  resolve_from-AllSigned index revisions [] candidates h =
      (revisions, λ k v e. e, subst (AllSigned revisions []) (ground arith) none_signed)
  resolve_from-AllSigned index revisions (a ∷ routes) candidates h =
      let (r, rest, e, same, f, made) = resolve_from-cons index revisions a routes candidates h in
      let (final, kept, all) =
        resolve_from-AllSigned (index + 1)
          (insert (model_id r.model_reference) r.model_reference revisions) routes rest f in
      (
        final,
        λ k v q. kept k v (recorded_stays revisions r same k v q),
        subst (AllSigned final (a ∷ routes)) made (
            signed (resolve_route-IsSigned a r e)
              (kept (model_id r.model_reference) r.model_reference (recorded_now revisions r)) all),
      )

  -- What a signed list resolves to is that list, entry by entry and in its order: the signed
  -- deployment, provider, regions, credential and funding ceiling, on a route that the inventory has
  -- for the signed reference; and every model line appears in one revision only.
  pub resolve_authorized_routes-AllSigned :
      (routes : List (AuthorizedRoute C)) (candidates : List (Candidate C))
      → resolve_authorized_routes i at routes ≡ ok candidates
      → (revisions : Assoc String String) × AllSigned revisions routes candidates
  unfolding resolve_authorized_routes
  resolve_authorized_routes-AllSigned routes candidates h =
      let (final, kept, all) = resolve_from-AllSigned 0 [] routes candidates h in (final, all)
