-- ===== src/Routes.antt =====
-- internal/inventory/inventory.go and internal/kaana/executor.go: how the signed list of authorized
-- routes becomes the candidates of a request. `C` is the customer's binding of a route, which is only
-- handed on. An error is told by what its message says; the index is that of the refused entry.
pub mod Regions
pub mod References
pub mod Authorized
mod Examples
use kaana.Prelude.{
  ℕ, ◌+◌, String, Bool, true, false, not, ◌&&◌, ◌||◌, Option, none, some, List, [], ◌∷◌, ◌++◌, map,
  ltb, ◌==◌, str_eq, if◌then◌else◌, length,
}
use kaana.Prelude.Int.{ℤ, ltb_ℤ}
use kaana.Prelude.Time.{Time, Duration, sub_time}
use kaana.Prelude.Assoc.{Assoc, lookup, insert, remove, string_eq}
use kaana.Prelude.Results.{Result, ok, err, ◌>>=◌, ◌>>◌, refuse_if}
use kaana.Contract.Ids.{pinned, model_id}
use kaana.Funding.{FundingTier, tier_none}

pub record Endpoint : Type 0 where
  pub deployment_id : String
  pub provider : String
  pub upstream_model_id : String
  pub regions : List String
  pub accepted_parameters : Option (List String)

pub record RouteSet : Type 0 where
  pub reference : String
  pub endpoints : List Endpoint

-- What Resolve reads of an inventory.
pub record Inventory : Type 0 where
  pub issued_at : Time
  pub max_age : Duration
  pub by_reference : Assoc String RouteSet
  pub current_of : Assoc String RouteSet

unfoldable pub serves_unpinned : Inventory → Time → Bool
serves_unpinned i at = not (ltb_ℤ i.max_age (sub_time at i.issued_at))

pub data ResolveError : Type 0 where
  no_route snapshot_too_stale : ResolveError

unfoldable pub resolve_reference : Inventory → String → Time → Result ResolveError RouteSet
resolve_reference i reference at = elim (lookup reference i.by_reference) [
  | some set ↦ ok set
  | none ↦
      if pinned reference
      then err no_route
      else if not (serves_unpinned i at)
      then err snapshot_too_stale
      else elim (lookup (model_id reference) i.current_of) [
        | some set ↦ ok set
        | none ↦ err no_route
      ]
]

module _ (C : Type 0) where
  pub record Route : Type 0 where
    pub deployment_id : String
    pub provider : String
    pub model_reference : String
    pub upstream_model_id : String
    pub regions : List String
    pub accepted_parameters : Option (List String)
    pub customer_credential : Option C

  pub record Candidate : Type 0 where
    pub route : Route
    pub funding_ceiling : FundingTier

  -- One entry of authorizedRoutes.
  pub record AuthorizedRoute : Type 0 where
    pub authorized_deployment : String
    pub authorized_provider : String
    pub authorized_reference : String
    pub authorized_regions : List String
    pub cross_model : Bool
    pub credential : Option C
    pub max_funding_tier : Option FundingTier

-- The errors of the resolution of one entry.
pub data RouteError : Type 0 where
  unknown_reference foreign_deployment foreign_provider other_regions : RouteError
  two_revisions cross_model_substitution other_primary_revision : RouteError

-- The loop that takes the authorized regions off the set of the inventory's; `none` where one is
-- not there.
unfoldable pub take_regions :
    List String → Assoc String (Unit {0}) → Option (Assoc String (Unit {0}))
take_regions [] left = some left
take_regions (region ∷ regions) left =
    let rest = take_regions regions (remove region left) in
    elim (lookup region left) [ some _ ↦ rest | none ↦ none ]

unfoldable pub region_set : List String → Assoc String (Unit {0}) → Assoc String (Unit {0})
region_set [] set = set
region_set (region ∷ regions) set = region_set regions (insert region tt set)

unfoldable pub regions_match : List String → List String → Bool
unfolding take_regions region_set
regions_match authorized resolved =
    length authorized == length resolved
    && elim (take_regions authorized (region_set resolved [])) [
      | some left ↦ length left == 0
      | none ↦ false
    ]

abbrev pub ceiling_of : Option FundingTier → FundingTier
ceiling_of none = tier_none
ceiling_of (some t) = t

module _ {C : Type 0} where
  unfoldable pub route_of : String → Endpoint → Route C
  route_of reference e = record {
    deployment_id = e.deployment_id;
    provider = e.provider;
    model_reference = reference;
    upstream_model_id = e.upstream_model_id;
    regions = e.regions;
    accepted_parameters = e.accepted_parameters;
    customer_credential = none;
  }

  -- RouteSet.Candidates
  unfoldable pub candidates_of : RouteSet → List (Route C)
  unfolding route_of
  candidates_of set = map (route_of set.reference) set.endpoints

  unfoldable pub find_deployment : String → List (Route C) → Option (Route C)
  find_deployment id [] = none
  find_deployment id (r ∷ routes) =
      if str_eq r.deployment_id id then some r else find_deployment id routes

  -- One round of the loop of resolveAuthorizedRoutes up to the revisions: the route of an entry.
  unfoldable pub resolve_route : Inventory → Time → AuthorizedRoute C → Result RouteError (Route C)
  resolve_route i at a = elim (resolve_reference i a.authorized_reference at) [
    | err _ ↦ err unknown_reference
    | ok set ↦ elim (find_deployment a.authorized_deployment (candidates_of set)) [
      | none ↦ err foreign_deployment
      | some r ↦
          if not (str_eq r.provider a.authorized_provider)
          then err foreign_provider
          else if not (regions_match a.authorized_regions r.regions)
          then err other_regions
          else ok (record r { customer_credential = a.credential })
    ]
  ]

  -- Has the model line of a route another revision in this request?
  unfoldable pub other_revision : Assoc String String → Route C → Bool
  other_revision revisions r = elim (lookup (model_id r.model_reference) revisions) [
    | some revision ↦ not (str_eq revision r.model_reference)
    | none ↦ false
  ]

  module _ (i : Inventory) (at : Time) where
    unfoldable pub resolve_from :
        ℕ
        → Assoc String String
        → List (AuthorizedRoute C)
        → Result (ℕ × RouteError) (List (Candidate C))
    resolve_from index revisions [] = ok []
    resolve_from index revisions (a ∷ routes) = elim (resolve_route i at a) [
      | err e ↦ err (index, e)
      | ok r ↦
          if other_revision revisions r
          then err (index, two_revisions)
          else resolve_from (index + 1)
              (insert (model_id r.model_reference) r.model_reference revisions) routes
            >>= λ rest.
                ok (record { route = r; funding_ceiling = ceiling_of a.max_funding_tier } ∷ rest)
    ]

    unfoldable pub resolve_authorized_routes :
        List (AuthorizedRoute C) → Result (ℕ × RouteError) (List (Candidate C))
    unfolding resolve_from
    resolve_authorized_routes routes = resolve_from 0 [] routes

  -- The loop of resolve over the entries of a request for one model.
  unfoldable pub check_same_model :
      String → ℕ → List (AuthorizedRoute C) → Result (ℕ × RouteError) (Unit {0})
  check_same_model primary index [] = ok tt
  check_same_model primary index (a ∷ routes) =
      let rest = check_same_model primary (index + 1) routes in
      if a.cross_model
      then err (index, cross_model_substitution)
      else if not (str_eq a.authorized_reference primary)
      then err (index, other_primary_revision)
      else rest
