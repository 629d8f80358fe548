-- ===== src/Routes/Examples.antt =====
-- Resolution of signed routes against a small inventory (internal/kaana/executor.go).
use kaana.Prelude.{
  ℕ, String, ◌≡◌, refl, Bool, true, false, Option, none, some, List, [], ◌∷◌, length,
}
use kaana.Prelude.Int.{pos}
use kaana.Prelude.Assoc.{Assoc}
use kaana.Prelude.Results.{err}
use kaana.Funding.{tier_free}
use kaana.Routes.{
  Endpoint, RouteSet, Inventory, Route, Candidate, AuthorizedRoute, route_of,
  resolve_authorized_routes, resolve_reference, snapshot_too_stale, other_regions, two_revisions,
  check_same_model, other_primary_revision,
}
use kaana.Routes.Authorized.{AllSigned, resolve_authorized_routes-AllSigned}

abbrev endpoint : Endpoint
endpoint = record {
  deployment_id = "d1";
  provider = "p";
  upstream_model_id = "u";
  regions = "eu" ∷ "us" ∷ [];
  accepted_parameters = none;
}

abbrev set : RouteSet
set = record { reference = "x/y@2"; endpoints = endpoint ∷ [] }

abbrev older : RouteSet
older = record { reference = "x/y@1"; endpoints = record endpoint { deployment_id = "d0" } ∷ [] }

abbrev inventory : Inventory
inventory = record {
  issued_at = 10;
  max_age = pos 5;
  by_reference = ("x/y@2", set) ∷ ("x/y@1", older) ∷ [];
  current_of = ("x/y", set) ∷ [];
}

-- A customer's binding is a number here.
abbrev entry : String → String → List String → AuthorizedRoute ℕ
entry reference deployment regions = record {
  authorized_deployment = deployment;
  authorized_provider = "p";
  authorized_reference = reference;
  authorized_regions = regions;
  cross_model = false;
  credential = some 3;
  max_funding_tier = some tier_free;
}

abbrev signed_entry : AuthorizedRoute ℕ
signed_entry = entry "x/y" "d1" ("us" ∷ "eu" ∷ [])

abbrev resolved : Candidate ℕ
unfolding route_of
resolved = record {
  route = record (route_of "x/y@2" endpoint) { customer_credential = some 3 };
  funding_ceiling = tier_free;
}

stale_line : resolve_reference inventory "x/y" 16 ≡ err snapshot_too_stale
unfolding resolve_reference kaana.Prelude.Assoc.lookup kaana.Contract.Ids.pinned
    kaana.Routes.serves_unpinned kaana.Prelude.Words.saturate64
stale_line = refl

narrower_regions :
    resolve_authorized_routes inventory 12 (entry "x/y" "d1" ("us" ∷ []) ∷ [])
    ≡ err (0, other_regions)
unfolding resolve_authorized_routes kaana.Routes.resolve_route resolve_reference
    kaana.Routes.find_deployment kaana.Routes.candidates_of kaana.Routes.regions_match
    kaana.Prelude.Assoc.lookup kaana.Prelude.Assoc.insert kaana.Prelude.Assoc.remove
    kaana.Contract.Ids.pinned kaana.Contract.Ids.model_id kaana.Routes.serves_unpinned
    kaana.Prelude.Words.saturate64
narrower_regions = refl

second_revision :
    resolve_authorized_routes inventory 12
      (signed_entry ∷ entry "x/y@1" "d0" ("us" ∷ "eu" ∷ []) ∷ [])
    ≡ err (1, two_revisions)
unfolding resolve_authorized_routes kaana.Routes.other_revision kaana.Routes.resolve_route
    resolve_reference kaana.Routes.find_deployment kaana.Routes.candidates_of
    kaana.Routes.regions_match kaana.Prelude.Assoc.lookup kaana.Prelude.Assoc.insert
    kaana.Prelude.Assoc.remove kaana.Contract.Ids.pinned kaana.Contract.Ids.model_id
    kaana.Routes.serves_unpinned kaana.Prelude.Words.saturate64
second_revision = refl

resolve_authorized_routes-AllSigned_example :
    (revisions : Assoc String String) × AllSigned inventory 12 revisions
      (signed_entry ∷ [])
      (resolved ∷ [])
unfolding resolve_authorized_routes kaana.Routes.other_revision kaana.Routes.resolve_route
    resolve_reference kaana.Routes.find_deployment kaana.Routes.candidates_of
    kaana.Routes.regions_match kaana.Prelude.Assoc.lookup kaana.Prelude.Assoc.insert
    kaana.Prelude.Assoc.remove kaana.Contract.Ids.pinned kaana.Contract.Ids.model_id
    kaana.Routes.serves_unpinned kaana.Prelude.Words.saturate64
resolve_authorized_routes-AllSigned_example =
    resolve_authorized_routes-AllSigned inventory 12 (signed_entry ∷ []) (resolved ∷ []) refl
