-- ===== src/Routes/References.antt =====
-- internal/inventory/inventory.go: what Resolve finds for a reference, and the candidates of a route
-- set.
use kaana.Prelude.{
  String, ◌≡◌, false, none, some, List, [], ◌∷◌, map, arith, Option-cases, Bool-cases, inl, inr,
  str_eq,
}
use kaana.Prelude.Int.{◌≤ℤ◌}
use kaana.Prelude.Time.{Time, sub_time}
use kaana.Prelude.Assoc.{lookup, string_eq}
use kaana.Prelude.Results.{ok}
use kaana.Contract.Ids.{pinned, model_id}
use kaana.Routes.{
  Endpoint, RouteSet, Inventory, Route, resolve_reference, serves_unpinned, route_of,
  find_deployment,
}

-- A reference resolves to a set that is listed under it; or it names no revision, nothing is listed
-- under it, the snapshot is not older than it may be, and the set is the current one of its model.
pub data IsReferenced (i : Inventory) (reference : String) (at : Time) (set : RouteSet)
    : Type 0 where
  listed_exactly : lookup reference i.by_reference ≡ some set → IsReferenced i reference at set
  current :
      lookup reference i.by_reference ≡ none
      → pinned reference ≡ false
      → sub_time at i.issued_at ≤ℤ i.max_age
      → lookup (model_id reference) i.current_of ≡ some set
      → IsReferenced i reference at set

pub resolve_reference-IsReferenced :
    (i : Inventory) (reference : String) (at : Time) (set : RouteSet)
    → resolve_reference i reference at ≡ ok set
    → IsReferenced i reference at set
unfolding resolve_reference serves_unpinned
resolve_reference-IsReferenced i reference at set h =
    elim (Option-cases (lookup reference i.by_reference)) [
      | inr (s, e) ↦ listed_exactly (ground (arith, e, h))
      | inl e ↦ elim (Option-cases (lookup (model_id reference) i.current_of)) [
        | inl f ↦ absurd (ground (arith, e, f, h))
        | inr (s, f) ↦
            current e (ground (arith, e, f, h)) (ground (arith, e, f, h)) (ground (arith, e, f, h))
      ]
    ]

-- An endpoint stands in a list.
pub data IsOffered (e : Endpoint) : List Endpoint → Type 0 where
  offered_first : {l : List Endpoint} → IsOffered e (e ∷ l)
  offered_later : {d : Endpoint} {l : List Endpoint} → IsOffered e l → IsOffered e (d ∷ l)

-- The route that an endpoint serves under a reference, without a customer's credential.
abbrev pub served_by : {C : Type 0} → String → Endpoint → Route C
served_by reference e = record {
  deployment_id = e.deployment_id;
  provider = e.provider;
  model_reference = reference;
  upstream_model_id = e.upstream_model_id;
  regions = e.regions;
  accepted_parameters = e.accepted_parameters;
  customer_credential = none;
}

pub found-IsOffered :
    {C : Type 0} (id reference : String) (endpoints : List Endpoint) (r : Route C)
    → find_deployment id (map (route_of reference) endpoints) ≡ some r
    → (e : Endpoint) × IsOffered e endpoints × (served_by reference e ≡ r)
unfolding find_deployment route_of
found-IsOffered id reference [] r h = cc
found-IsOffered id reference (d ∷ endpoints) r h = elim (Bool-cases (str_eq d.deployment_id id)) [
  | inl same ↦ (d, offered_first, ground (arith, same, h))
  | inr other ↦
      let (e, i, made) = found-IsOffered id reference endpoints r (ground (arith, other, h)) in
      (e, offered_later i, made)
]
