-- ===== src/Routes/Regions.antt =====
-- internal/kaana/executor.go: regionsMatch compares two lists of regions as sets.
use mathlib.Core.Path.{subst}
use kaana.Prelude.{
  String, ◌≡◌, refl, sym, ◌⊎◌, inl, inr, true, some, List, [], ◌∷◌, arith, str_eq, eq_iff, length,
  Option-cases, ◌↔◌, Bool-cases,
}
use kaana.Prelude.Assoc.{Assoc, lookup, insert, remove, lookup-insert, lookup-remove, string_eq}
use kaana.Routes.{take_regions, region_set, regions_match}

-- A region stands in a list.
pub data IsAmong (region : String) : List String → Type 0 where
  first : {l : List String} → IsAmong region (region ∷ l)
  behind : {other : String} {l : List String} → IsAmong region l → IsAmong region (other ∷ l)

-- No region stands twice.
abbrev pub Distinct : List String → Type 0
Distinct [] = Unit
Distinct (region ∷ l) = (IsAmong region l → ⊥) × Distinct l

abbrev IsKept : String → Assoc String (Unit {0}) → Type 0
IsKept region set = lookup region set ≡ some tt

-- The same regions, none of them twice in what is signed.
pub record AreSame (authorized resolved : List String) : Type 0 where
  pub same : (region : String) → IsAmong region authorized ↔ IsAmong region resolved
  pub distinct : Distinct authorized
  pub lengths : length authorized ≡ length resolved

insert-IsKept :
    (region other : String) (set : Assoc String (Unit {0}))
    → IsKept region (insert other tt set)
    → (other ≡ region) ⊎ IsKept region set
insert-IsKept region other set h = elim (Bool-cases (str_eq other region)) [
  | inl e ↦ inl ((eq_iff other region).0 e)
  | inr e ↦ inr (ground (arith, e, lookup-insert other region tt set))
]

IsKept-insert :
    (region other : String) (set : Assoc String (Unit {0}))
    → IsKept region set
    → IsKept region (insert other tt set)
IsKept-insert region other set h = ground (arith, lookup-insert other region tt set)

inserted : (region : String) (set : Assoc String (Unit {0})) → IsKept region (insert region tt set)
inserted region set = ground (arith, lookup-insert region region tt set, eq_iff region region)

IsAmong-set :
    (region : String) (l : List String) (set : Assoc String (Unit {0}))
    → IsAmong region l ⊎ IsKept region set
    → IsKept region (region_set l set)
unfolding region_set
IsAmong-set region [] set (inl i) = elim i [ ]
IsAmong-set region [] set (inr k) = k
IsAmong-set region (other ∷ l) set (inl first) =
    IsAmong-set region l (insert region tt set) (inr (inserted region set))
IsAmong-set region (other ∷ l) set (inl (behind i)) =
    IsAmong-set region l (insert other tt set) (inl i)
IsAmong-set region (other ∷ l) set (inr k) =
    IsAmong-set region l (insert other tt set) (inr (IsKept-insert region other set k))

set-IsAmong :
    (region : String) (l : List String) (set : Assoc String (Unit {0}))
    → IsKept region (region_set l set)
    → IsAmong region l ⊎ IsKept region set
unfolding region_set
set-IsAmong region [] set h = inr h
set-IsAmong region (other ∷ l) set h = elim (set-IsAmong region l (insert other tt set) h) [
  | inl i ↦ inl (behind i)
  | inr k ↦ elim (insert-IsKept region other set k) [
    | inl e ↦ inl (subst (λ x. IsAmong region (x ∷ l)) (sym e) first)
    | inr k' ↦ inr k'
  ]
]

take-cons :
    (other : String) (l : List String) (set left : Assoc String (Unit {0}))
    → take_regions (other ∷ l) set ≡ some left
    → IsKept other set × (take_regions l (remove other set) ≡ some left)
unfolding take_regions
take-cons other l set left h = elim (Option-cases (lookup other set)) [
  | inl e ↦ absurd (ground (arith, e))
  | inr (tt, e) ↦ (e, ground (arith, e))
]

removed :
    (region other : String) (set : Assoc String (Unit {0}))
    → IsKept region (remove other set)
    → (other ≡ region → ⊥) × IsKept region set
removed region other set h = (
  λ e. ground (arith, lookup-remove other region set, eq_iff other region),
  ground (arith, lookup-remove other region set),
)

-- What is taken off a set was in it, once.
record IsTaken (l : List String) (set left : Assoc String (Unit {0})) : Type 0 where
  from_set : (region : String) → IsAmong region l → IsKept region set
  or_left : (region : String) → IsKept region set → IsAmong region l ⊎ IsKept region left
  distinct : Distinct l

taken-first :
    (other : String) (l : List String) (set : Assoc String (Unit {0})) (region : String)
    → IsKept other set
    → ((r : String) → IsAmong r l → IsKept r (remove other set))
    → IsAmong region (other ∷ l)
    → IsKept region set
taken-first other l set region kept rest first = kept
taken-first other l set region kept rest (behind i) = (removed region other set (rest region i)).1

taken :
    (l : List String) (set left : Assoc String (Unit {0}))
    → take_regions l set ≡ some left
    → IsTaken l set left
unfolding take_regions
taken [] set left h = record {
  from_set = λ region i. elim i [ ];
  or_left = λ region k. inr (ground (arith, h, k));
  distinct = tt;
}
taken (other ∷ l) set left h =
    let (kept, rest) = take-cons other l set left h in
    let t = taken l (remove other set) left rest in
    record {
      from_set = λ region i. taken-first other l set region kept t.from_set i;
      or_left = λ region k. elim (Bool-cases (str_eq other region)) [
        | inl e ↦ inl (subst (λ x. IsAmong region (x ∷ l)) (sym ((eq_iff other region).0 e)) first)
        | inr e ↦ elim (t.or_left region (ground (arith, e, k, lookup-remove other region set))) [
          | inl i ↦ inl (behind i)
          | inr k' ↦ inr k'
        ]
      ];
      distinct = (λ i. (removed other other set (t.from_set other i)).0 refl, t.distinct);
    }

none_left :
    (region : String) (left : Assoc String (Unit {0})) → length left ≡ 0 → IsKept region left → ⊥
unfolding lookup
none_left region [] e k = cc
none_left region (x ∷ left) e k = omega (arith, e)

-- What regionsMatch accepts are the same regions in some order, with none of them twice.
pub regions_match-AreSame :
    (authorized resolved : List String)
    → regions_match authorized resolved ≡ true
    → AreSame authorized resolved
unfolding regions_match
regions_match-AreSame authorized resolved h =
    elim (Option-cases (take_regions authorized (region_set resolved []))) [
      | inl e ↦ absurd (ground (arith, e, h))
      | inr (left, e) ↦
          let t = taken authorized (region_set resolved []) left e in
          let empty : length left ≡ 0 = ground (arith, e, h) in
          record {
            same = λ region. (
              λ i. elim (set-IsAmong region resolved [] (t.from_set region i)) [
                | inl j ↦ j
                | inr k ↦ absurd (none_left region [] refl k)
              ],
              λ j. elim (t.or_left region (IsAmong-set region resolved [] (inl j))) [
                | inl i ↦ i
                | inr k ↦ absurd (none_left region left empty k)
              ],
            );
            distinct = t.distinct;
            lengths = ground (arith, h);
          }
    ]
