-- ===== src/UsageEstimate/Supplement.antt =====
-- What `supplement` does to the rows of every unit (usage_estimate.go).
use mathlib.Core.List.{append-nil}
use mathlib.Core.Path.{subst}
use kaana.Prelude.{
  ℕ, ◌≡◌, refl, Bool, true, false, Option, none, some, List, [], ◌∷◌, ◌++◌, if◌then◌else◌, arith,
  ◌∙◌, sym, ap, ltb,
}
use kaana.Contract.{UsageUnit, UsageQuantity}
use kaana.UsageEstimate.{
  UsageEstimate, units, same_unit, quantity_of, set_quantity, is_final_total, merge_unit,
  merge_units, supplement,
}
use kaana.UsageEstimate.Rows.{
  same_unit_iff, rows_of, raise_last, keeps_larger, merged_rows, last, set_last, final_total,
  has_last, quantity_of-last, rows_of-append, rows_of-set_self, rows_of-nil, rows_of-cons,
  rows_of-set_other, raised, not_raised,
}

-- One round of the loop, on the rows of the unit that it is about.
merged_self :
    (u : UsageUnit) (l : List ℕ) (m : ℕ) (o : Option ℕ)
    → last l ≡ o
    → elim o [
      | none ↦ l ++ m ∷ []
      | some n ↦ if is_final_total u then (if ltb n m then set_last m l else l) else l
    ]
      ≡ merged_rows u l (m ∷ [])
merged_self u [] m none e = refl
merged_self u (k ∷ l) m none e = let (j, f) = has_last k l in ground (arith, e, f)
merged_self u [] m (some n) e = cc
merged_self u (k ∷ l) m (some n) e = choose (keeps_larger u) (final_total u) (ltb n m) refl
  where
    choose :
        (b : Bool)
        → is_final_total u ≡ b
        → (less : Bool) → ltb n m ≡ less
        → (if is_final_total u then (if ltb n m then set_last m (k ∷ l) else k ∷ l) else k ∷ l)
          ≡ (if b then raise_last m (k ∷ l) else k ∷ l)
    choose false f less g = rw f refl
    choose true f true g = rw (f, g) (raised m n (k ∷ l) e g)
    choose true f false g = rw (f, g) (not_raised m n (k ∷ l) e g)

rows_of-merge_unit_self :
    (q : UsageQuantity) (qs : List UsageQuantity)
    → rows_of q.unit (merge_unit qs q) ≡ merged_rows q.unit (rows_of q.unit qs) (q.quantity ∷ [])
unfolding merge_unit
rows_of-merge_unit_self q qs =
    push (quantity_of q.unit qs) (is_final_total q.unit)
    ∙ merged_self q.unit (rows_of q.unit qs) q.quantity (quantity_of q.unit qs)
        (sym (quantity_of-last q.unit qs))
  where
    own_row : rows_of q.unit (q ∷ []) ≡ q.quantity ∷ []
    own_row =
        rw (rows_of-cons q.unit q [], (same_unit_iff q.unit q.unit).1 refl, rows_of-nil q.unit) refl

    push_less :
        (n : ℕ) (less : Bool)
        → rows_of q.unit (if less then set_quantity q.unit q.quantity qs else qs)
          ≡ (if less then set_last q.quantity (rows_of q.unit qs) else rows_of q.unit qs)
    push_less n true = rows_of-set_self q.unit q.quantity qs
    push_less n false = refl

    push :
        (o : Option ℕ) (final : Bool)
        → rows_of q.unit (elim o [
          | none ↦ qs ++ q ∷ []
          | some n ↦
              if final
              then (if ltb n q.quantity then set_quantity q.unit q.quantity qs else qs)
              else qs
        ])
          ≡ elim o [
            | none ↦ rows_of q.unit qs ++ q.quantity ∷ []
            | some n ↦
                if final
                then (if ltb n q.quantity
                    then set_last q.quantity (rows_of q.unit qs)
                    else rows_of q.unit qs)
                else rows_of q.unit qs
          ]
    push none final = rows_of-append q.unit qs q ∙ ap (λ l. rows_of q.unit qs ++ l) own_row
    push (some n) true = push_less n (ltb n q.quantity)
    push (some n) false = refl

rows_of-merge_unit_other :
    (u : UsageUnit) (q : UsageQuantity) (qs : List UsageQuantity)
    → same_unit q.unit u ≡ false
    → rows_of u (merge_unit qs q) ≡ rows_of u qs
unfolding merge_unit
rows_of-merge_unit_other u q qs ne = push (quantity_of q.unit qs) (is_final_total q.unit)
  where
    push_less :
        (less : Bool)
        → rows_of u (if less then set_quantity q.unit q.quantity qs else qs) ≡ rows_of u qs
    push_less true = rows_of-set_other u q.unit q.quantity qs ne
    push_less false = refl

    push :
        (o : Option ℕ) (final : Bool)
        → rows_of u (elim o [
          | none ↦ qs ++ q ∷ []
          | some n ↦
              if final
              then (if ltb n q.quantity then set_quantity q.unit q.quantity qs else qs)
              else qs
        ])
          ≡ rows_of u qs
    push none final =
        rows_of-append u qs q
        ∙ rw (rows_of-cons u q [], ne, rows_of-nil u) (append-nil (rows_of u qs))
    push (some n) true = push_less (ltb n q.quantity)
    push (some n) false = refl

-- No unit stands twice.
abbrev Distinct : List UsageQuantity → Type 0
Distinct [] = Unit
Distinct (q ∷ qs) = (quantity_of q.unit qs ≡ none) × Distinct qs

no_last : (l : List ℕ) → last l ≡ none → l ≡ []
no_last [] e = refl
no_last (k ∷ l) e = let (m, f) = has_last k l in ground (arith, e, f)

merged_rows-nil : (u : UsageUnit) (l : List ℕ) → merged_rows u l [] ≡ l
merged_rows-nil u [] = refl
merged_rows-nil u (n ∷ l) = refl

rows_of-merge_units :
    (u : UsageUnit) (qs rs : List UsageQuantity)
    → Distinct rs
    → rows_of u (merge_units qs rs) ≡ merged_rows u (rows_of u qs) (rows_of u rs)
unfolding merge_units
rows_of-merge_units u qs [] d = rw (rows_of-nil u) (sym (merged_rows-nil u (rows_of u qs)))
rows_of-merge_units u qs (r ∷ rs) d =
    rows_of-merge_units u (merge_unit qs r) rs d.1 ∙ step (same_unit r.unit u) refl
  where
    step :
        (same : Bool)
        → same_unit r.unit u ≡ same
        → merged_rows u (rows_of u (merge_unit qs r)) (rows_of u rs)
          ≡ merged_rows u (rows_of u qs) (rows_of u (r ∷ rs))
    step false e = rw (rows_of-merge_unit_other u r qs e, rows_of-cons u r rs, e) refl
    step true e =
        let same : r.unit ≡ u = (same_unit_iff r.unit u).0 e in
        let absent : rows_of u rs ≡ [] =
          no_last (rows_of u rs)
            (sym (quantity_of-last u rs) ∙ subst (λ v. quantity_of v rs ≡ none) same d.0) in
        let merged : rows_of u (merge_unit qs r) ≡ merged_rows u (rows_of u qs) (r.quantity ∷ []) =
          subst (λ v. rows_of v (merge_unit qs r) ≡ merged_rows v (rows_of v qs) (r.quantity ∷ []))
            same (rows_of-merge_unit_self r qs) in
        rw (rows_of-cons u r rs, e, absent, merged)
          (merged_rows-nil u (merged_rows u (rows_of u qs) (r.quantity ∷ [])))

units-Distinct : (e : UsageEstimate) → Distinct (units e)
unfolding units quantity_of
units-Distinct e = ground arith

-- What a supplemented list holds of every unit, row by row: the rows that the provider reported, with
-- the estimate's where the provider reported none; of output and reasoning tokens the last row
-- reported is raised to the estimate where that is larger.
pub supplement_exact :
    (e : UsageEstimate) (reported : List UsageQuantity) (u : UsageUnit)
    → rows_of u (supplement e reported) ≡ merged_rows u (rows_of u reported) (rows_of u (units e))
unfolding supplement
supplement_exact e reported u = rows_of-merge_units u reported (units e) (units-Distinct e)
