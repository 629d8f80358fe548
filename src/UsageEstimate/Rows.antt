-- ===== src/UsageEstimate/Rows.antt =====
-- The rows of one unit in a list of quantities, and what writes to the list do to them
-- (usage_estimate.go).
use kaana.Prelude.{
  ℕ, ◌≡◌, refl, Bool, true, false, Option, none, some, List, [], ◌∷◌, ◌++◌, max, if◌then◌else◌,
  arith, ◌∙◌, ◌↔◌, ap, ltb,
}
use kaana.Contract.{UsageUnit, UsageQuantity, output_tokens, reasoning_tokens}
use kaana.UsageEstimate.{same_unit, quantity_of, set_quantity, is_final_total}

pub same_unit_iff : (a b : UsageUnit) → (same_unit a b ≡ true) ↔ (a ≡ b)
same_unit_iff a b = ground arith

-- The quantities of all rows of a unit, in order.
unfoldable pub rows_of : UsageUnit → List UsageQuantity → List ℕ
rows_of u [] = []
rows_of u (q ∷ qs) = if same_unit q.unit u then q.quantity ∷ rows_of u qs else rows_of u qs

abbrev pub raise_last : ℕ → List ℕ → List ℕ
raise_last m [] = []
raise_last m (n ∷ []) = max n m ∷ []
raise_last m (n ∷ k ∷ ns) = n ∷ raise_last m (k ∷ ns)

-- For these the larger of the report and the estimate counts.
abbrev pub keeps_larger : UsageUnit → Bool
keeps_larger output_tokens = true
keeps_larger reasoning_tokens = true
keeps_larger _ = false

-- The rows of a unit that evidence from the provider and an estimate leave.
abbrev pub merged_rows : UsageUnit → List ℕ → List ℕ → List ℕ
merged_rows u [] estimated = estimated
merged_rows u (n ∷ ns) [] = n ∷ ns
merged_rows u (n ∷ ns) (m ∷ ms) = if keeps_larger u then raise_last m (n ∷ ns) else n ∷ ns

abbrev pub last : List ℕ → Option ℕ
last [] = none
last (n ∷ []) = some n
last (n ∷ k ∷ ns) = last (k ∷ ns)

abbrev pub set_last : ℕ → List ℕ → List ℕ
set_last m [] = []
set_last m (n ∷ []) = m ∷ []
set_last m (n ∷ k ∷ ns) = n ∷ set_last m (k ∷ ns)

pub final_total : (u : UsageUnit) → is_final_total u ≡ keeps_larger u
final_total u = ground (arith, u)

pub has_last : (n : ℕ) (ns : List ℕ) → (m : ℕ) × (last (n ∷ ns) ≡ some m)
has_last n [] = (n, refl)
has_last n (k ∷ ns) = has_last k ns

last-cons :
    (n : ℕ) (ns : List ℕ) → last (n ∷ ns) ≡ elim (last ns) [ some m ↦ some m | none ↦ some n ]
last-cons n [] = refl
last-cons n (k ∷ ns) = let (m, e) = has_last k ns in ground (arith, e)

set_last-cons :
    (m n : ℕ) (ns : List ℕ)
    → set_last m (n ∷ ns) ≡ elim (last ns) [ some _ ↦ n ∷ set_last m ns | none ↦ m ∷ ns ]
set_last-cons m n [] = refl
set_last-cons m n (k ∷ ns) = let (j, e) = has_last k ns in ground (arith, e)

-- The index of a unit is that of its last row.
pub quantity_of-last :
    (u : UsageUnit) (qs : List UsageQuantity) → quantity_of u qs ≡ last (rows_of u qs)
unfolding quantity_of rows_of
quantity_of-last u [] = refl
quantity_of-last u (q ∷ qs) =
    ground (arith, quantity_of-last u qs, last-cons q.quantity (rows_of u qs))

pub rows_of-append :
    (u : UsageUnit) (qs : List UsageQuantity) (q : UsageQuantity)
    → rows_of u (qs ++ q ∷ []) ≡ rows_of u qs ++ rows_of u (q ∷ [])
unfolding rows_of
rows_of-append u [] q = refl
rows_of-append u (p ∷ qs) q = ground (arith, rows_of-append u qs q)

pub rows_of-set_self :
    (u : UsageUnit) (n : ℕ) (qs : List UsageQuantity)
    → rows_of u (set_quantity u n qs) ≡ set_last n (rows_of u qs)
unfolding rows_of set_quantity
rows_of-set_self u n [] = refl
rows_of-set_self u n (q ∷ qs) = ground (
  arith,
  rows_of-set_self u n qs,
  quantity_of-last u qs,
  set_last-cons n q.quantity (rows_of u qs),
  no_rows (rows_of u qs) n,
)
  where
    no_rows : (l : List ℕ) (n : ℕ) → last l ≡ none → set_last n l ≡ l
    no_rows [] n e = refl
    no_rows (k ∷ l) n e = let (m, f) = has_last k l in ground (arith, e, f)

other_row :
    (w u v : UsageUnit) → same_unit v u ≡ false → same_unit w v ≡ true → same_unit w u ≡ false
other_row w u v ne e = ap (λ x. same_unit x u) ((same_unit_iff w v).0 e) ∙ ne

pub rows_of-nil : (u : UsageUnit) → rows_of u [] ≡ []
unfolding rows_of
rows_of-nil u = refl

pub rows_of-cons :
    (u : UsageUnit) (q : UsageQuantity) (qs : List UsageQuantity)
    → rows_of u (q ∷ qs) ≡ (if same_unit q.unit u then q.quantity ∷ rows_of u qs else rows_of u qs)
unfolding rows_of
rows_of-cons u q qs = refl

rows_of-cons_ap :
    (u : UsageUnit) (q : UsageQuantity) (qs rs : List UsageQuantity)
    → rows_of u qs ≡ rows_of u rs
    → rows_of u (q ∷ qs) ≡ rows_of u (q ∷ rs)
rows_of-cons_ap u q qs rs e = rw (rows_of-cons u q qs, rows_of-cons u q rs, e) refl

pub rows_of-set_other :
    (u v : UsageUnit) (n : ℕ) (qs : List UsageQuantity)
    → same_unit v u ≡ false
    → rows_of u (set_quantity v n qs) ≡ rows_of u qs
unfolding set_quantity
rows_of-set_other u v n [] ne = refl
rows_of-set_other u v n (q ∷ qs) ne =
    choose (quantity_of v qs) (same_unit q.unit v) refl (rows_of-set_other u v n qs ne)
  where
    choose :
        (o : Option ℕ) (b : Bool)
        → same_unit q.unit v ≡ b
        → rows_of u (set_quantity v n qs) ≡ rows_of u qs
        → rows_of u (elim o [
          | some _ ↦ q ∷ set_quantity v n qs
          | none ↦ if b then record q { quantity = n } ∷ qs else q ∷ qs
        ])
          ≡ rows_of u (q ∷ qs)
    choose (some _) b e ih = rows_of-cons_ap u q (set_quantity v n qs) qs ih
    choose none false e ih = refl
    choose none true e ih =
        rw
          (
            rows_of-cons u (record q { quantity = n }) qs,
            rows_of-cons u q qs,
            other_row q.unit u v ne e,
          )
          refl

pub raised :
    (m n : ℕ) (l : List ℕ) → last l ≡ some n → ltb n m ≡ true → set_last m l ≡ raise_last m l
raised m n [] e h = cc
raised m n (k ∷ []) e h = ground (arith, e, h)
raised m n (k ∷ j ∷ l) e h = ap (λ s. k ∷ s) (raised m n (j ∷ l) e h)

pub not_raised : (m n : ℕ) (l : List ℕ) → last l ≡ some n → ltb n m ≡ false → l ≡ raise_last m l
not_raised m n [] e h = refl
not_raised m n (k ∷ []) e h = ground (arith, e, h)
not_raised m n (k ∷ j ∷ l) e h = ap (λ s. k ∷ s) (not_raised m n (j ∷ l) e h)
