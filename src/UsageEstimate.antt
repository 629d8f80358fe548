-- ===== src/UsageEstimate.antt =====
-- internal/kaana/usage_estimate.go: the deterministic reconstruction of the units of an attempt
-- whose provider reported none. A text is a list of Unicode characters, so the replacement
-- characters that Go decodes from invalid UTF-8 do not arise. Counters are not bounded by 2^63.
pub mod Rows
pub mod Supplement
mod Examples
pub mod Counting
use Prim.Native.Char.{code}
use kaana.Prelude.{
  ℕ, ◌+◌, ◌/◌, String, Bool, true, false, Option, none, some, List, [], ◌∷◌, ◌++◌, ◌||◌, ltb, leb,
  if◌then◌else◌,
}
use kaana.Contract.{
  DeltaChannel, output_text, reasoning, UsageUnit, UsageUnit-discrete, UsageQuantity, requests,
  input_tokens, output_tokens, reasoning_tokens,
}

pub record TokenEstimate : Type 0 where
  pub ascii_characters : ℕ
  pub non_ascii_characters : ℕ

pub record UsageEstimate : Type 0 where
  pub input : TokenEstimate
  pub output : TokenEstimate
  pub reasoning : TokenEstimate
  pub output_delivered : Bool

abbrev pub no_tokens : TokenEstimate
no_tokens = record { ascii_characters = 0; non_ascii_characters = 0 }

-- newUsageEstimate of a request with nothing to count.
abbrev pub empty_estimate : UsageEstimate
empty_estimate = record {
  input = no_tokens;
  output = no_tokens;
  reasoning = no_tokens;
  output_delivered = false;
}

unfoldable pub add : String → TokenEstimate → TokenEstimate
add String.[] e = e
add (String.◌∷◌ c text) e = add text (
    if leb (code c) 0x7f
    then record e { ascii_characters = e.ascii_characters + 1 }
    else record e { non_ascii_characters = e.non_ascii_characters + 1 })

unfoldable pub tokens : TokenEstimate → ℕ
tokens e = (e.ascii_characters + 3) / 4 + e.non_ascii_characters

-- text == ""
abbrev pub is_empty : String → Bool
is_empty String.[] = true
is_empty (String.◌∷◌ c s) = false

abbrev marked : Bool → UsageEstimate → UsageEstimate
marked empty e = if empty then e else record e { output_delivered = true }

count_delta : DeltaChannel → String → UsageEstimate → UsageEstimate
count_delta reasoning text e = record e { reasoning = add text e.reasoning }
count_delta _ text e = record e { output = add text e.output }

unfoldable pub add_delta : DeltaChannel → String → UsageEstimate → UsageEstimate
unfolding count_delta
add_delta channel text e = count_delta channel text (marked (is_empty text) e)

unfoldable pub add_tool_call : String → String → UsageEstimate → UsageEstimate
add_tool_call name arguments e = record e {
  output_delivered = true;
  output = add arguments (add name e.output);
}

abbrev unit_if_any : UsageUnit → ℕ → List UsageQuantity
unit_if_any unit n = if ltb 0 n then record { unit = unit; quantity = n } ∷ [] else []

unfoldable pub units : UsageEstimate → List UsageQuantity
units e =
    record { unit = requests; quantity = 1 }
    ∷ (unit_if_any input_tokens (tokens e.input)
        ++ (unit_if_any output_tokens (tokens e.output)
            ++ unit_if_any reasoning_tokens (tokens e.reasoning)))

abbrev pub same_unit : UsageUnit → UsageUnit → Bool
same_unit a b = elim (UsageUnit-discrete a b) [ yes _ ↦ true | no _ ↦ false ]

-- result[positions[unit]].Quantity: `positions` holds the last index at which a unit stands.
unfoldable pub quantity_of : UsageUnit → List UsageQuantity → Option ℕ
quantity_of u [] = none
quantity_of u (q ∷ qs) = elim (quantity_of u qs) [
  | some n ↦ some n
  | none ↦ if same_unit q.unit u then some q.quantity else none
]

-- result[positions[unit]].Quantity = n
pub set_quantity : UsageUnit → ℕ → List UsageQuantity → List UsageQuantity
set_quantity u n [] = []
set_quantity u n (q ∷ qs) =
    let rest = set_quantity u n qs in
    elim (quantity_of u qs) [
      | some _ ↦ q ∷ rest
      | none ↦ if same_unit q.unit u then record q { quantity = n } ∷ qs else q ∷ qs
    ]

-- Output and reasoning, whose final totals a partial stream loses.
abbrev pub is_final_total : UsageUnit → Bool
is_final_total u = same_unit u output_tokens || same_unit u reasoning_tokens

-- One round of supplement's loop.
pub merge_unit : List UsageQuantity → UsageQuantity → List UsageQuantity
unfolding set_quantity
merge_unit result estimated = elim (quantity_of estimated.unit result) [
  | none ↦ result ++ estimated ∷ []
  | some n ↦
      if is_final_total estimated.unit
      then (if ltb n estimated.quantity
          then set_quantity estimated.unit estimated.quantity result
          else result)
      else result
]

pub merge_units : List UsageQuantity → List UsageQuantity → List UsageQuantity
merge_units result [] = result
merge_units result (q ∷ qs) = merge_units (merge_unit result q) qs

unfoldable pub supplement : UsageEstimate → List UsageQuantity → List UsageQuantity
unfolding merge_units
supplement e reported = merge_units reported (units e)
