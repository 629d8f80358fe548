-- ===== src/UsageEstimate/Examples.antt =====
-- The estimate at a short answer.
use kaana.Prelude.{true, false, ◌≡◌, List, [], ◌∷◌}
use kaana.Contract.{output_text, reasoning, output_tokens, input_tokens, UsageQuantity}
use kaana.UsageEstimate.{empty_estimate, supplement, units}
use kaana.UsageEstimate.Counting.{Delta, add_deltas, add_deltas-Counts, Counts, text_of}
use kaana.UsageEstimate.Supplement.{supplement_exact}
use kaana.UsageEstimate.Rows.{rows_of, merged_rows}

abbrev answer : List Delta
answer = (reasoning, "hm") ∷ (output_text, "Día") ∷ (output_text, " 1") ∷ []

add_deltas-Counts_example :
    Counts (add_deltas answer empty_estimate).output empty_estimate.output (text_of false answer)
    × Counts
        (add_deltas answer empty_estimate).reasoning
        empty_estimate.reasoning
        (text_of true answer)
add_deltas-Counts_example = add_deltas-Counts answer empty_estimate

abbrev reported : List UsageQuantity
reported =
    record { unit = input_tokens; quantity = 9 }
    ∷ record { unit = output_tokens; quantity = 1 }
    ∷ []

supplement_exact_example :
    rows_of output_tokens (supplement (add_deltas answer empty_estimate) reported)
    ≡ merged_rows output_tokens
        (rows_of output_tokens reported)
        (rows_of output_tokens (units (add_deltas answer empty_estimate)))
supplement_exact_example =
    supplement_exact (add_deltas answer empty_estimate) reported output_tokens
