-- ===== src/UsageEstimate/Counting.antt =====
-- How texts are counted (usage_estimate.go).
use kaana.Prelude.{
  ℕ, ◌+◌, ◌*◌, ◌≤◌, String, ◌≡◌, Bool, true, false, List, [], ◌∷◌, ◌++◌, leb, if◌then◌else◌, arith,
  length,
}
use kaana.Contract.{DeltaChannel, reasoning}
use kaana.Contract.Ids.{codes}
use kaana.UsageEstimate.{TokenEstimate, UsageEstimate, no_tokens, add, tokens, add_delta}

-- The characters of a text that are ASCII, and those that are not.
abbrev pub ascii_of : List ℕ → ℕ
ascii_of [] = 0
ascii_of (c ∷ cs) = (if leb c 0x7f then 1 else 0) + ascii_of cs

abbrev pub others_of : List ℕ → ℕ
others_of [] = 0
others_of (c ∷ cs) = (if leb c 0x7f then 0 else 1) + others_of cs

add_exact :
    (text : String) (e : TokenEstimate)
    → ((add text e).ascii_characters ≡ e.ascii_characters + ascii_of (codes text))
      × ((add text e).non_ascii_characters ≡ e.non_ascii_characters + others_of (codes text))
unfolding add
add_exact String.[] e = (omega arith, omega arith)
add_exact (String.◌∷◌ c text) e = ground (
  arith,
  add_exact text (record e { ascii_characters = e.ascii_characters + 1 }),
  add_exact text (record e { non_ascii_characters = e.non_ascii_characters + 1 }),
)

ascii_others :
    (text : String) → ascii_of (codes text) + others_of (codes text) ≡ length (codes text)
ascii_others String.[] = omega arith
ascii_others (String.◌∷◌ c text) = ground (arith, ascii_others text)

-- A delta that the sink took: its channel and its text.
abbrev pub Delta : Type 0
Delta = DeltaChannel × String

pub add_deltas : List Delta → UsageEstimate → UsageEstimate
add_deltas [] e = e
add_deltas ((channel, text) ∷ ds) e = add_deltas ds (add_delta channel text e)

-- What a delta adds to the reasoning side (`true`) or to the output side (`false`).
abbrev pub piece : Bool → DeltaChannel → String → List ℕ
piece true reasoning text = codes text
piece false reasoning text = []
piece true _ text = []
piece false _ text = codes text

-- The text of one side, in the order in which it was delivered.
abbrev pub text_of : Bool → List Delta → List ℕ
text_of side [] = []
text_of side ((channel, text) ∷ ds) = piece side channel text ++ text_of side ds

ascii_of-append : (xs ys : List ℕ) → ascii_of (xs ++ ys) ≡ ascii_of xs + ascii_of ys
ascii_of-append [] ys = omega arith
ascii_of-append (x ∷ xs) ys = omega (arith, ascii_of-append xs ys)

others_of-append : (xs ys : List ℕ) → others_of (xs ++ ys) ≡ others_of xs + others_of ys
others_of-append [] ys = omega arith
others_of-append (x ∷ xs) ys = omega (arith, others_of-append xs ys)

-- The counts of an estimate are those of the given texts, over what was counted before.
abbrev pub Counts : TokenEstimate → TokenEstimate → List ℕ → Type 0
Counts t old text =
    (t.ascii_characters ≡ old.ascii_characters + ascii_of text)
    × (t.non_ascii_characters ≡ old.non_ascii_characters + others_of text)

delta-Counts :
    (channel : DeltaChannel) (text : String) (e : UsageEstimate)
    → Counts (add_delta channel text e).output e.output (piece false channel text)
      × Counts (add_delta channel text e).reasoning e.reasoning (piece true channel text)
unfolding add_delta
delta-Counts reasoning text e = ground (arith, add_exact text e.reasoning)
delta-Counts _ text e = ground (arith, add_exact text e.output)

Counts-append :
    (t u old : TokenEstimate) (xs ys : List ℕ)
    → Counts u old xs
    → Counts t u ys
    → Counts t old (xs ++ ys)
Counts-append t u old xs ys h k = omega (arith, h, k, ascii_of-append xs ys, others_of-append xs ys)

-- However the delivered text was cut into deltas, each side counts the ASCII and the other
-- characters of all the text delivered on it, over what was counted before.
pub add_deltas-Counts :
    (ds : List Delta) (e : UsageEstimate)
    → Counts (add_deltas ds e).output e.output (text_of false ds)
      × Counts (add_deltas ds e).reasoning e.reasoning (text_of true ds)
unfolding add_deltas
add_deltas-Counts [] e = ((omega arith, omega arith), (omega arith, omega arith))
add_deltas-Counts ((channel, text) ∷ ds) e =
    let (out, thought) = delta-Counts channel text e in
    let (outs, thoughts) = add_deltas-Counts ds (add_delta channel text e) in
    (
      Counts-append _ (add_delta channel text e).output _ (piece false channel text) _ out outs,
      Counts-append _ (add_delta channel text e).reasoning _ (piece true channel text) _ thought
          thoughts,
    )

-- A text of n characters is estimated at no more than n tokens, and at no fewer than n / 4.
pub tokens_bounds :
    (text : String)
    → (tokens (add text no_tokens) ≤ length (codes text))
      × (length (codes text) ≤ 4 * tokens (add text no_tokens))
unfolding tokens
tokens_bounds text = omega (arith, add_exact text no_tokens, ascii_others text)
