-- ===== src/KeyPool/Quota.antt =====
-- What a response's headers say of a key's capacity (QuotaHeaders.Read in credential.go).
use kaana.Prelude.{
  String, ◌≡◌, ◌≢◌, Bool, true, false, none, some, List, [], ◌∷◌, str_eq, if◌then◌else◌, arith,
  Option-cases, inl, inr,
}
use kaana.KeyPool.{
  HeaderNumbers, QuotaObservation, QuotaSignal, remaining_credits, reset_at, other_signal,
  quota_exhausted, quota_unavailable, read_signal, read_from, read_quota,
}

-- No header that is declared to carry remaining credits reads zero or less.
abbrev pub NoneSpent : HeaderNumbers → (String → String) → List (String × QuotaSignal) → Type 0
NoneSpent n header [] = Unit
NoneSpent n header ((name, remaining_credits) ∷ rest) =
    ((remaining : n.floats.Float)
      → n.parse_float (header name) ≡ some remaining
      → n.floats.less_equal remaining (n.floats.literal 0 1) ≡ false)
    × NoneSpent n header rest
NoneSpent n header ((name, _) ∷ rest) = NoneSpent n header rest

read_signal-spent :
    (n : HeaderNumbers) (raw : String) (o : QuotaObservation)
    → ((remaining : n.floats.Float)
        → n.parse_float raw ≡ some remaining
        → n.floats.less_equal remaining (n.floats.literal 0 1) ≡ false)
    → o.state ≢ quota_exhausted
    → (read_signal n remaining_credits raw o).state ≢ quota_exhausted
unfolding read_signal
read_signal-spent n raw o h k q = elim (Option-cases (n.parse_float raw)) [
  | inl e ↦ ground (arith, e)
  | inr (remaining, e) ↦ ground (arith, e, h remaining e, o.state)
]

-- A header that is absent changes nothing, and the others do not exhaust.
keeps_unspent :
    (b : Bool) (o o' : QuotaObservation)
    → o.state ≢ quota_exhausted
    → o'.state ≢ quota_exhausted
    → (if b then o else o').state ≢ quota_exhausted
keeps_unspent true o o' h k = h
keeps_unspent false o o' h k = k

read_from-unspent :
    (n : HeaderNumbers) (header : String → String) (m : List (String × QuotaSignal))
    (o : QuotaObservation)
    → NoneSpent n header m
    → o.state ≢ quota_exhausted
    → (read_from n header m o).state ≢ quota_exhausted
unfolding read_from read_signal
read_from-unspent n header [] o h k = k
read_from-unspent n header ((name, remaining_credits) ∷ rest) o h k =
    read_from-unspent n header rest _ h.1
      (keeps_unspent (str_eq (header name) "") o _ k (read_signal-spent n (header name) o h.0 k))
read_from-unspent n header ((name, reset_at) ∷ rest) o h k =
    read_from-unspent n header rest _ h (keeps_unspent (str_eq (header name) "") o _ k k)
read_from-unspent n header ((name, other_signal s) ∷ rest) o h k =
    read_from-unspent n header rest _ h (keeps_unspent (str_eq (header name) "") o o k k)

-- Whatever the headers and the provider's mapping are, an observation is exhausted only where a
-- header that is declared to carry remaining credits reads zero or less: a rate limit's count, a
-- reset time and an absent or unreadable header never exhaust a key.
pub read_quota-NoneSpent :
    (n : HeaderNumbers) (header : String → String) (m : List (String × QuotaSignal))
    → NoneSpent n header m
    → (read_quota n (some header) m).state ≢ quota_exhausted
unfolding read_quota
read_quota-NoneSpent n header m h = read_from-unspent n header m _ h (λ q. cc)

-- Of two headers that carry remaining credits, one that reads zero or less and one that is unreadable, the
-- one that is read last decides: exhausted or unavailable, by the order of the mapping's iteration.
pub read_quota_order :
    (n : HeaderNumbers) (header : String → String) (a b : String)
    → str_eq (header a) "" ≡ false
    → str_eq (header b) "" ≡ false
    → (remaining : n.floats.Float) → n.parse_float (header a) ≡ some remaining
    → n.floats.less_equal remaining (n.floats.literal 0 1) ≡ true
    → n.parse_float (header b) ≡ none
    → ((read_quota n (some header) ((a, remaining_credits) ∷ (b, remaining_credits) ∷ [])).state
        ≡ quota_unavailable)
      × ((read_quota n (some header) ((b, remaining_credits) ∷ (a, remaining_credits) ∷ [])).state
          ≡ quota_exhausted)
unfolding read_quota read_from read_signal
read_quota_order n header a b ha hb remaining ca spent cb =
    (simp (ha, hb, ca, cb), simp (ha, hb, ca, spent, cb))
