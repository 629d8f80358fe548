-- ===== src/Funding/Order.antt =====
-- The economic order of a provider's keys, and what a ceiling lets a walk spend (funding.go).
use kaana.Prelude.{ℕ, ◌≤◌, max, String, ◌≡◌, true, false, some, arith, str_eq}
use kaana.Funding.{
  Funding, unstated, FundingTier, KeyClass, tier_rank, tier_of, admits, admits_tier, rank,
  from_class, from_category, funding_for, at_category, combine, dearer,
}

-- A ceiling admits a key that is no dearer than a key that it admits, and admits no unstated key
-- unless there is no ceiling.
pub cheaper_admitted :
    (ceiling : FundingTier) (f g : Funding)
    → rank f ≤ rank g
    → admits ceiling g ≡ true
    → admits ceiling f ≡ true
unfolding admits admits_tier tier_of tier_rank rank
cheaper_admitted ceiling f g h a = ground (arith, ceiling, f, g)

-- A class that nobody stated is no lower bound.
abbrev pub stated_rank : Funding → ℕ
unfolding rank
stated_rank unstated = 0
stated_rank f = rank f

dearer-rank : (c k : Funding) → rank (dearer c k) ≡ max (stated_rank c) (rank k)
unfolding rank dearer
dearer-rank c k = ground (arith, c, k)

-- A key of a known class whose description has a known capacity category has a funding, and it is
-- the dearer of the two statements; an unstated class does not count.
pub funding_for_dearest :
    (class : KeyClass) (category : String) (c k : Funding)
    → from_class class ≡ some c
    → str_eq category "" ≡ false
    → from_category category ≡ some k
    → (f : Funding) × (funding_for class category ≡ some f)
      × (rank f ≡ max (stated_rank c) (rank k))
unfolding funding_for at_category combine
funding_for_dearest class category c k hc hn hk = (dearer c k, derived, dearer-rank c k)
  where
    derived : at_category category (from_class class) ≡ some (dearer c k)
    derived = simp (hc, hn, hk)
