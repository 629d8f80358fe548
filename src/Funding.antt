-- ===== src/Funding.antt =====
-- internal/provider/funding.go: what spending on a platform key costs, as its operator stated it,
-- and which keys a funding ceiling admits. A class or a capacity category is the text of a database
-- row; the classes are read where they are declared, the categories here.
pub mod Order
mod Examples
use kaana.Prelude.{
  ℕ, String, Bool, true, false, Option, none, some, ◌&&◌, ◌||◌, not, leb, str_eq, if◌then◌else◌,
}

pub data Funding : Type 0 where
  free promotional prepaid paid unstated : Funding

pub data FundingTier : Type 0 where
  tier_free tier_credit tier_paid tier_none : FundingTier

-- A KeyClass as text: the three that the source names, or another one.
pub data KeyClass : Type 0 where
  class_free class_paid class_unstated : KeyClass
  class_other : String → KeyClass

unfoldable pub valid_tier : FundingTier → Bool
valid_tier tier_free = true
valid_tier tier_credit = true
valid_tier tier_paid = true
valid_tier tier_none = false

unfoldable pub tier_rank : FundingTier → ℕ
tier_rank tier_free = 0
tier_rank tier_credit = 1
tier_rank tier_paid = 2
tier_rank tier_none = 3

-- Funding.Tier
unfoldable pub tier_of : Funding → FundingTier
tier_of free = tier_free
tier_of promotional = tier_credit
tier_of prepaid = tier_credit
tier_of paid = tier_paid
tier_of unstated = tier_none

-- FundingTier.Admits, after the test for no ceiling.
admits_tier : FundingTier → FundingTier → Bool
unfolding tier_rank
admits_tier ceiling tier_none = false
admits_tier ceiling tier = leb (tier_rank tier) (tier_rank ceiling)

unfoldable pub admits : FundingTier → Funding → Bool
unfolding admits_tier tier_of
admits tier_none funding = true
admits ceiling funding = admits_tier ceiling (tier_of funding)

-- Funding.rank
unfoldable pub rank : Funding → ℕ
rank free = 0
rank promotional = 1
rank prepaid = 2
rank paid = 3
rank unstated = 4

-- The first `switch` of FundingFor; `none` is its error.
unfoldable pub from_class : KeyClass → Option Funding
from_class class_free = some free
from_class class_paid = some paid
from_class class_unstated = some unstated
from_class (class_other text) = none

-- The capacity categories of the second `switch`.
unfoldable pub from_category : String → Option Funding
from_category c =
    if str_eq c "trial" || str_eq c "promotional"
    then some promotional
    else if str_eq c "prepaid"
    then some prepaid
    else if str_eq c "paid"
    then some paid
    else none

dearer : Funding → Funding → Funding
unfolding rank
dearer unstated category = category
dearer class category = if leb (rank class) (rank category) then category else class

combine : Funding → Option Funding → Option Funding
unfolding dearer
combine class none = none
combine class (some category) = some (dearer class category)

at_category : String → Option Funding → Option Funding
unfolding combine
at_category category none = none
at_category category (some class) =
    if str_eq category "" then some class else combine class (from_category category)

-- FundingFor; `none` is an error.
unfoldable pub funding_for : KeyClass → String → Option Funding
unfolding at_category
funding_for class category = at_category category (from_class class)
