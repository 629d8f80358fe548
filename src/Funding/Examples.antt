-- ===== src/Funding/Examples.antt =====
-- The economic order at concrete keys and ceilings.
use kaana.Prelude.{◌≡◌, refl, max, some}
use kaana.Funding.{free, prepaid, class_free, rank, funding_for, from_class, from_category, Funding}
use kaana.Funding.Order.{funding_for_dearest, stated_rank}

funding_for_dearest_example :
    (f : Funding) × (funding_for class_free "prepaid" ≡ some f)
    × (rank f ≡ max (stated_rank free) (rank prepaid))
unfolding from_class from_category
funding_for_dearest_example = funding_for_dearest class_free "prepaid" free prepaid refl refl refl
