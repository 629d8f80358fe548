-- ===== src/CustomerLimit/Examples.antt =====
-- The windows of a credential generation at concrete maps, with numbers for scopes.
use kaana.Prelude.{ℕ, ◌+◌, ◌≡◌, false, none, some, [], ◌∷◌, arith, ◌==◌, if◌then◌else◌}
use kaana.Prelude.Int.{pos, pos_part}
use kaana.Prelude.Assoc.{nat_eq}
use kaana.CustomerLimit.{
  Entry, Entries, throttled, rejected, admit, throttle, throttle_window, report,
}
use kaana.CustomerLimit.Windows.{answer_in_window, ask_all, unreported, throttle_exact}
use kaana.CustomerLimit.Isolation.{admit_isolated, report_isolated}

abbrev refused_once : Entry
refused_once = record {
  reason = throttled;
  probes_at = 20;
  trial_in_flight = false;
  last_seen = 10;
}

-- Generation 1 was throttled at 10, until 20.
abbrev known : Entries ℕ
known n = if n == 1 then some refused_once else none

throttle_exact_example :
    (admit 1 18 (ask_all ((1, 12) ∷ (2, 16) ∷ []) (throttle (unreported 1) (pos 7) 10 known).1)).1
    ≡ answer_in_window throttled (10 + pos_part (throttle_window (pos 7))) 1 18
throttle_exact_example =
    throttle_exact 1 (pos 7) 10 18 ((1, 12) ∷ (2, 16) ∷ []) known (omega arith) (omega arith)
      (omega arith, (omega arith, tt))

admit_isolated_example : (admit 1 15 (admit 2 12 known).0).1 ≡ (admit 1 15 known).1
admit_isolated_example = admit_isolated 2 1 12 15 known (omega arith) (omega arith)

report_isolated_example :
    (admit 1 15
      (report (some (record { scope = 2; reported = false })) rejected (pos 9) false 12 known).1).1
    ≡ (admit 1 15 known).1
report_isolated_example =
    report_isolated (record { scope = 2; reported = false }) 1 rejected (pos 9) false 12 15 known
      (omega arith)
