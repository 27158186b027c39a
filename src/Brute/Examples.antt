-- ===== src/Brute/Examples.antt =====
-- The detector's theorems at concrete histories.
use statixagent.Prelude.{
  ◌≡◌, refl, true, false, none, some, [], ◌∷◌, str_eq, length, arith, if◌then◌else◌,
}
use statixagent.Prelude.Int.{pos}
use statixagent.Prelude.Text.{Str, codes}
use statixagent.Prelude.Map.{get}
use statixagent.Brute.{BruteDetector, new_brute_detector, still, prune, count}
use statixagent.Brute.Spec.{unseen}
use statixagent.Brute.Refines.{Attempts, times_of, alarms, spec_alarms, alarms-spec_alarms}

abbrev scanner : Str
scanner = codes "203.0.113.7"

abbrev visitor : Str
visitor = codes "10.0.0.2"

-- With a window of 100 and a threshold of 2 the scanner is reported at 30 and again at 310: what it did
-- at 20 and 30 has been swept away by then.
abbrev night : Attempts
night =
    (scanner, 20)
    ∷ (visitor, 25)
    ∷ (scanner, 30)
    ∷ (scanner, 40)
    ∷ (visitor, 300)
    ∷ (scanner, 305)
    ∷ (scanner, 310)
    ∷ []

alarms-night :
    alarms scanner (new_brute_detector (pos 100) (pos 2)) night
    ≡ false ∷ true ∷ false ∷ false ∷ true ∷ []
unfolding alarms new_brute_detector statixagent.Brute.record_attempt statixagent.Brute.register get
    statixagent.Brute.sweep statixagent.Prelude.Map.put prune statixagent.Brute.prune_each
    statixagent.Brute.keys statixagent.Brute.prune_one statixagent.Brute.is_stale
alarms-night = refl

alarms-spec_alarms_example :
    alarms scanner (new_brute_detector (pos 100) (pos 2)) night
    ≡ spec_alarms (pos 100) (pos 2) unseen (times_of scanner night)
alarms-spec_alarms_example = alarms-spec_alarms scanner (pos 100) (pos 2) night (
  omega arith,
  (omega arith, (omega arith, (omega arith, (omega arith, (omega arith, (omega arith, tt)))))),
)

abbrev before_sweep : BruteDetector
before_sweep = record {
  window = pos 100;
  threshold = pos 2;
  attempts = (visitor, 25 ∷ []) ∷ (scanner, 20 ∷ 140 ∷ []) ∷ [];
  fired = (scanner, 30) ∷ [];
  last_sweep = 0;
}
