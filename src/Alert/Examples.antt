-- ===== src/Alert/Examples.antt =====
-- Runs of the alert engine, and its theorems at concrete histories.
use statixagent.Prelude.{
  ℕ, ◌+◌, ◌-◌, ◌≡◌, refl, Bool, true, false, List, [], ◌∷◌, ◌++◌, leb, ltb, arith, str_eq,
}
use statixagent.Prelude.Int.{pos}
use statixagent.Prelude.Text.{Str, codes}
use statixagent.Prelude.Map.{get, put, del}
use statixagent.Prelude.Float.{Float64}
use statixagent.Alert.{warning, Alert, Engine, Verdict, new, step, active, ThresholdOpts}
use statixagent.Alert.State.{
  KeyOp, sample, silence, noted, Op, view, reports, run, key_run, key_reports, ops_of, apply,
  run-key_run,
}
use statixagent.Alert.Cooldown.{Spaced, reports-Spaced}
use statixagent.Alert.Streak.{AllViolating, onto, fire-AllViolating}
use statixagent.Alert.Pairing.{Paired, reports-Paired}
use statixagent.Alert.Snooze.{active-NoFire, NoFire, snooze-then-fire}

abbrev cpu : Str
cpu = codes "cpu"

abbrev disk : Str
disk = codes "disk:/"

abbrev minute : ℕ
minute = 60_000_000_000

abbrev engine : Engine
engine = record {
  cooldown = pos minute;
  active = [];
  streak = [];
  last_fired = [];
  snoozed_until = [];
}

abbrev hot : ℕ → KeyOp
hot now = sample true false (pos 2) now

abbrev on : Str → KeyOp → Op
on k o = record { key = k; op = o }

-- The second hot sample fires, the snooze hides the third, and a cool one after it resolves.
abbrev day : List Op
day =
    on cpu (hot 1)
    ∷ on disk (noted 2 (pos 5))
    ∷ on cpu (hot 3)
    ∷ on cpu (silence 10)
    ∷ on cpu (hot 4)
    ∷ on cpu (sample false true (pos 2) 11)
    ∷ []

abbrev map_verdicts : List (KeyOp × Verdict) → List (Bool × Bool)
map_verdicts [] = []
map_verdicts ((o, v) ∷ rest) = (v.fire, v.resolve) ∷ map_verdicts rest

day_verdicts :
    map_verdicts (reports cpu engine day)
    ≡ (false, false) ∷ (true, false) ∷ (false, false) ∷ (false, false) ∷ (false, true) ∷ []
unfolding reports apply get put del
day_verdicts = refl

run-key_run_example :
    (view (run engine day) cpu ≡ key_run (pos minute) (view engine cpu) (ops_of cpu day))
    × (reports cpu engine day ≡ key_reports (pos minute) (view engine cpu) (ops_of cpu day))
run-key_run_example = run-key_run cpu engine day

reports-Spaced_example : Spaced (pos minute) (get [] cpu) (reports cpu engine day)
reports-Spaced_example = reports-Spaced cpu engine day

fire-AllViolating_example :
    AllViolating 2 (hot 3 ∷ onto (ops_of cpu (on cpu (hot 1) ∷ on disk (hot 2) ∷ [])) [])
unfolding apply run new step get put del
fire-AllViolating_example =
    fire-AllViolating (pos minute) (on cpu (hot 1) ∷ on disk (hot 2) ∷ []) cpu true false (pos 2) 3
      refl

reports-Paired_example : Paired false (reports cpu engine day)
unfolding active get
reports-Paired_example = reports-Paired cpu engine day false (λ h. h)

abbrev snoozing : Engine
snoozing = record engine { snoozed_until = (cpu, 10) ∷ [] }

abbrev under : List Op
under = on cpu (hot 4) ∷ on disk (hot 4) ∷ on cpu (hot 9) ∷ []

snooze-then-fire_example : (step (run snoozing under) cpu true false (pos 3) 10).1.fire ≡ true
unfolding get ops_of active
snooze-then-fire_example =
    snooze-then-fire cpu snoozing under false (pos 3) 10 10 refl refl (omega arith)
      (refl, (refl, tt)) (omega arith) (omega arith) refl

-- The key fired before it was snoozed, stays hot through the snooze, and is never heard of again.
abbrev firing : Engine
firing = record engine { active = (cpu, true) ∷ [] }

abbrev masked : List Op
masked = on cpu (silence 10) ∷ on cpu (hot 4) ∷ on cpu (hot 100_000_000_000) ∷ []

active-NoFire_example : NoFire (reports cpu firing masked)
unfolding get ops_of active
active-NoFire_example = active-NoFire cpu firing masked refl (refl, (refl, tt))

-- Whole numbers meet what the engine asks of floats.

abbrev whole : Float64
whole = record { F = ℕ; zero = 0; fle = leb; flt = ltb; add = ◌+◌; sub = ◌-◌; show1 = λ n. n ∷ [] }

abbrev cpu_rule : ℕ → ThresholdOpts whole
cpu_rule value = record {
  key = cpu;
  title = codes "High CPU";
  severity = warning;
  value = value;
  threshold = 90;
  clear_margin = 10;
  below = false;
  unit = codes "%";
  sustain = pos 1;
}

abbrev hot_alert : Alert
hot_alert = record {
  key = cpu;
  severity = warning;
  title = codes "High CPU";
  body = 95 ∷ codes "% is above the " ++ 90 ∷ codes "% threshold";
  resolved = false;
  at = 7;
}
