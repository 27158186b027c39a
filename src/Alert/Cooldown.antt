-- ===== src/Alert/Cooldown.antt =====
-- The cooldown of the alert engine, over whole histories.
use statixagent.Prelude.{
  ◌+◌, ◌≤◌, ◌≡◌, true, false, ◌&&◌, str_eq, Option, none, some, List, [], ◌∷◌, if◌then◌else◌, arith,
}
use statixagent.Prelude.Int.{pos, pos_part, ltb_ℤ}
use statixagent.Prelude.Text.{Str}
use statixagent.Prelude.Time.{Time, Duration}
use statixagent.Prelude.Map.{get}
use statixagent.Alert.{Engine, Verdict, cooling}
use statixagent.Alert.State.{
  KeyOp, sample, noted, Op, KeyState, view, gap, key_apply, reports, key_reports, run-key_run,
}

-- When a call was made; a call with no time sends nothing.
abbrev pub time_of : KeyOp → Time
time_of (sample v r sustain now) = now
time_of (noted now override) = now
time_of _ = 0

-- A positive gap after the last message has passed.
abbrev pub Passed : Option Time → Time → Duration → Type 0
Passed none now g = Unit
Passed (some last) now g = ltb_ℤ (pos 0) g ≡ true → last + pos_part g ≤ now

-- Every message stands at least its gap after the message before it.
abbrev pub Spaced : Duration → Option Time → List (KeyOp × Verdict) → Type 0
Spaced cd last [] = Unit
Spaced cd last ((o, v) ∷ rest) =
    (v.fire ≡ true → Passed last (time_of o) (gap cd o))
    × Spaced cd (if v.fire then some (time_of o) else last) rest

gap-Passed :
    (last : Option Time) (now : Time) (g : Duration)
    → (ltb_ℤ (pos 0) g && cooling last now g) ≡ false
    → Passed last now g
gap-Passed none now g h = tt
gap-Passed (some last) now g h = λ positive. ground arith

not_cooling-Passed :
    (last : Option Time) (now : Time) (g : Duration)
    → cooling last now g ≡ false
    → Passed last now g
not_cooling-Passed none now g h = tt
not_cooling-Passed (some last) now g h = λ positive. ground arith

fire-Passed :
    (cd : Duration) (s : KeyState) (o : KeyOp)
    → (key_apply cd s o).1.fire ≡ true
    → Passed s.last (time_of o) (gap cd o)
unfolding key_apply
fire-Passed cd s (sample v r sustain now) h = not_cooling-Passed s.last now cd (ground arith)
fire-Passed cd s (noted now override) h =
    gap-Passed s.last now (gap cd (noted now override)) (ground arith)
fire-Passed cd s o h = cc

last-key_apply :
    (cd : Duration) (s : KeyState) (o : KeyOp)
    → (key_apply cd s o).0.last ≡ (if (key_apply cd s o).1.fire then some (time_of o) else s.last)
unfolding key_apply
last-key_apply cd s o = ground arith

key_Spaced :
    (cd : Duration) (s : KeyState) (os : List KeyOp) → Spaced cd s.last (key_reports cd s os)
unfolding key_reports
key_Spaced cd s [] = tt
key_Spaced cd s (o ∷ os) =
    (fire-Passed cd s o, rw (last-key_apply cd s o) at (key_Spaced cd (key_apply cd s o).0 os))

-- Over any history of calls, on any keys and at any times, each message of a key (a threshold or
-- check that fires, an event that is emitted) comes no earlier than its positive cooldown after the
-- key's previous message; for an event the cooldown is its override where that is not 0.
pub reports-Spaced :
    (k : Str) (e : Engine) (os : List Op) → Spaced e.cooldown (get e.last_fired k) (reports k e os)
reports-Spaced k e os = rw ((run-key_run k e os).1) (key_Spaced e.cooldown (view e k) _)
