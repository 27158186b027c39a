-- ===== src/Alert/Snooze.antt =====
-- Snoozed keys: silence while it lasts, what fires after it, and what never does.
use statixagent.Prelude.{
  ◌+◌, ◌≤◌, ◌<◌, ◌≡◌, refl, ◌∙◌, ap, str_eq, Bool, true, false, some, List, [], ◌∷◌, length, arith,
}
use statixagent.Prelude.Int.{ℤ, pos_part}
use statixagent.Prelude.Text.{Str}
use statixagent.Prelude.Time.{Time, Duration}
use statixagent.Prelude.Map.{get}
use statixagent.Alert.{Engine, Verdict, quiet, cooling, active, step}
use statixagent.Alert.State.{
  KeyOp, sample, silence, unsilence, seeded, noted, Op, KeyState, view, key_apply, reports,
  key_reports, key_run, ops_of, run, run-key_run, run-verdict, apply,
}

-- Samples and events before `until`, and no change to the snooze.
abbrev pub Within : Time → List KeyOp → Type 0
Within until [] = Unit
Within until (sample v r sustain now ∷ os) = (now < until) × Within until os
Within until (noted now override ∷ os) = (now < until) × Within until os
Within until (seeded failing ∷ os) = Within until os
Within until (silence u ∷ os) = ⊥
Within until (unsilence ∷ os) = ⊥

abbrev pub AllQuiet : List (KeyOp × Verdict) → Type 0
AllQuiet [] = Unit
AllQuiet ((o, said) ∷ rest) = (said ≡ quiet) × AllQuiet rest

step-Within :
    (cd : Duration) (s : KeyState) (o : KeyOp) (os : List KeyOp) (until : Time)
    → s.until ≡ some until
    → Within until (o ∷ os)
    → ((key_apply cd s o).1 ≡ quiet)
      × ((key_apply cd s o).0.until ≡ some until)
      × ((key_apply cd s o).0.last ≡ s.last)
      × Within until os
unfolding key_apply
step-Within cd s (sample v r sustain now) os until u w =
    (ground arith, ground arith, ground arith, w.1)
step-Within cd s (noted now override) os until u w = (ground arith, ground arith, ground arith, w.1)
step-Within cd s (seeded failing) os until u w = (refl, u, refl, w)
step-Within cd s (silence t) os until u w = absurd w
step-Within cd s unsilence os until u w = absurd w

key_quiet :
    (cd : Duration) (s : KeyState) (os : List KeyOp) (until : Time)
    → s.until ≡ some until
    → Within until os
    → AllQuiet (key_reports cd s os) × ((key_run cd s os).last ≡ s.last)
unfolding key_reports key_run
key_quiet cd s [] until u w = (tt, refl)
key_quiet cd s (o ∷ os) until u w =
    let (said, u', same, w') = step-Within cd s o os until u w in
    let (rest, kept) = key_quiet cd (key_apply cd s o).0 os until u' w' in
    ((said, rest), kept ∙ same)

-- While a key is snoozed, nothing is reported for it, whatever is sampled or happens, on this or on
-- other keys; and the time of its last message stays, so nothing of the snooze delays the messages
-- after it.
snooze-AllQuiet :
    (k : Str) (e : Engine) (os : List Op) (until : Time)
    → get e.snoozed_until k ≡ some until
    → Within until (ops_of k os)
    → AllQuiet (reports k e os) × (get (run e os).last_fired k ≡ get e.last_fired k)
snooze-AllQuiet k e os until u w =
    let (final, said) = run-key_run k e os in
    let (silent, kept) = key_quiet e.cooldown (view e k) (ops_of k os) until u w in
    (rw said silent, ap (λ (s : KeyState). s.last) final ∙ kept)

-- No call recovers or seeds the key.
abbrev pub NeverRecovers : List KeyOp → Type 0
NeverRecovers [] = Unit
NeverRecovers (sample v r sustain now ∷ os) = (r ≡ false) × NeverRecovers os
NeverRecovers (seeded failing ∷ os) = ⊥
NeverRecovers (o ∷ os) = NeverRecovers os

-- No sample fires.
abbrev pub NoFire : List (KeyOp × Verdict) → Type 0
NoFire [] = Unit
NoFire ((sample v r sustain now, said) ∷ rest) = (said.fire ≡ false) × NoFire rest
NoFire ((o, said) ∷ rest) = NoFire rest

step_masked :
    (cd : Duration) (s : KeyState) (v r : Bool) (sustain : ℤ) (now : Time)
    → s.active ≡ true
    → r ≡ false
    → ((key_apply cd s (sample v r sustain now)).0.active ≡ true)
      × ((key_apply cd s (sample v r sustain now)).1.fire ≡ false)
unfolding key_apply
step_masked cd s v r sustain now a n = ground arith

active_noted :
    (cd : Duration) (s : KeyState) (now : Time) (override : Duration)
    → (key_apply cd s (noted now override)).0.active ≡ s.active
unfolding key_apply
active_noted cd s now override = ground arith

key_masked :
    (cd : Duration) (s : KeyState) (os : List KeyOp)
    → s.active ≡ true
    → NeverRecovers os
    → NoFire (key_reports cd s os)
unfolding key_reports
key_masked cd s [] a n = tt
key_masked cd s (sample v r sustain now ∷ os) a n =
    let (a', still) = step_masked cd s v r sustain now a n.0 in
    (still, key_masked cd (key_apply cd s (sample v r sustain now)).0 os a' n.1)
key_masked cd s (seeded failing ∷ os) a n = absurd n
key_masked cd s (noted now override ∷ os) a n =
    key_masked cd (key_apply cd s (noted now override)).0 os (active_noted cd s now override ∙ a) n
key_masked cd s (silence until ∷ os) a n =
    key_masked cd (key_apply cd s (silence until)).0 os (unfold key_apply in a) n
key_masked cd s (unsilence ∷ os) a n =
    key_masked cd (key_apply cd s unsilence).0 os (unfold key_apply in a) n

-- A key that has fired, and whose samples never pass the recovery margin, never fires again: not
-- under a snooze, and not after the snooze has run out or was lifted. This is a defect of the code, which the
-- theorem exhibits for every such history: the comments of `Snooze` and `step` and docs/ARCHITECTURE.md say
-- that a violation still in progress when the snooze ends fires again, and it does so only if it had not
-- fired before the snooze.
pub active-NoFire :
    (k : Str) (e : Engine) (os : List Op)
    → active e k ≡ true
    → NeverRecovers (ops_of k os)
    → NoFire (reports k e os)
unfolding active
active-NoFire k e os a n =
    rw ((run-key_run k e os).1) (key_masked e.cooldown (view e k) (ops_of k os) a n)

-- Violating samples of a key, and nothing else.
abbrev pub Persists : List KeyOp → Type 0
Persists [] = Unit
Persists (sample v r sustain now ∷ os) = (v ≡ true) × Persists os
Persists (o ∷ os) = ⊥

step_persists :
    (cd : Duration) (s : KeyState) (r : Bool) (v : Bool) (sustain : ℤ) (now until : Time)
    → s.until ≡ some until
    → now < until
    → s.active ≡ false
    → v ≡ true
    → ((key_apply cd s (sample v r sustain now)).0.active ≡ false)
      × ((key_apply cd s (sample v r sustain now)).0.streak ≡ s.streak + 1)
unfolding key_apply
step_persists cd s r v sustain now until u w a h = ground arith

key-Persists :
    (cd : Duration) (s : KeyState) (os : List KeyOp) (until : Time)
    → s.until ≡ some until
    → s.active ≡ false
    → Within until os
    → Persists os
    → ((key_run cd s os).active ≡ false)
      × ((key_run cd s os).streak ≡ s.streak + length os)
      × ((key_run cd s os).until ≡ some until)
unfolding key_run
key-Persists cd s [] until u a w p = (a, omega arith, u)
key-Persists cd s (sample v r sustain now ∷ os) until u a w p =
    let (_, u', _, w') = step-Within cd s (sample v r sustain now) os until u w in
    let (a', n) = step_persists cd s r v sustain now until u w.0 a p.0 in
    let (final, count, still) =
      key-Persists cd (key_apply cd s (sample v r sustain now)).0 os until u' a' w' p.1 in
    (final, omega (arith, count, n), still)
key-Persists cd s (o ∷ os) until u a w p = absurd p

fires_when_lifted :
    (cd : Duration) (s : KeyState) (r : Bool) (sustain : ℤ) (now until : Time)
    → s.until ≡ some until
    → s.active ≡ false
    → until ≤ now
    → pos_part sustain ≤ s.streak + 1
    → cooling s.last now cd ≡ false
    → (key_apply cd s (sample true r sustain now)).1.fire ≡ true
unfolding key_apply
fires_when_lifted cd s r sustain now until u a late enough cool = ground arith

-- A violation that had not fired when its key was snoozed, and that lasts through the snooze, fires at
-- the first sample at or after the snooze's end, if by then it has lasted `sustain` samples (those
-- under the snooze count) and the cooldown after the key's last message is over.
pub snooze-then-fire :
    (k : Str) (e : Engine) (os : List Op) (r : Bool) (sustain : ℤ) (now until : Time)
    → get e.snoozed_until k ≡ some until
    → active e k ≡ false
    → Within until (ops_of k os)
    → Persists (ops_of k os)
    → until ≤ now
    → pos_part sustain ≤ length (ops_of k os) + 1
    → cooling (get e.last_fired k) now e.cooldown ≡ false
    → (step (run e os) k true r sustain now).1.fire ≡ true
unfolding active apply
snooze-then-fire k e os r sustain now until u a w p late enough cool =
    let s = view e k in
    let o = sample true r sustain now in
    let (still, count, u') = key-Persists e.cooldown s (ops_of k os) until u a w p in
    let kept = (key_quiet e.cooldown s (ops_of k os) until u w).1 in
    let fires =
      fires_when_lifted e.cooldown (key_run e.cooldown s (ops_of k os)) r sustain now until u' still
        late (omega (arith, count)) (rw kept cool) in
    ap (λ (v : Verdict). v.fire) (run-verdict e os k o) ∙ fires
