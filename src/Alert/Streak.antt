-- ===== src/Alert/Streak.antt =====
-- Sustained violations: what has to come before a fire.
use native.Mathlib.Numerals.{add-one}
use statixagent.Prelude.{ℕ, zero, suc, ◌≤◌, max, ◌≡◌, refl, Bool, true, false, List, [], ◌∷◌, arith}
use statixagent.Prelude.Int.{ℤ, pos_part}
use statixagent.Prelude.Text.{Str}
use statixagent.Prelude.Time.{Time, Duration}
use statixagent.Prelude.Map.{get}
use statixagent.Alert.{new, step, next_streak}
use statixagent.Alert.State.{
  KeyOp, sample, silence, unsilence, seeded, noted, Op, KeyState, view, key_apply, apply,
  apply-verdict, run, ops_of, key_run, run-key_run, cooldown-run,
}

-- The latest `n` samples of a history, newest first, were all violating, and no seed came between.
abbrev pub AllViolating : ℕ → List KeyOp → Type 0
AllViolating zero past = Unit
AllViolating (suc n) [] = ⊥
AllViolating (suc n) (sample v r sustain now ∷ past) = (v ≡ true) × AllViolating n past
AllViolating (suc n) (seeded failing ∷ past) = ⊥
AllViolating (suc n) (silence until ∷ past) = AllViolating (suc n) past
AllViolating (suc n) (unsilence ∷ past) = AllViolating (suc n) past
AllViolating (suc n) (noted now override ∷ past) = AllViolating (suc n) past

AllViolating-le : (m n : ℕ) (past : List KeyOp) → m ≤ n → AllViolating n past → AllViolating m past
AllViolating-le zero n past h a = tt
AllViolating-le (suc m) zero past h a = absurd (omega arith)
AllViolating-le (suc m) (suc n) [] h a = a
AllViolating-le (suc m) (suc n) (sample v r sustain now ∷ past) h a =
    (a.0, AllViolating-le m n past (omega arith) a.1)
AllViolating-le (suc m) (suc n) (seeded failing ∷ past) h a = a
AllViolating-le (suc m) (suc n) (silence until ∷ past) h a =
    AllViolating-le (suc m) (suc n) past h a
AllViolating-le (suc m) (suc n) (unsilence ∷ past) h a = AllViolating-le (suc m) (suc n) past h a
AllViolating-le (suc m) (suc n) (noted now override ∷ past) h a =
    AllViolating-le (suc m) (suc n) past h a

-- A call that is no sample and no seed leaves the streak, and is passed over in the history.
abbrev IsNeutral : KeyOp → Type 0
IsNeutral (sample v r sustain now) = ⊥
IsNeutral (seeded failing) = ⊥
IsNeutral _ = Unit

AllViolating-skip :
    (n : ℕ) (o : KeyOp) (past : List KeyOp)
    → IsNeutral o
    → AllViolating n past
    → AllViolating n (o ∷ past)
AllViolating-skip zero o past h a = tt
AllViolating-skip (suc n) (sample v r sustain now) past h a = absurd h
AllViolating-skip (suc n) (seeded failing) past h a = absurd h
AllViolating-skip (suc n) (silence until) past h a = a
AllViolating-skip (suc n) unsilence past h a = a
AllViolating-skip (suc n) (noted now override) past h a = a

streak-sample :
    (cd : Duration) (s : KeyState) (v r : Bool) (sustain : ℤ) (now : Time)
    → (key_apply cd s (sample v r sustain now)).0.streak ≡ next_streak v s.streak
unfolding key_apply
streak-sample cd s v r sustain now = ground arith

streak-neutral :
    (cd : Duration) (s : KeyState) (o : KeyOp)
    → IsNeutral o
    → (key_apply cd s o).0.streak ≡ s.streak
unfolding key_apply
streak-neutral cd s o h = ground arith

AllViolating-next :
    (n : ℕ) (v r : Bool) (sustain : ℤ) (now : Time) (past : List KeyOp)
    → AllViolating n past
    → AllViolating (next_streak v n) (sample v r sustain now ∷ past)
AllViolating-next n true r sustain now past a = rw (add-one n) (refl, a)
AllViolating-next n false r sustain now past a = tt

AllViolating-key_apply :
    (cd : Duration) (s : KeyState) (o : KeyOp) (past : List KeyOp)
    → AllViolating s.streak past
    → AllViolating (key_apply cd s o).0.streak (o ∷ past)
AllViolating-key_apply cd s (sample v r sustain now) past a =
    rw (streak-sample cd s v r sustain now) (AllViolating-next s.streak v r sustain now past a)
AllViolating-key_apply cd s (seeded failing) past a = unfold key_apply in tt
AllViolating-key_apply cd s o past a =
    rw (streak-neutral cd s o tt) (AllViolating-skip s.streak o past tt a)

-- A history, newest first, on top of an earlier one.
abbrev pub onto : List KeyOp → List KeyOp → List KeyOp
onto [] past = past
onto (o ∷ os) past = onto os (o ∷ past)

AllViolating-key_run :
    (cd : Duration) (s : KeyState) (os past : List KeyOp)
    → AllViolating s.streak past
    → AllViolating (key_run cd s os).streak (onto os past)
unfolding key_run
AllViolating-key_run cd s [] past a = a
AllViolating-key_run cd s (o ∷ os) past a =
    AllViolating-key_run cd (key_apply cd s o).0 os (o ∷ past)
      (AllViolating-key_apply cd s o past a)

fire_needs_streak :
    (cd : Duration) (s : KeyState) (v r : Bool) (sustain : ℤ) (now : Time)
    → (key_apply cd s (sample v r sustain now)).1.fire ≡ true
    → max (pos_part sustain) 1 ≤ (key_apply cd s (sample v r sustain now)).0.streak
unfolding key_apply
fire_needs_streak cd s v r sustain now h = ground arith

key_fire-AllViolating :
    (cd : Duration) (s : KeyState) (os : List KeyOp) (v r : Bool) (sustain : ℤ) (now : Time)
    → AllViolating s.streak []
    → (key_apply cd (key_run cd s os) (sample v r sustain now)).1.fire ≡ true
    → AllViolating (max (pos_part sustain) 1) (sample v r sustain now ∷ onto os [])
key_fire-AllViolating cd s os v r sustain now a h =
    let final = key_run cd s os in
    AllViolating-le _ _ _ (fire_needs_streak cd final v r sustain now h) (
      AllViolating-key_apply cd final (sample v r sustain now) _
        (AllViolating-key_run cd s os [] a))

-- After any history of a fresh engine, a sample that fires is the last of at least
-- `max sustain 1` samples of its key that were all violating, with no seed of the key among them;
-- snoozed samples count.
pub fire-AllViolating :
    (cooldown : Duration) (os : List Op) (k : Str) (v r : Bool) (sustain : ℤ) (now : Time)
    → (step (run (new cooldown) os) k v r sustain now).1.fire ≡ true
    → AllViolating (max (pos_part sustain) 1) (sample v r sustain now ∷ onto (ops_of k os) [])
unfolding apply new get
fire-AllViolating cooldown os k v r sustain now h =
    let e = run (new cooldown) os in
    let o = sample v r sustain now in
    let said : (apply e k o).1.fire ≡ true = h in
    key_fire-AllViolating cooldown (view (new cooldown) k) (ops_of k os) v r sustain now tt (
      rw (apply-verdict e k o, (run-key_run k (new cooldown) os).0, cooldown-run (new cooldown) os)
        at said)
