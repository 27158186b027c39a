-- ===== src/Alert/State.antt =====
-- The engine as one small automaton for each key: histories of calls, what the engine remembers of
-- a key, and the steps that a call makes on it.
use mathlib.Core.Path.{ap₂}
use statixagent.Prelude.{
  ℕ, max, ◌≡◌, refl, ◌∙◌, Bool, true, false, not, ◌&&◌, Option, none, some, List, [], ◌∷◌, ◌==◌,
  ==_iff, ==_refl, str_eq, Bool-cases, inl, inr, leb, if◌then◌else◌, arith,
}
use statixagent.Prelude.Int.{ℤ, pos, pos_part, ltb_ℤ}
use statixagent.Prelude.Text.{Str}
use statixagent.Prelude.Time.{Time, Duration}
use statixagent.Prelude.Map.{get, get-put, get-put_self, get-del, or_else}
use statixagent.Alert.{
  info, Engine, Verdict, quiet, silenced, cooling, next_streak, is_zero_ℤ, snooze, unsnooze, step,
  seed, event,
}

-- What the engine holds for one key.
pub record KeyState : Type 0 where
  pub active : Bool
  pub streak : ℕ
  pub last : Option Time
  pub until : Option Time

abbrev pub view : Engine → Str → KeyState
view e k = record {
  active = or_else (get e.active k) false;
  streak = or_else (get e.streak k) 0;
  last = get e.last_fired k;
  until = get e.snoozed_until k;
}

-- A call, without its key: one sample of `step`, or a call of the method of the same name.
pub data KeyOp : Type 0 where
  sample : Bool → Bool → ℤ → Time → KeyOp
  silence : Time → KeyOp
  unsilence : KeyOp
  seeded : Bool → KeyOp
  noted : Time → Duration → KeyOp

pub record Op : Type 0 where
  pub key : Str
  pub op : KeyOp

-- An event's verdict is whether it was emitted.
abbrev pub emitted {ℓ} : {A : Type ℓ} → Option A → Verdict
emitted none = quiet
emitted (some a) = record { fire = true; resolve = false }

-- A call on the engine. Titles, bodies and severities have no part in the engine's state.
unfoldable pub apply : Engine → Str → KeyOp → Engine × Verdict
unfolding step event snooze unsnooze seed
apply e k (sample v r s now) = step e k v r s now
apply e k (silence until) = (snooze e k until, quiet)
apply e k unsilence = (unsnooze e k, quiet)
apply e k (seeded failing) = (seed e k failing, quiet)
apply e k (noted now override) =
    let (e', al) = event e k [] [] info now override in (e', emitted al)

abbrev pub gap : Duration → KeyOp → Duration
gap cd (noted now override) = if not (is_zero_ℤ override) then override else cd
gap cd _ = cd

-- The automaton of one key.
unfoldable pub key_apply : Duration → KeyState → KeyOp → KeyState × Verdict
key_apply cd s (sample v r sustain now) =
    let n = next_streak v s.streak in
    let counted = record s { streak = n } in
    if silenced s.until now
    then (record counted { active = if r then false else s.active }, quiet)
    else if v && leb (max (pos_part sustain) 1) n && not s.active
    then (if cooling s.last now cd then (counted, quiet) else (
      record counted { active = true; last = some now },
      record { fire = true; resolve = false },
    ))
    else if r && s.active
    then (record counted { active = false }, record { fire = false; resolve = true })
    else (counted, quiet)
key_apply cd s (silence until) = (record s { until = some until }, quiet)
key_apply cd s unsilence = (record s { until = none }, quiet)
key_apply cd s (seeded failing) = (record s { active = failing; streak = 0 }, quiet)
key_apply cd s (noted now override) =
    let g = gap cd (noted now override) in
    if silenced s.until now
    then (s, quiet)
    else if ltb_ℤ (pos 0) g && cooling s.last now g
    then (s, quiet)
    else (record s { last = some now }, record { fire = true; resolve = false })

module _ (e : Engine) (k : Str) where
  pub apply-view_self : (o : KeyOp) → view (apply e k o).0 k ≡ (key_apply e.cooldown (view e k) o).0
  unfolding apply key_apply
  apply-view_self (sample v r sustain now) =
      let n = next_streak v (or_else (get e.streak k) 0) in
      ground (
        arith,
        get-put_self e.streak k n,
        get-put_self e.active k true,
        get-put_self e.active k false,
        get-put_self e.last_fired k now,
      )
  apply-view_self (silence until) = ground (arith, get-put_self e.snoozed_until k until)
  apply-view_self unsilence = ground (arith, get-del e.snoozed_until k k, ==_refl k)
  apply-view_self (seeded failing) =
      ground (arith, get-put_self e.active k failing, get-put_self e.streak k 0)
  apply-view_self (noted now override) = ground (arith, get-put_self e.last_fired k now)

  pub apply-verdict : (o : KeyOp) → (apply e k o).1 ≡ (key_apply e.cooldown (view e k) o).1
  unfolding apply key_apply
  apply-verdict o = ground arith

  pub apply-view_ne : (o : KeyOp) (j : Str) → (k == j) ≡ false → view (apply e k o).0 j ≡ view e j
  unfolding apply key_apply
  apply-view_ne (sample v r sustain now) j h =
      let n = next_streak v (or_else (get e.streak k) 0) in
      ground (
        arith,
        get-put e.streak k j n,
        get-put e.active k j true,
        get-put e.active k j false,
        get-put e.last_fired k j now,
      )
  apply-view_ne (silence until) j h = ground (arith, get-put e.snoozed_until k j until)
  apply-view_ne unsilence j h = ground (arith, get-del e.snoozed_until k j)
  apply-view_ne (seeded failing) j h =
      ground (arith, get-put e.active k j failing, get-put e.streak k j 0)
  apply-view_ne (noted now override) j h = ground (arith, get-put e.last_fired k j now)

  pub apply-cooldown : (o : KeyOp) → (apply e k o).0.cooldown ≡ e.cooldown
  unfolding apply key_apply
  apply-cooldown o = ground arith

-- A call under a key that is equal to `k`.
apply_same :
    (e : Engine) (j k : Str) (o : KeyOp)
    → (j == k) ≡ true
    → (view (apply e j o).0 k ≡ (key_apply e.cooldown (view e k) o).0)
      × ((apply e j o).1 ≡ (key_apply e.cooldown (view e k) o).1)
apply_same e j k o h = rw ((==_iff j k).0 h) (apply-view_self e k o, apply-verdict e k o)

-- A history of calls, on any keys: the engine after it, and what was reported for one key.
unfoldable pub run : Engine → List Op → Engine
run e [] = e
run e (o ∷ os) = run (apply e o.key o.op).0 os

unfoldable pub reports : Str → Engine → List Op → List (KeyOp × Verdict)
reports k e [] = []
reports k e (o ∷ os) =
    let rest = reports k (apply e o.key o.op).0 os in
    if o.key == k then (o.op, (apply e o.key o.op).1) ∷ rest else rest

-- The calls on one key, and the automaton's history of them.
unfoldable pub ops_of : Str → List Op → List KeyOp
ops_of k [] = []
ops_of k (o ∷ os) = let rest = ops_of k os in if o.key == k then o.op ∷ rest else rest

unfoldable pub key_run : Duration → KeyState → List KeyOp → KeyState
key_run cd s [] = s
key_run cd s (o ∷ os) = key_run cd (key_apply cd s o).0 os

unfoldable pub key_reports : Duration → KeyState → List KeyOp → List (KeyOp × Verdict)
key_reports cd s [] = []
key_reports cd s (o ∷ os) = (o, (key_apply cd s o).1) ∷ key_reports cd (key_apply cd s o).0 os

-- What the engine holds for a key after a history, and all that it reported for that key, are those of
-- the key's own automaton over the calls on that key alone: keys never interfere.
pub run-key_run :
    (k : Str) (e : Engine) (os : List Op)
    → (view (run e os) k ≡ key_run e.cooldown (view e k) (ops_of k os))
      × (reports k e os ≡ key_reports e.cooldown (view e k) (ops_of k os))
unfolding run reports ops_of key_run key_reports
run-key_run k e [] = (refl, refl)
run-key_run k e (o ∷ os) = elim (Bool-cases (o.key == k)) [
  | inl same ↦
      let (moved, said) = apply_same e o.key k o.op same in
      let next = run-key_run k (apply e o.key o.op).0 os in
      let (final, rest) = rw (moved, apply-cooldown e o.key o.op) at next in
      rw same (final, ap₂ (λ v r. (o.op, v) ∷ r) said rest)
  | inr other ↦
      let next = run-key_run k (apply e o.key o.op).0 os in
      rw other (rw (apply-view_ne e o.key o.op k other, apply-cooldown e o.key o.op) at next)
]

pub cooldown-run : (e : Engine) (os : List Op) → (run e os).cooldown ≡ e.cooldown
unfolding run
cooldown-run e [] = refl
cooldown-run e (o ∷ os) = cooldown-run (apply e o.key o.op).0 os ∙ apply-cooldown e o.key o.op

-- What the engine reports of a call after a history is what the key's automaton reports.
pub run-verdict :
    (e : Engine) (os : List Op) (k : Str) (o : KeyOp)
    → (apply (run e os) k o).1
      ≡ (key_apply e.cooldown (key_run e.cooldown (view e k) (ops_of k os)) o).1
run-verdict e os k o =
    apply-verdict (run e os) k o
    ∙ ap₂ (λ c s. (key_apply c s o).1) (cooldown-run e os) ((run-key_run k e os).0)
