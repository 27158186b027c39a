-- ===== src/Alert/Pairing.antt =====
-- Fires and recoveries of one key, over whole histories.
use statixagent.Prelude.{◌≡◌, Bool, true, false, List, [], ◌∷◌, if◌then◌else◌, arith}
use statixagent.Prelude.Text.{Str}
use statixagent.Prelude.Time.{Duration}
use statixagent.Alert.{Engine, Verdict, active}
use statixagent.Alert.State.{
  KeyOp, sample, seeded, Op, KeyState, view, key_apply, reports, key_reports, run-key_run,
}

-- The latest of: fired (true), resolved (false), seeded as failing or not.
abbrev pub next_open : Bool → KeyOp → Verdict → Bool
next_open open? (sample v r sustain now) said =
    if said.fire then true else if said.resolve then false else open?
next_open open? (seeded failing) said = failing
next_open open? o said = open?

-- A call resolves only what is open, and does not fire and resolve at once.
abbrev pub Paired : Bool → List (KeyOp × Verdict) → Type 0
Paired open? [] = Unit
Paired open? ((o, said) ∷ rest) =
    (said.resolve ≡ true → (open? ≡ true) × (said.fire ≡ false))
    × Paired (next_open open? o said) rest

abbrev Covers : Bool → Bool → Type 0
Covers active? open? = active? ≡ true → open? ≡ true

resolve_needs_active :
    (cd : Duration) (s : KeyState) (o : KeyOp)
    → (key_apply cd s o).1.resolve ≡ true
    → (s.active ≡ true) × ((key_apply cd s o).1.fire ≡ false)
unfolding key_apply
resolve_needs_active cd s o h = ground arith

Covers-key_apply :
    (cd : Duration) (s : KeyState) (o : KeyOp) (open? : Bool)
    → Covers s.active open?
    → Covers (key_apply cd s o).0.active (next_open open? o (key_apply cd s o).1)
unfolding key_apply
Covers-key_apply cd s o open? c = λ h. ground arith

key_Paired :
    (cd : Duration) (s : KeyState) (os : List KeyOp) (open? : Bool)
    → Covers s.active open?
    → Paired open? (key_reports cd s os)
unfolding key_reports
key_Paired cd s [] open? c = tt
key_Paired cd s (o ∷ os) open? c = (
  λ h. let (was, said) = resolve_needs_active cd s o h in (c was, said),
  key_Paired cd (key_apply cd s o).0 os _ (Covers-key_apply cd s o open? c),
)

-- Over any history of calls, on any keys, from an engine where the key is `open?` if it is active,
-- each recovery that is reported for a key closes something open: the latest fire, recovery or seed
-- of the key before it is a fire or a failing seed. No call reports a fire and a recovery at once.
pub reports-Paired :
    (k : Str) (e : Engine) (os : List Op) (open? : Bool)
    → (active e k ≡ true → open? ≡ true)
    → Paired open? (reports k e os)
unfolding active
reports-Paired k e os open? c =
    rw ((run-key_run k e os).1) (key_Paired e.cooldown (view e k) _ open? c)
