-- ===== src/Alert/Messages.antt =====
-- What a call sends: threshold alerts, recovery notices and events.
use statixagent.Prelude.{
  ◌≡◌, ◌⊎◌, inl, inr, Bool, true, false, ◌&&◌, ◌||◌, not, none, some, str_eq, arith, if◌then◌else◌,
  Bool-cases,
}
use statixagent.Prelude.Int.{pos, ltb_ℤ}
use statixagent.Prelude.Text.{Str}
use statixagent.Prelude.Time.{Time, Duration}
use statixagent.Prelude.Map.{get, get-put_self}
use statixagent.Prelude.Float.{Float64}
use statixagent.Alert.{
  Severity, Engine, cooling, snoozed, active, event, step, check, is_zero_ℤ, ThresholdOpts,
  violating, recovered, threshold,
}

-- Between the threshold and the recovery margin nothing is sent, and no key changes between active
-- and inactive.
pub threshold_band :
    (fl : Float64) (e : Engine) (o : ThresholdOpts fl) (now : Time) (k : Str)
    → violating fl o ≡ false
    → recovered fl o ≡ false
    → ((threshold fl e o now).1 ≡ none) × (active (threshold fl e o now).0 k ≡ active e k)
unfolding threshold active step
threshold_band fl e o now k v r = ground arith

-- An event is emitted exactly when its key is not snoozed and no message of the key was sent within
-- the cooldown that applies, if that is positive. An event that is not emitted leaves the engine as it
-- was; one that is emitted is the key's last message, and makes no key active.
event_cases :
    (e : Engine) (k title body : Str) (sev : Severity) (now : Time) (override : Duration)
    → let cd = if not (is_zero_ℤ override) then override else e.cooldown in
      let r = event e k title body sev now override in
      let blocked = snoozed e k now || (ltb_ℤ (pos 0) cd && cooling (get e.last_fired k) now cd) in
      ((blocked ≡ true) × (r ≡ (e, none)))
      ⊎ ((blocked ≡ false)
          × (r.1
              ≡ some (record {
                key = k;
                severity = sev;
                title = title;
                body = body;
                resolved = false;
                at = now;
              }))
          × (get r.0.last_fired k ≡ some now)
          × (r.0.active ≡ e.active))
unfolding event
event_cases e k title body sev now override =
    let cd = if not (is_zero_ℤ override) then override else e.cooldown in
    elim (Bool-cases
      (snoozed e k now || (ltb_ℤ (pos 0) cd && cooling (get e.last_fired k) now cd))) [
        | inl b ↦ inl (b, ground arith)
        | inr b ↦
            inr (b, ground arith, ground (arith, get-put_self e.last_fired k now), ground arith)
      ]

-- A check fires only on a failure of a key that was not firing, and resolves only on a pass of a key
-- that was; a pass leaves the key inactive, snoozed or not.
pub check_verdict :
    (e : Engine) (k : Str) (failing : Bool) (now : Time)
    → (((check e k failing now).1.fire ≡ false) ⊎ ((failing ≡ true) × (active e k ≡ false)))
      × (((check e k failing now).1.resolve ≡ false) ⊎ ((failing ≡ false) × (active e k ≡ true)))
      × ((failing ≡ true) ⊎ (active (check e k failing now).0 k ≡ false))
unfolding check active
check_verdict e k failing now = (
  elim (Bool-cases (check e k failing now).1.fire) [
    | inl h ↦ inr (ground arith, ground arith)
    | inr n ↦ inl n
  ],
  elim (Bool-cases (check e k failing now).1.resolve) [
    | inl h ↦ inr (ground arith, ground arith)
    | inr n ↦ inl n
  ],
  elim (Bool-cases failing) [
    | inl h ↦ inl h
    | inr n ↦ inr (ground (arith, get-put_self e.active k false))
  ],
)
