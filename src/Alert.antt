-- ===== src/Alert.antt =====
-- internal/alert/alert.go: the alert engine. The mutex is left out: each method holds it from its
-- first access to its last, so calls are atomic and a history is a sequence of them. `streak` is an
-- int that one sample at a time raises, so its wrap at 2^63 is out of reach and left out.
pub mod State
pub mod Cooldown
pub mod Streak
pub mod Pairing
pub mod Snooze
pub mod Messages
mod Examples
use statixagent.Prelude.{
  ℕ, ◌+◌, max, Bool, true, false, not, ◌&&◌, Option, none, some, [], ◌++◌, ◌==◌, nat_eq, str_eq,
  leb, if◌then◌else◌,
}
use statixagent.Prelude.Int.{ℤ, pos, pos_part, neg_part, ltb_ℤ}
use statixagent.Prelude.Text.{Str, codes}
use statixagent.Prelude.Time.{Time, Duration, before, sub_lt}
use statixagent.Prelude.Map.{Map, get, put, del, or_else}
use statixagent.Prelude.Float.{Float64}

pub data Severity : Type 0 where
  info warning critical : Severity

pub record Alert : Type 0 where
  pub key : Str
  pub severity : Severity
  pub title : Str
  pub body : Str
  pub resolved : Bool
  pub at : Time

pub record Engine : Type 0 where
  pub cooldown : Duration
  pub active : Map Str Bool
  pub streak : Map Str ℕ
  pub last_fired : Map Str Time
  pub snoozed_until : Map Str Time

-- What `step` and `Check` report: (fire, resolve).
pub record Verdict : Type 0 where
  pub fire : Bool
  pub resolve : Bool

abbrev pub quiet : Verdict
quiet = record { fire = false; resolve = false }

unfoldable pub new : Duration → Engine
new cooldown = record {
  cooldown = cooldown;
  active = [];
  streak = [];
  last_fired = [];
  snoozed_until = [];
}

unfoldable pub snooze : Engine → Str → Time → Engine
snooze e key until = record e { snoozed_until = put e.snoozed_until key until }

unfoldable pub unsnooze : Engine → Str → Engine
unsnooze e key = record e { snoozed_until = del e.snoozed_until key }

-- `until, ok := m[key]; ok && now.Before(until)` on the value that was found
abbrev pub silenced : Option Time → Time → Bool
silenced none now = false
silenced (some until) now = before now until

unfoldable pub snoozed : Engine → Str → Time → Bool
snoozed e key now = silenced (get e.snoozed_until key) now

unfoldable pub snoozed_until : Engine → Str → Time → Time × Bool
unfolding snoozed
snoozed_until e key now = (or_else (get e.snoozed_until key) 0, snoozed e key now)

-- `last, ok := m[key]; ok && now.Sub(last) < cd` on the value that was found
abbrev pub cooling : Option Time → Time → Duration → Bool
cooling none now cd = false
cooling (some last) now cd = sub_lt now last cd

-- The counting of violating samples, which `step` makes first.
abbrev pub next_streak : Bool → ℕ → ℕ
next_streak violating n = if violating then n + 1 else 0

unfoldable pub step : Engine → Str → Bool → Bool → ℤ → Time → Engine × Verdict
unfolding snoozed
step e key violating recovered sustain now =
    let n = next_streak violating (or_else (get e.streak key) 0) in
    let counted = record e { streak = put e.streak key n } in
    let sustained = violating && leb (max (pos_part sustain) 1) n in
    let active = or_else (get e.active key) false in
    if snoozed counted key now
    then (if recovered then record counted { active = put e.active key false } else counted, quiet)
    else if sustained && not active
    then (if cooling (get e.last_fired key) now e.cooldown then (counted, quiet) else (
      record counted { active = put e.active key true; last_fired = put e.last_fired key now },
      record { fire = true; resolve = false },
    ))
    else if recovered && active
    then (
      record counted { active = put e.active key false },
      record { fire = false; resolve = true },
    )
    else (counted, quiet)

unfoldable pub check : Engine → Str → Bool → Time → Engine × Verdict
unfolding step
check e key failing now = step e key failing (not failing) (pos 1) now

unfoldable pub seed : Engine → Str → Bool → Engine
seed e key failing = record e { active = put e.active key failing; streak = put e.streak key 0 }

abbrev is_zero_ℤ : ℤ → Bool
is_zero_ℤ d = pos_part d == 0 && neg_part d == 0

unfoldable pub event : Engine → Str → Str → Str → Severity → Time → Duration → Engine × Option Alert
unfolding snoozed
event e key title body sev now override =
    let cd = if not (is_zero_ℤ override) then override else e.cooldown in
    if snoozed e key now
    then (e, none)
    else if ltb_ℤ (pos 0) cd && cooling (get e.last_fired key) now cd
    then (e, none)
    else (
      record e { last_fired = put e.last_fired key now },
      some (record {
        key = key;
        severity = sev;
        title = title;
        body = body;
        resolved = false;
        at = now;
      }),
    )

unfoldable pub active : Engine → Str → Bool
active e key = or_else (get e.active key) false

module _ (fl : Float64) where
  open fl use {F, fle, flt, add, sub, show1}

  pub record ThresholdOpts : Type 0 where
    pub key : Str
    pub title : Str
    pub severity : Severity
    pub value : F
    pub threshold : F
    pub clear_margin : F
    pub below : Bool
    pub unit : Str
    pub sustain : ℤ

  unfoldable pub violating : ThresholdOpts → Bool
  violating o = if o.below then fle o.value o.threshold else fle o.threshold o.value

  unfoldable pub recovered : ThresholdOpts → Bool
  recovered o =
      if o.below
      then flt (add o.threshold o.clear_margin) o.value
      else flt o.value (sub o.threshold o.clear_margin)

  fire_body : ThresholdOpts → Str
  fire_body o =
      show1 o.value
      ++ o.unit
      ++ codes " is "
      ++ (if o.below then codes "below" else codes "above")
      ++ codes " the "
      ++ show1 o.threshold
      ++ o.unit
      ++ codes " threshold"

  resolve_body : ThresholdOpts → Str
  resolve_body o = codes "recovered: now " ++ show1 o.value ++ o.unit

  -- the `switch` on what `step` reported
  abbrev pub render : ThresholdOpts → Time → Verdict → Option Alert
  unfolding fire_body resolve_body
  render o now v =
      if v.fire
      then some (record {
        key = o.key;
        severity = o.severity;
        title = o.title;
        body = fire_body o;
        resolved = false;
        at = now;
      })
      else if v.resolve
      then some (record {
        key = o.key;
        severity = info;
        title = o.title;
        body = resolve_body o;
        resolved = true;
        at = now;
      })
      else none

  unfoldable pub threshold : Engine → ThresholdOpts → Time → Engine × Option Alert
  unfolding violating recovered step fire_body resolve_body
  threshold e o now =
      let (e', v) = step e o.key (violating o) (recovered o) o.sustain now in (e', render o now v)
