-- ===== src/Firewall/Pending/Once.antt =====
-- A pending plan runs at most once.
use statixagent.Prelude.{
  ◌≤◌, ◌≡◌, refl, Option, none, some, str_eq, ==_refl, arith, inl, inr, Option-cases,
}
use statixagent.Prelude.Text.{Str}
use statixagent.Prelude.Time.{Time}
use statixagent.Prelude.Map.{get, keep_if, get-del}
use statixagent.Firewall.Pending.{PlanReq, Plans, alive, get_plan, forget, take_plan}

-- What is not alive now is not alive later.
keep_if-later :
    (now later : Time) (o : Option PlanReq)
    → now ≤ later
    → keep_if (alive now) o ≡ none
    → keep_if (alive later) o ≡ none
keep_if-later now later none h k = refl
keep_if-later now later (some r) h k = ground arith

get_plan-forget : (s : Plans) (id : Str) (now : Time) → get_plan (forget s id) id now ≡ none
unfolding get_plan forget
get_plan-forget s id now = rw (get-del s.m id id, ==_refl id) refl

get_plan-take_plan :
    (s : Plans) (id : Str) (now later : Time)
    → now ≤ later
    → get_plan (take_plan s id now).1 id later ≡ none
unfolding take_plan
get_plan-take_plan s id now later h = elim (Option-cases (get_plan s id now)) [
  | inl gone ↦ rw (take_plan, gone) (unfold get_plan in keep_if-later now later (get s.m id) h gone)
  | inr (r, there) ↦ rw (take_plan, there) (get_plan-forget s id later)
]

-- A plan that is taken, or was not there, is not taken again by a call that begins when the first has ended,
-- at that time or later.
pub take_plan-Once :
    (s : Plans) (id : Str) (now later : Time)
    → now ≤ later
    → (take_plan (take_plan s id now).1 id later).0 ≡ none
unfolding take_plan
take_plan-Once s id now later h = ground (arith, get_plan-take_plan s id now later h)
