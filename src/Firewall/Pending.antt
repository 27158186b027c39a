-- ===== src/Firewall/Pending.antt =====
-- internal/agent/fwplan.go: the plans that wait for their Yes.
pub mod Once
pub mod Valid
use statixagent.Prelude.{
  ℕ, ◌+◌, ◌-◌, ◌≡◌, Bool, true, false, not, Option, none, some, List, [], ◌∷◌, ◌++◌, ◌==◌, str_eq,
  leb, length, without, drop, if◌then◌else◌,
}
use statixagent.Prelude.Text.{Str}
use statixagent.Prelude.Time.{Time, before}
use statixagent.Prelude.Map.{Map, get, put, del, keep_if}
use statixagent.Prelude.Int.{ℤ}
use statixagent.Expiry.{drop_expired, drop_oldest}
use statixagent.Firewall.Rules.{Status}
use statixagent.Firewall.Guard.{SshCheck}
use statixagent.Firewall.Listed.{DiffLine}
use statixagent.Firewall.Simulate.{Change}

-- `fwPlanReq`
pub record PlanReq : Type 0 where
  pub id : Str
  pub title : Str
  pub backend : Str
  pub plan : List Change
  pub cmds : List Str
  pub restore : Str
  pub base : Str
  pub after : Status
  pub diff : List DiffLine
  pub check : SshCheck
  pub actor : ℤ
  pub nonce : Str
  pub expires : Time

-- `fwPlans`: the plans, and their ids with the oldest first.
pub record Plans : Type 0 where
  pub m : Map Str PlanReq
  pub order : List Str

-- `fwMaxPlans`
abbrev pub max_plans : ℕ
max_plans = 32

abbrev pub alive : Time → PlanReq → Bool
alive now r = before now r.expires

-- The clock at which a plan runs out.
abbrev pub plan_expiry : PlanReq → Time
plan_expiry r = r.expires

abbrev pub keep_plan : PlanReq → Plans → Plans
unfolding put
keep_plan r s = record { m = put s.m r.id r; order = s.order ++ r.id ∷ [] }

abbrev pub plans_of : List Str × Map Str PlanReq → Plans
plans_of (ids, m) = record { m = m; order = ids }

-- `none` is a panic: an id of the order that the map has not.
unfoldable pub put_plan : Plans → PlanReq → Time → Option Plans
unfolding drop_expired drop_oldest
put_plan s r now = elim (drop_expired plan_expiry now s.order s.m) [
  | none ↦ none
  | some (ids, m) ↦ some (keep_plan r (plans_of (drop_oldest max_plans ids m)))
]

unfoldable pub get_plan : Plans → Str → Time → Option PlanReq
unfolding get
get_plan s id now = keep_if (alive now) (get s.m id)

-- The second lock of `take`.
unfoldable pub forget : Plans → Str → Plans
unfolding del
forget s id = record { m = del s.m id; order = without id s.order }

unfoldable pub take_plan : Plans → Str → Time → Option PlanReq × Plans
unfolding get_plan forget
take_plan s id now = elim (get_plan s id now) [ none ↦ (none, s) | some r ↦ (some r, forget s id) ]
