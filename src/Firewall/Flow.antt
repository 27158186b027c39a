-- ===== src/Firewall/Flow.antt =====
-- internal/agent/fwrules.go: a change from its plan to the trial that applies it.
pub mod Keeps
use statixagent.Prelude.{
  ℕ, ◌+◌, ◌*◌, ◌^◌, Bool, true, false, not, ◌&&◌, ◌||◌, Option, none, some, List, [], ◌∷◌, ◌++◌,
  ◌==◌, str_eq, if◌then◌else◌,
}
use statixagent.Prelude.Text.{Str}
use statixagent.Prelude.Time.{Time}
use statixagent.Prelude.Int.{ℤ}
use statixagent.Netip.{Addr, NetText}
use statixagent.Firewall.Rules.{Status}
use statixagent.Firewall.Specs.{FwSpec}
use statixagent.Firewall.Simulate.{Change, simulate}
use statixagent.Firewall.Plan.{PlanResult, planned, plan_specs, restore_plan}
use statixagent.Firewall.Guard.{Refusal, ssh_guard, ssh_check}
use statixagent.Firewall.Listed.{
  BuiltPlan, BuildResult, built, unbuilt, Unbuilt, outgoing_rule, cannot_plan, fw_gen, diff_rows,
}
use statixagent.Firewall.Pending.{PlanReq, Plans, put_plan, take_plan}

-- A fresh reading, `fwNow`; `unread` is why there is none.
pub record Reading : Type 0 where
  pub unread : Bool
  pub conflict : Bool
  pub backend : Str
  pub fw : Status
  pub added : List (List Str)
  pub v6 : Bool

-- What the rest of the agent answers: the rollback switch is set up, a trial is pending, the commands that
-- the backend would run, the SSH ports, the peers and the trusted hosts, a random id, a minted nonce, and
-- the clock when the plan is made and when it is stored.
pub record Answers : Type 0 where
  pub ready : Bool
  pub trial_pending : Bool
  pub restore_cmds : List Str
  pub cmds : Option (List Str)
  pub ports : List ℕ
  pub peers : List Addr
  pub trusted : List Addr
  pub fresh : Option Str
  pub minted : Option Str
  pub made : Time
  pub stored : Time

-- `fwPlanTTL` in nanoseconds
abbrev pub plan_ttl : ℕ
plan_ttl = 600 * 10 ^ 9

-- The view: a note, a refusal, or the confirm screen.
pub data PlanView : Type 0 where
  plan_note refused_outright : PlanView
  refused_for : Refusal → PlanView
  confirm : PlanReq → PlanView

-- The view, the pending plans, and the titles that were audited as denied.
pub record Planning : Type 0 where
  pub view : PlanView
  pub plans : Plans
  pub denied : List Str

abbrev pub noted : Plans → Planning
noted s = record { view = plan_note; plans = s; denied = [] }

abbrev pub denied_for : Plans → PlanView → Str → Planning
denied_for s view title = record { view = view; plans = s; denied = title ∷ [] }

abbrev pub commands_of : BuiltPlan → Answers → Option (List Str)
commands_of b a = if b.restore == [] then a.cmds else some a.restore_cmds

abbrev pub confirmed_plan : PlanReq → Option Plans → Option Planning
confirmed_plan req none = none
confirmed_plan req (some s) = some (record { view = confirm req; plans = s; denied = [] })

module _ (digest : Str → Str) where
  abbrev pub request : Reading → Answers → BuiltPlan → List Str → Str → Str → ℤ → PlanReq
  unfolding fw_gen diff_rows
  request n a b cmds id nonce actor = record {
    id = id;
    title = b.title;
    backend = n.backend;
    plan = b.plan;
    cmds = cmds;
    restore = b.restore;
    base = fw_gen digest n.fw;
    after = b.after;
    diff = diff_rows n.fw b.after;
    check = ssh_check n.fw b.after a.ports a.peers a.trusted;
    actor = actor;
    nonce = nonce;
    expires = a.made + plan_ttl;
  }

  -- The id and the nonce, and then the plan is stored.
  unfoldable pub store_plan : Reading → Answers → BuiltPlan → List Str → ℤ → Plans → Option Planning
  unfolding put_plan
  store_plan n a b cmds actor s = elim a.fresh [
    | none ↦ some (noted s)
    | some id ↦ elim a.minted [
      | none ↦ some (noted s)
      | some nonce ↦
          let req = request n a b cmds id nonce actor in
          confirmed_plan req (put_plan s req a.stored)
    ]
  ]

  unfoldable pub guard_plan : Reading → Answers → BuiltPlan → List Str → ℤ → Plans → Option Planning
  unfolding ssh_guard store_plan
  guard_plan n a b cmds actor s = elim (ssh_guard n.fw b.after a.ports a.peers) [
    | some why ↦ some (denied_for s (refused_for why) b.title)
    | none ↦ store_plan n a b cmds actor s
  ]

  unfoldable pub plan_built : Reading → Answers → Str → BuildResult → ℤ → Plans → Option Planning
  unfolding guard_plan
  plan_built n a title (built b) actor s = elim (commands_of b a) [
    | none ↦ some (noted s)
    | some cmds ↦ guard_plan n a b cmds actor s
  ]
  plan_built n a title (unbuilt outgoing_rule) actor s = some (denied_for s refused_outright title)
  plan_built n a title (unbuilt _) actor s = some (noted s)

  -- `planFor`, with what `build` makes of the reading and the title that it has then
  unfoldable pub plan_for : Reading → Answers → Str → BuildResult → ℤ → Plans → Option Planning
  unfolding plan_built
  plan_for n a title result actor s =
      if n.unread || n.conflict || not a.ready || a.trial_pending
      then some (noted s)
      else plan_built n a title result actor s

-- What the trial's `prepare` gives.
pub data Prep : Type 0 where
  rules_changed snapshot_unread : Prep
  prep_refused : Refusal → Prep
  prepared : List Change → Prep

-- The pending plan that a confirmed press runs: it is gone, or it is prepared.
pub data RunStart : Type 0 where
  plan_expired : RunStart
  starts_trial : Prep → RunStart

abbrev pub guarded : Option Refusal → List Change → Prep
guarded none plan = prepared plan
guarded (some why) plan = prep_refused why

module _ (net : NetText) (digest : Str → Str) where
  unfoldable pub after_plan : PlanReq → Status → Bool → Status
  unfolding simulate
  after_plan req fw v6 = if req.restore == [] then simulate net fw req.plan v6 else req.after

  -- `prepare`: the backend and the rules now, whether the snapshot of a restore loads, and the SSH ports
  -- and the peers now
  unfoldable pub prepare : PlanReq → Reading → Bool → List ℕ → List Addr → Prep
  unfolding ssh_guard fw_gen after_plan
  prepare req n loads ports peers =
      if not (n.backend == req.backend) || not (fw_gen digest n.fw == req.base)
      then rules_changed
      else if not (req.restore == []) && not loads
      then snapshot_unread
      else guarded (ssh_guard n.fw (after_plan req n.fw n.v6) ports peers) req.plan

  unfoldable pub run_plan :
      Plans → Str → Time → Reading → Bool → List ℕ → List Addr → RunStart × Plans
  unfolding prepare take_plan
  run_plan s id now n loads ports peers =
      let (taken, s') = take_plan s id now in
      elim taken [
        | none ↦ (plan_expired, s')
        | some req ↦ (starts_trial (prepare req n loads ports peers), s')
      ]

module _ (net : NetText) where
  abbrev pub built_specs : Str → Status → Bool → PlanResult → BuildResult
  unfolding simulate
  built_specs title st v6 (planned plan) =
      built (record { title = title; plan = plan; restore = []; after = simulate net st plan v6 })
  built_specs title st v6 _ = unbuilt cannot_plan

  -- `specsBuild`
  unfoldable pub specs_build : Str → List FwSpec → Reading → BuildResult
  unfolding plan_specs simulate
  specs_build title specs n = built_specs title n.fw n.v6 (plan_specs net n.added n.fw specs n.v6)
