-- ===== src/Firewall/Trial/Run.antt =====
-- internal/agent/fwdeadman.go: `runTrial`. The states at the ends of its steps, where the program marks
-- them for the crash tests, are kept in order.
pub mod Crash
use statixagent.Prelude.{
  ℕ, ◌+◌, ◌*◌, Bool, true, false, not, ◌&&◌, ◌||◌, Option, none, some, List, [], ◌∷◌, ◌++◌, ◌==◌,
  str_eq, ltb, map, if◌then◌else◌,
}
use statixagent.Prelude.Text.{Str, codes}
use statixagent.Prelude.Time.{Time}
use statixagent.Prelude.Int.{ℤ}
use statixagent.Prelude.Map.{Map, put, del}
use statixagent.Tgui.Tokens.{Intent}
use statixagent.Firewall.Rules.{
  Status, PortState, fw_open, fw_closed, fw_unmanaged, verdict, has_v6,
}
use statixagent.Firewall.Simulate.{Change}
use statixagent.Firewall.SshPlan.{ssh_port_plan}
use statixagent.Firewall.Trial.{
  ProbeState, Probe, manageable, Snap, TrialRecord, Backend, Host, FwCall, applied, Current, Loaded,
  no_file, load_failed, loaded, load_trial, trial_id, St, save_trial, remove_trial, stop_layer1,
  window_seconds, second, no_timer_cap,
}
use statixagent.Firewall.Trial.Conns.{prune_snapshots}
use statixagent.Firewall.Trial.Rollback.{Rolled, rollback_locked}
use statixagent.Firewall.Trial.Timers.{arm_layer1, arm_trial}

-- What `prepare` of a job decided: a plan, or a refusal or a failure.
pub data JobPrep : Type 0 where
  job_plan : List Change → JobPrep
  job_stopped : JobPrep

-- `fwJob`
pub record Job (W : Type 0) : Type 0 where
  pub action : Str
  pub what : Str
  pub evidence : Bool
  pub make_plan : Backend W → Probe → W → W × JobPrep
  pub apply_instead : Option (Backend W → W → W × Bool)
  pub verify : Probe → Probe → W → W × Bool

pub data RunResult : Type 0 where
  run_not_ready run_lock_failed run_pending run_no_backend run_stopped run_no_id run_no_snapshot
        run_not_recorded :
      RunResult
  run_apply_failed run_verify_failed : Rolled → RunResult
  run_on_trial : RunResult

-- The end of a run, with the states at the ends of its steps.
pub record Ran (W : Type 0) : Type 0 where
  pub st : St W
  pub result : RunResult
  pub steps : List (St W)

abbrev pub stopped_at : {W : Type 0} → St W → RunResult → Ran W
stopped_at st r = record { st = st; result = r; steps = [] }

-- A step's end before what follows.
abbrev pub mark : {W : Type 0} → St W → Ran W → Ran W
mark st r = record r { steps = st ∷ r.steps }

abbrev pub rolled_run : {W : Type 0} → (Rolled → RunResult) → St W × Rolled → Ran W
rolled_run why (st, out) = stopped_at st (why out)

module _ {W : Type 0} (h : Host W) (job : Job W) (b : Backend W) (p : Probe) where
  -- 5. Layer 2 and the countdown, or the rollback of a change that was not intended.
  unfoldable pub finish_run : TrialRecord → Bool → St W → Ran W
  unfolding arm_trial rollback_locked
  finish_run rec intended st =
      if intended
      then stopped_at (arm_trial h rec st) run_on_trial
      else rolled_run run_verify_failed (rollback_locked h rec st)

  unfoldable pub verify_run : TrialRecord → Bool → St W → Ran W
  unfolding finish_run rollback_locked
  verify_run rec applied_ok st =
      let (w1, after) = b.probe st.world in
      let (w2, intended) = job.verify p after w1 in
      if not applied_ok
      then rolled_run run_apply_failed (rollback_locked h rec st)
      else finish_run rec intended (record st { world = w2 })

  -- The hash of the rules after the change; that it could not be saved is only logged.
  unfoldable pub post_run : TrialRecord → Bool → Option Str → St W → Ran W
  unfolding verify_run save_trial
  post_run rec applied_ok none st = mark st (verify_run rec applied_ok st)
  post_run rec applied_ok (some post) st =
      let rec' = record rec { post_sha = post } in
      let st' = (save_trial h rec' st).0 in mark st' (verify_run rec' applied_ok st')

  abbrev pub apply_job : List Change → W → W × Bool
  apply_job plan w = elim job.apply_instead [ none ↦ b.apply plan w | some act ↦ act b w ]

  -- 4. Apply, and record what the rules look like now.
  unfoldable pub apply_run : TrialRecord → St W → Ran W
  unfolding post_run
  apply_run rec st =
      let (w1, ok) = apply_job rec.plan st.world in
      let (w2, post) = b.hash w1 in
      let calls = applied rec.id ∷ st.calls in
      mark (record st { world = w1; calls = calls })
        (post_run rec ok post (record st { world = w2; calls = calls }))

  abbrev pub baseline_of : TrialRecord → W → W × List Str
  baseline_of rec w =
      let (w1, ports) = h.read_ports w in
      let (w2, conns) = h.conns ports w1 in
      if rec.evidence then (w2, map h.key_of conns) else (w, [])

  -- 3. The record again, with layer 1 and the baseline.
  unfoldable pub record_again : TrialRecord → St W → Ran W
  unfolding apply_run save_trial remove_trial stop_layer1
  record_again rec st =
      let (st', ok) = save_trial h rec st in
      if ok
      then mark st' (apply_run rec st')
      else stopped_at (remove_trial h (stop_layer1 h rec st')).0 run_not_recorded

  abbrev pub arm_record : TrialRecord → Time → ℕ → Bool → TrialRecord
  arm_record rec start n armed = record rec {
    layer1 = armed;
    deadline = if not armed && ltb no_timer_cap n then start + no_timer_cap else rec.deadline;
  }

  unfoldable pub layer1_run : TrialRecord → Time → ℕ → St W → Ran W
  unfolding record_again arm_layer1
  layer1_run rec start n st =
      let (w1, armed) = arm_layer1 h rec.id n st.world in
      let rec1 = arm_record rec start n armed in
      let (w2, baseline) = baseline_of rec1 w1 in
      record_again (record rec1 { baseline = baseline }) (record st { world = w2 })

  unfoldable pub new_record : Intent → Str → List Change → Str → Time → TrialRecord
  unfolding window_seconds
  new_record in_ id plan sha start = record {
    id = id;
    backend = b.name;
    bin = b.bin;
    zone = b.zone;
    action = job.action;
    deadline = start + window_seconds h * second;
    pre_sha = sha;
    post_sha = [];
    chat_id = in_.chat_id;
    msg_id = in_.message_id;
    actor_id = in_.actor_id;
    plan = plan;
    what = job.what;
    layer1 = false;
    evidence = job.evidence;
    baseline = [];
  }

  -- 2. The record; without it the snapshot goes again.
  unfoldable pub record_run : TrialRecord → Time → St W → Ran W
  unfolding layer1_run save_trial
  record_run rec start st =
      let (st', ok) = save_trial h rec st in
      if ok
      then mark st' (layer1_run rec start (window_seconds h * second) st')
      else stopped_at (record st' { snaps = del st'.snaps rec.id }) run_not_recorded

  unfoldable pub snapshot_taken : Intent → Str → List Change → Option Snap → St W → Ran W
  unfolding record_run
  snapshot_taken in_ id plan none st =
      stopped_at (record st { snaps = del st.snaps id }) run_no_snapshot
  snapshot_taken in_ id plan (some snap) st =
      let st' = record st { snaps = put st.snaps id snap } in
      let start = h.now st.world in
      mark st' (record_run (new_record in_ id plan snap.sha start) start st')

  -- 1. The snapshot.
  unfoldable pub snapshot_run : Intent → List Change → St W → Ran W
  unfolding snapshot_taken
  snapshot_run in_ plan st =
      let (w1, id) = h.random32 st.world in
      elim id [
        | none ↦ stopped_at (record st { world = w1 }) run_no_id
        | some n ↦
            let (w2, snap) = b.snapshot (trial_id n) w1 in
            snapshot_taken in_ (trial_id n) plan snap (record st { world = w2 })
      ]

  unfoldable pub prepared_run : Intent → JobPrep → St W → Ran W
  unfolding snapshot_run
  prepared_run in_ job_stopped st = stopped_at st run_stopped
  prepared_run in_ (job_plan plan) st = snapshot_run in_ plan st

  unfoldable pub prepare_run : Intent → St W → Ran W
  unfolding prepared_run
  prepare_run in_ st =
      let (w, prep) = job.make_plan b p st.world in prepared_run in_ prep (record st { world = w })

module _ {W : Type 0} (h : Host W) (job : Job W) where
  unfoldable pub detect_run : Intent → St W → Ran W
  unfolding prepare_run
  detect_run in_ st =
      let (w, found) = h.detect st.world in
      elim found [
        | none ↦ stopped_at (record st { world = w }) run_no_backend
        | some (b, p) ↦ prepare_run h job b p in_ (record st { world = w })
      ]

  -- A run starts when no trial is pending.
  unfoldable pub start_run : Intent → Loaded → St W → Ran W
  unfolding detect_run prune_snapshots
  start_run in_ no_file st = detect_run in_ (prune_snapshots h [] st)
  start_run in_ _ st = stopped_at st run_pending

  -- `runTrial`
  unfoldable pub run_trial : Intent → St W → Ran W
  unfolding start_run load_trial
  run_trial in_ st =
      let (w, ok) = h.lock st.world in
      let locked = record st { world = w } in
      if not h.ready
      then stopped_at st run_not_ready
      else if not ok
      then stopped_at locked run_lock_failed
      else start_run in_ (load_trial st.current) locked

abbrev pub is_state : PortState → PortState → Bool
is_state fw_open fw_open = true
is_state fw_closed fw_closed = true
is_state fw_unmanaged fw_unmanaged = true
is_state _ _ = false

-- `verifySSHPort`, without its text
unfoldable pub verify_family : Status → PortState → Bool → Bool
unfolding verdict has_v6
verify_family fw want v6 = v6 && not (has_v6 fw) || is_state (verdict fw 22 v6 none).state want

unfoldable pub verify_ssh_port : Probe → Bool → Bool
unfolding manageable verify_family
verify_ssh_port p open_it =
    let want = if open_it then fw_open else fw_closed in
    manageable p && verify_family p.fw want false && verify_family p.fw want true
