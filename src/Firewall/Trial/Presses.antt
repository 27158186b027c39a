-- ===== src/Firewall/Trial/Presses.antt =====
-- internal/agent/fwdeadman.go: how a trial ends, by a press, by layer 2, at startup, or from the timer of
-- systemd.
use statixagent.Prelude.{
  Bool, true, not, ◌&&◌, ◌||◌, Option, none, some, [], ◌∷◌, ◌==◌, str_eq, if◌then◌else◌,
}
use statixagent.Prelude.Text.{Str}
use statixagent.Prelude.Time.{before}
use statixagent.Prelude.Int.{pos, int_eq}
use statixagent.Firewall.Trial.{
  TrialRecord, Host, is_edited, Live, committed, Loaded, no_file, load_failed, loaded, load_trial,
  is_trial_id, St, trial_backend, remove_trial, stop_layer1,
}
use statixagent.Firewall.Trial.Conns.{is_new_conn, prune_snapshots}
use statixagent.Firewall.Trial.Rollback.{Rolled, is_ok, stop_timers, rollback_locked}
use statixagent.Firewall.Trial.Timers.{mint_trial_kb, arm_trial}

pub data Kept : Type 0 where
  trial_gone keep_lock_failed no_new_ssh commit_failed unlink_failed kept : Kept

pub data Undone : Type 0 where
  undo_gone undo_lock_failed : Undone
  undone : Rolled → Undone

-- How the command of the systemd timer ended.
pub data RollbackExit : Type 0 where
  invalid_id not_configured exit_lock_failed exit_unreadable already_ended : RollbackExit
  rolled_out still_pending : Rolled → RollbackExit

module _ {W : Type 0} (h : Host W) where
  -- `newSSHSeen`
  unfoldable pub new_ssh_seen : TrialRecord → W → W × Bool
  unfolding is_new_conn
  new_ssh_seen rec w =
      let (w1, ports) = h.read_ports w in
      let (w2, conns) = h.conns ports w1 in (w2, is_new_conn h.key_of rec.baseline conns)

  -- The Keep token is spent: fresh buttons.
  unfoldable pub fresh_buttons : TrialRecord → St W → St W
  unfolding mint_trial_kb
  fresh_buttons rec st = elim st.live [
    | none ↦ st
    | some live ↦
        if not (live.id == rec.id)
        then st
        else (let (w, kb, nonces) = mint_trial_kb h rec st.world in
            record st { world = w; live = some (record live { kb = kb; nonces = nonces }) })
  ]

  unfoldable pub unlink_kept : TrialRecord → St W → St W × Kept
  unfolding remove_trial stop_timers
  unlink_kept rec st =
      let (st', ok) = remove_trial h st in
      if ok then (stop_timers h rec.id st', kept) else (st', unlink_failed)

  -- Stop the timer, commit, end the trial.
  unfoldable pub commit_trial : TrialRecord → St W → St W × Kept
  unfolding unlink_kept stop_layer1
  commit_trial rec st =
      let stopped = stop_layer1 h rec st in
      let (w, ok) = (trial_backend h rec).commit rec.plan stopped.world in
      if ok
      then unlink_kept rec (record stopped { world = w; calls = committed rec.id ∷ stopped.calls })
      else (record stopped { world = w }, commit_failed)

  unfoldable pub keep_seen : TrialRecord → Bool → St W → St W × Kept
  unfolding commit_trial fresh_buttons
  keep_seen rec seen st =
      if rec.evidence && not seen then (fresh_buttons rec st, no_new_ssh) else commit_trial rec st

  -- The evidence is looked for when the trial needs it.
  unfoldable pub seen_if_needed : TrialRecord → W → W × Bool
  unfolding new_ssh_seen
  seen_if_needed rec w = if rec.evidence then new_ssh_seen rec w else (w, true)

  unfoldable pub keep_loaded : Str → Loaded → St W → St W × Kept
  unfolding keep_seen seen_if_needed
  keep_loaded id (loaded rec) st =
      if not (rec.id == id)
      then (st, trial_gone)
      else (let (w, seen) = seen_if_needed rec st.world in
          keep_seen rec seen (record st { world = w }))
  keep_loaded id _ st = (st, trial_gone)

  -- `keepTrial`
  unfoldable pub keep_trial : Str → St W → St W × Kept
  unfolding keep_loaded load_trial
  keep_trial id st =
      let (w, ok) = h.lock st.world in
      let locked = record st { world = w } in
      if not h.ready
      then (st, trial_gone)
      else if not ok
      then (locked, keep_lock_failed)
      else keep_loaded id (load_trial st.current) locked

  abbrev pub undone_of : St W × Rolled → St W × Undone
  undone_of (st, out) = (st, undone out)

  unfoldable pub undo_loaded : Str → Loaded → St W → St W × Undone
  unfolding rollback_locked
  undo_loaded id (loaded rec) st =
      if not (rec.id == id) then (st, undo_gone) else undone_of (rollback_locked h rec st)
  undo_loaded id _ st = (st, undo_gone)

  -- `rollbackTrial`
  unfoldable pub rollback_trial : Str → St W → St W × Undone
  unfolding undo_loaded load_trial
  rollback_trial id st =
      let (w, ok) = h.lock st.world in
      let locked = record st { world = w } in
      if not h.ready
      then (st, undo_gone)
      else if not ok
      then (locked, undo_lock_failed)
      else undo_loaded id (load_trial st.current) locked

  abbrev pub notify_new : TrialRecord → W → W
  notify_new rec w = (h.send rec.chat_id w).0

  -- `notifyTrial`: the trial's message, or a new one
  unfoldable pub notify_trial : TrialRecord → W → W
  notify_trial rec w =
      let (w', answer) = h.edit rec.chat_id rec.msg_id w in
      if not h.has_sender || rec.chat_id == pos 0
      then w
      else if rec.msg_id == pos 0
      then notify_new rec w
      else if is_edited answer
      then w'
      else notify_new rec w'

  unfoldable pub tell : TrialRecord → St W × Rolled → St W × Rolled
  unfolding notify_trial
  tell rec (st, out) =
      (record st { world = notify_trial rec (h.audit rec.id (is_ok out) st.world) }, out)

  -- `finishAuto`, with how the rollback went, which the audit and the chat are told
  unfoldable pub finish_auto : TrialRecord → St W → St W × Rolled
  unfolding rollback_locked tell
  finish_auto rec st = tell rec (rollback_locked h rec st)

  abbrev pub tried : St W × Rolled → St W × Option Rolled
  tried (st, out) = (st, some out)

  abbrev pub not_tried : St W → St W × Option Rolled
  not_tried st = (st, none)

  unfoldable pub auto_loaded : Str → Loaded → St W → St W × Option Rolled
  unfolding finish_auto stop_timers
  auto_loaded id (loaded rec) st =
      if not (rec.id == id) then not_tried (stop_timers h id st) else tried (finish_auto rec st)
  auto_loaded id _ st = not_tried (stop_timers h id st)

  -- `autoRollback`: layer 2, with how the rollback went, if one was tried
  unfoldable pub auto_rollback : Str → St W → St W × Option Rolled
  unfolding auto_loaded load_trial
  auto_rollback id st =
      let (w, ok) = h.lock st.world in
      let locked = record st { world = w } in
      if not ok then not_tried locked else auto_loaded id (load_trial st.current) locked

  abbrev pub resume_countdown : TrialRecord → St W → St W
  resume_countdown rec st =
      if h.has_sender && not (rec.chat_id == pos 0) && not (rec.msg_id == pos 0)
      then record st { world = (h.edit rec.chat_id rec.msg_id st.world).0 }
      else st

  unfoldable pub reconcile_loaded : Loaded → St W → St W × Option Rolled
  unfolding finish_auto arm_trial
  reconcile_loaded (loaded rec) st =
      if not (before (h.now st.world) rec.deadline)
      then tried (finish_auto rec st)
      else not_tried (resume_countdown rec (arm_trial h rec st))
  reconcile_loaded _ st = not_tried st

  -- The old snapshots go when the file could be read.
  unfoldable pub prune_loaded : Loaded → St W → St W
  unfolding prune_snapshots
  prune_loaded (loaded rec) st = prune_snapshots h rec.id st
  prune_loaded no_file st = prune_snapshots h [] st
  prune_loaded load_failed st = st

  -- `reconcileFwTrial`: layer 3, at startup
  unfoldable pub reconcile : St W → St W × Option Rolled
  unfolding reconcile_loaded prune_loaded load_trial
  reconcile st =
      let (w, ok) = h.lock st.world in
      let locked = record st { world = w } in
      if not h.ready
      then not_tried st
      else if not ok
      then not_tried locked
      else reconcile_loaded (load_trial st.current) (prune_loaded (load_trial st.current) locked)

  abbrev pub exit_of : Loaded → Rolled → RollbackExit
  exit_of (loaded rec) out = still_pending out
  exit_of _ out = rolled_out out

  unfoldable pub finish_exit : St W × Rolled → St W × RollbackExit
  unfolding load_trial
  finish_exit (st, out) = (st, exit_of (load_trial st.current) out)

  unfoldable pub run_loaded : Str → Loaded → St W → St W × RollbackExit
  unfolding finish_auto
  run_loaded id no_file st = (st, already_ended)
  run_loaded id load_failed st = (st, exit_unreadable)
  run_loaded id (loaded rec) st =
      if not (rec.id == id) then (st, already_ended) else finish_exit (finish_auto rec st)

  abbrev pub back_in_agent : Option Live → St W × RollbackExit → St W × RollbackExit
  back_in_agent live (st, exit) = (record st { live = live }, exit)

  -- `RunFwRollback`: in a process of its own, whose agent has no timers; those of the state stay.
  unfoldable pub run_fw_rollback : Str → St W → St W × RollbackExit
  unfolding run_loaded load_trial is_trial_id
  run_fw_rollback id st =
      let (w, ok) = h.lock st.world in
      if not (is_trial_id id)
      then (st, invalid_id)
      else if not h.ready
      then (st, not_configured)
      else if not ok
      then (record st { world = w }, exit_lock_failed)
      else back_in_agent st.live
          (run_loaded id (load_trial st.current) (record st { world = w; live = none }))
