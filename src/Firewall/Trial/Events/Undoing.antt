-- ===== src/Firewall/Trial/Events/Undoing.antt =====
-- A rollback either goes well or leaves the trial on disk.
use statixagent.Prelude.{
  ◌≡◌, refl, ◌∙◌, ◌⊎◌, inl, inr, true, not, none, [], ◌==◌, str_eq, arith, if◌then◌else◌, if-both,
}
use statixagent.Prelude.Text.{Str}
use statixagent.Prelude.Time.{before}
use statixagent.Firewall.Trial.{
  TrialRecord, Host, Loaded, no_file, load_failed, loaded, load_trial, is_trial_id, St,
}
use statixagent.Firewall.Trial.Rollback.{Rolled, is_ok, stop_timers, rollback_locked}
use statixagent.Firewall.Trial.Frames.{Same, Tried, stop_timers-Same, rollback_locked-Tried}
use statixagent.Firewall.Trial.Timers.{arm_trial}
use statixagent.Firewall.Trial.Presses.{
  Undone, undo_gone, undo_lock_failed, RollbackExit, invalid_id, not_configured, exit_lock_failed,
  already_ended, undo_loaded, undone_of, rollback_trial, tell, finish_auto, tried, not_tried,
  auto_loaded, auto_rollback, resume_countdown, reconcile_loaded, run_loaded, finish_exit, exit_of,
  back_in_agent, run_fw_rollback,
}
use statixagent.Firewall.Trial.Events.{rolls, rolled_by, rolled_at, ends}
use statixagent.Firewall.Trial.Events.Stays.{UndoneOrSame, Tried-Undone, lock_st}

abbrev PressOrSame : {W : Type 0} → St W → St W × Undone → Type 0
PressOrSame st r = (ends (rolls (rolled_by r.1)) ≡ true) ⊎ Same st r.0

abbrev ExitOrSame : {W : Type 0} → St W → St W × RollbackExit → Type 0
ExitOrSame st r = (ends (rolls (rolled_at r.1)) ≡ true) ⊎ Same st r.0

exit_of-ends :
    {W : Type 0} (h : Host W) (l : Loaded) (out : Rolled)
    → ends (rolls (rolled_at (exit_of h l out))) ≡ is_ok out
exit_of-ends h no_file out = refl
exit_of-ends h load_failed out = refl
exit_of-ends h (loaded rec) out = refl

module _ {W : Type 0} (h : Host W) where
  undo_loaded-PressOrSame :
      (id : Str) (l : Loaded) (st : St W) → PressOrSame st (undo_loaded h id l st)
  unfolding undo_loaded
  undo_loaded-PressOrSame id no_file st = inr (refl, refl)
  undo_loaded-PressOrSame id load_failed st = inr (refl, refl)
  undo_loaded-PressOrSame id (loaded rec) st =
      if-both (PressOrSame st) (not (rec.id == id)) (st, undo_gone)
        (undone_of h (rollback_locked h rec st)) (inr (refl, refl))
        (Tried-Undone st (rollback_locked h rec st) (rollback_locked-Tried h rec st))

  pub rollback_trial-PressOrSame : (id : Str) (st : St W) → PressOrSame st (rollback_trial h id st)
  unfolding rollback_trial
  rollback_trial-PressOrSame id st =
      let run = undo_loaded h id (load_trial st.current) (lock_st h st) in
      if-both (PressOrSame st) (not h.ready) (st, undo_gone)
        (if not (h.lock st.world).1 then (lock_st h st, undo_lock_failed) else run)
        (inr (refl, refl))
        (if-both (PressOrSame st) (not (h.lock st.world).1) (lock_st h st, undo_lock_failed) run
          (inr (refl, refl)) (undo_loaded-PressOrSame id (load_trial st.current) (lock_st h st)))

  -- The audit and the chat change neither file.
  tell-Tried :
      (rec : TrialRecord) (st : St W) (r : St W × Rolled) → Tried st r → Tried st (tell h rec r)
  unfolding tell
  tell-Tried rec st r t = t

  finish_auto-Undone :
      (rec : TrialRecord) (st : St W)
      → (is_ok (finish_auto h rec st).1 ≡ true) ⊎ Same st (finish_auto h rec st).0
  unfolding finish_auto
  finish_auto-Undone rec st =
      Tried-Undone st (finish_auto h rec st)
        (tell-Tried rec st (rollback_locked h rec st) (rollback_locked-Tried h rec st))

  auto_loaded-UndoneOrSame :
      (id : Str) (l : Loaded) (st : St W) → UndoneOrSame st (auto_loaded h id l st)
  unfolding auto_loaded
  auto_loaded-UndoneOrSame id no_file st = inr (stop_timers-Same h id st)
  auto_loaded-UndoneOrSame id load_failed st = inr (stop_timers-Same h id st)
  auto_loaded-UndoneOrSame id (loaded rec) st =
      if-both (UndoneOrSame st) (not (rec.id == id)) (not_tried h (stop_timers h id st))
        (tried h (finish_auto h rec st)) (inr (stop_timers-Same h id st))
        (finish_auto-Undone rec st)

  pub auto_rollback-UndoneOrSame : (id : Str) (st : St W) → UndoneOrSame st (auto_rollback h id st)
  unfolding auto_rollback
  auto_rollback-UndoneOrSame id st =
      if-both (UndoneOrSame st) (not (h.lock st.world).1) (not_tried h (lock_st h st))
        (auto_loaded h id (load_trial st.current) (lock_st h st)) (inr (refl, refl))
        (auto_loaded-UndoneOrSame id (load_trial st.current) (lock_st h st))

  arm_trial-Same : (rec : TrialRecord) (st : St W) → Same st (arm_trial h rec st)
  unfolding arm_trial
  arm_trial-Same rec st = stop_timers-Same h [] st

  resume_countdown-Same :
      (rec : TrialRecord) (st st' : St W) → Same st st' → Same st (resume_countdown h rec st')
  resume_countdown-Same rec st st' s = ground (arith, s)

  pub reconcile_loaded-UndoneOrSame :
      (l : Loaded) (st : St W) → UndoneOrSame st (reconcile_loaded h l st)
  unfolding reconcile_loaded
  reconcile_loaded-UndoneOrSame no_file st = inr (refl, refl)
  reconcile_loaded-UndoneOrSame load_failed st = inr (refl, refl)
  reconcile_loaded-UndoneOrSame (loaded rec) st =
      if-both (UndoneOrSame st) (not (before (h.now st.world) rec.deadline))
        (tried h (finish_auto h rec st)) (not_tried h (resume_countdown h rec (arm_trial h rec st)))
        (finish_auto-Undone rec st)
        (inr (resume_countdown-Same rec st (arm_trial h rec st) (arm_trial-Same rec st)))

  finish_exit-ExitOrSame :
      (st : St W) (r : St W × Rolled)
      → (is_ok r.1 ≡ true) ⊎ Same st r.0
      → ExitOrSame st (finish_exit h r)
  unfolding finish_exit
  finish_exit-ExitOrSame st (st', out) (inl ok) =
      inl (exit_of-ends h (load_trial st'.current) out ∙ ok)
  finish_exit-ExitOrSame st (st', out) (inr s) = inr s

  run_loaded-ExitOrSame : (id : Str) (l : Loaded) (st : St W) → ExitOrSame st (run_loaded h id l st)
  unfolding run_loaded
  run_loaded-ExitOrSame id no_file st = inr (refl, refl)
  run_loaded-ExitOrSame id load_failed st = inr (refl, refl)
  run_loaded-ExitOrSame id (loaded rec) st =
      if-both (ExitOrSame st) (not (rec.id == id)) (st, already_ended)
        (finish_exit h (finish_auto h rec st)) (inr (refl, refl))
        (finish_exit-ExitOrSame st (finish_auto h rec st) (finish_auto-Undone rec st))

  pub run_fw_rollback-ExitOrSame : (id : Str) (st : St W) → ExitOrSame st (run_fw_rollback h id st)
  unfolding run_fw_rollback
  run_fw_rollback-ExitOrSame id st =
      let out = record st { world = (h.lock st.world).0; live = none } in
      let run = back_in_agent h st.live (run_loaded h id (load_trial st.current) out) in
      let locked_out = if not (h.lock st.world).1 then (lock_st h st, exit_lock_failed) else run in
      let configured = if not h.ready then (st, not_configured) else locked_out in
      if-both (ExitOrSame st) (not (is_trial_id id)) (st, invalid_id) configured (inr (refl, refl))
        (if-both (ExitOrSame st) (not h.ready) (st, not_configured) locked_out (inr (refl, refl))
          (if-both (ExitOrSame st) (not (h.lock st.world).1) (lock_st h st, exit_lock_failed) run
            (inr (refl, refl)) (run_loaded-ExitOrSame id (load_trial st.current) out)))
