-- ===== src/Firewall/Trial/Events/Final.antt =====
-- After a trial was kept.
use statixagent.Prelude.{
  ◌≡◌, sym, ap, inl, inr, Bool, true, false, not, ◌&&◌, Option, none, some, List, [], ◌∷◌, ◌==◌,
  str_eq, Option-cases, arith, if-both,
}
use mathlib.Core.Path.{subst}
use statixagent.Prelude.Text.{Str}
use statixagent.Prelude.Int.{ℤ}
use statixagent.Firewall.Trial.{
  Host, FwCall, Current, no_trial, Live, Loaded, no_file, load_trial, is_trial_id, St,
}
use statixagent.Firewall.Trial.Conns.{prune_snapshots}
use statixagent.Firewall.Trial.Rollback.{Rolled, stop_timers}
use statixagent.Firewall.Trial.Timers.{
  rebind_record, rebind_trial, tick_record, tick_live, countdown_tick,
}
use statixagent.Firewall.Trial.Presses.{
  Kept, trial_gone, keep_lock_failed, Undone, undo_gone, undo_lock_failed, RollbackExit,
  not_configured, invalid_id, exit_lock_failed, back_in_agent, not_tried, keep_trial, keep_loaded,
  rollback_trial, undo_loaded, auto_loaded, auto_rollback, reconcile_loaded, prune_loaded,
  reconcile, run_loaded, run_fw_rollback,
}
use statixagent.Firewall.Trial.Events.{
  Event, press_keep, press_rollback, layer2, systemd_timer, ticks, rebinds, runs, startup, restart,
  outside, happen, run,
}
use statixagent.Firewall.Trial.Events.Stays.{lock_st}

-- There is no trial, and what was called is `calls`.
abbrev pub Over : {W : Type 0} → List FwCall → St W → Type 0
Over calls st = (st.current ≡ no_trial) × (st.calls ≡ calls)

-- No event starts a change.
abbrev pub no_runs : {W : Type 0} → List (Event W) → Bool
no_runs [] = true
no_runs (runs job in_ ∷ es) = false
no_runs (e ∷ es) = no_runs es

load_trial-no_trial : (c : Current) → c ≡ no_trial → load_trial c ≡ no_file
unfolding load_trial
load_trial-no_trial c e = ap load_trial e

module _ {W : Type 0} (h : Host W) (calls : List FwCall) where
  stop_timers-Over : (id : Str) (st : St W) → Over calls st → Over calls (stop_timers h id st)
  unfolding stop_timers
  stop_timers-Over id st o = elim (Option-cases st.live) [
    | inl gone ↦ rw (stop_timers, gone) o
    | inr (live, there) ↦
        rw (stop_timers, there)
          (if-both (Over calls) (not (id == []) && not (live.id == id)) st _ o o)
  ]

  -- What an operation does under the lock, when there is no file.
  lock-Over :
      {A : Type 0} (act : Loaded → A) (P : A → Type 0) (st : St W)
      → Over calls st
      → P (act no_file)
      → P (act (load_trial st.current))
  lock-Over act P st o p = subst (λ l. P (act l)) (sym (load_trial-no_trial st.current o.0)) p

  keep_trial-Over : (id : Str) (st : St W) → Over calls st → Over calls (keep_trial h id st).0
  unfolding keep_trial keep_loaded
  keep_trial-Over id st o =
      let st1 = lock_st h st in
      if-both (λ (r : St W × Kept). Over calls r.0) (not h.ready) (st, trial_gone) _ o
        (if-both (λ (r : St W × Kept). Over calls r.0) (not (h.lock st.world).1)
          (st1, keep_lock_failed) _ o
          (lock-Over (λ l. keep_loaded h id l st1) (λ r. Over calls r.0) st o o))

  rollback_trial-Over :
      (id : Str) (st : St W) → Over calls st → Over calls (rollback_trial h id st).0
  unfolding rollback_trial undo_loaded
  rollback_trial-Over id st o =
      let st1 = lock_st h st in
      if-both (λ (r : St W × Undone). Over calls r.0) (not h.ready) (st, undo_gone) _ o
        (if-both (λ (r : St W × Undone). Over calls r.0) (not (h.lock st.world).1)
          (st1, undo_lock_failed) _ o
          (lock-Over (λ l. undo_loaded h id l st1) (λ r. Over calls r.0) st o o))

  auto_rollback-Over : (id : Str) (st : St W) → Over calls st → Over calls (auto_rollback h id st).0
  unfolding auto_rollback auto_loaded
  auto_rollback-Over id st o =
      let st1 = lock_st h st in
      if-both (λ (r : St W × Option Rolled). Over calls r.0) (not (h.lock st.world).1)
        (not_tried h st1) _ o
        (lock-Over (λ l. auto_loaded h id l st1) (λ r. Over calls r.0) st o
          (stop_timers-Over id st1 o))

  run_fw_rollback-Over :
      (id : Str) (st : St W) → Over calls st → Over calls (run_fw_rollback h id st).0
  unfolding run_fw_rollback run_loaded
  run_fw_rollback-Over id st o =
      let P = λ (r : St W × RollbackExit). Over calls r.0 in
      let out = record st { world = (h.lock st.world).0; live = none } in
      if-both P (not (is_trial_id id)) (st, invalid_id) _ o
        (if-both P (not h.ready) (st, not_configured) _ o
          (if-both P (not (h.lock st.world).1) (lock_st h st, exit_lock_failed) _ o
            (lock-Over (λ l. back_in_agent h st.live (run_loaded h id l out)) P st o o)))

  reconcile-Over : (st : St W) → Over calls st → Over calls (reconcile h st).0
  unfolding reconcile reconcile_loaded prune_loaded prune_snapshots
  reconcile-Over st o =
      let P = λ (r : St W × Option Rolled). Over calls r.0 in
      if-both P (not h.ready) (not_tried h st) _ o (
        if-both P (not (h.lock st.world).1) (not_tried h (lock_st h st)) _ o
          (lock-Over (λ l. reconcile_loaded h l (prune_loaded h l (lock_st h st))) P st o o))

  rebind_trial-Over :
      (id : Str) (m : ℤ) (st : St W) → Over calls st → Over calls (rebind_trial h id m st)
  unfolding rebind_trial rebind_record
  rebind_trial-Over id m st o =
      if-both (Over calls) (h.lock st.world).1 _ (lock_st h st)
        (lock-Over (λ l. rebind_record h id m l (lock_st h st)) (Over calls) st o o) o

  tick_live-Over :
      (id : Str) (live : Option Live) (st : St W)
      → Over calls st
      → Over calls (tick_live h id live st)
  unfolding tick_live
  tick_live-Over id none st o = o
  tick_live-Over id (some live) st o =
      let fired = record live { ticking = false } in
      let st1 = record st { live = some fired } in
      if-both (Over calls) (not (live.id == id)) st _ o
        (lock-Over (λ l. tick_record h id fired l st1) (Over calls) st o o)

  countdown_tick-Over : (id : Str) (st : St W) → Over calls st → Over calls (countdown_tick h id st)
  unfolding countdown_tick
  countdown_tick-Over id st o =
      if-both (Over calls) (h.lock st.world).1 _ (lock_st h st)
        (tick_live-Over id st.live (lock_st h st) o) o

  pub run-Over :
      (es : List (Event W)) (st : St W)
      → no_runs es ≡ true
      → Over calls st
      → Over calls (run h es st)
  unfolding run happen
  run-Over [] st quiet o = o
  run-Over (press_keep id ∷ es) st quiet o =
      run-Over es (keep_trial h id st).0 quiet (keep_trial-Over id st o)
  run-Over (press_rollback id ∷ es) st quiet o =
      run-Over es (rollback_trial h id st).0 quiet (rollback_trial-Over id st o)
  run-Over (layer2 id ∷ es) st quiet o =
      run-Over es (auto_rollback h id st).0 quiet (auto_rollback-Over id st o)
  run-Over (systemd_timer id ∷ es) st quiet o =
      run-Over es (run_fw_rollback h id st).0 quiet (run_fw_rollback-Over id st o)
  run-Over (ticks id ∷ es) st quiet o =
      run-Over es (countdown_tick h id st) quiet (countdown_tick-Over id st o)
  run-Over (rebinds id m ∷ es) st quiet o =
      run-Over es (rebind_trial h id m st) quiet (rebind_trial-Over id m st o)
  run-Over (runs job in_ ∷ es) st quiet o = ground (arith, quiet)
  run-Over (startup ∷ es) st quiet o = run-Over es (reconcile h st).0 quiet (reconcile-Over st o)
  run-Over (restart ∷ es) st quiet o = run-Over es (record st { live = none }) quiet o
  run-Over (outside w ∷ es) st quiet o = run-Over es (record st { world = w }) quiet o
