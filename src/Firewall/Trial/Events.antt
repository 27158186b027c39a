-- ===== src/Firewall/Trial/Events.antt =====
-- What can happen to a pending trial, in any order: presses, timers, restarts, and anything outside.
pub mod Stays
pub mod Undoing
pub mod Lasting
pub mod Final
pub mod Keeping
pub mod Trying
use statixagent.Prelude.{ℕ, Bool, true, false, ◌||◌, Option, none, some, List, [], ◌∷◌}
use statixagent.Prelude.Text.{Str}
use statixagent.Prelude.Int.{ℤ}
use statixagent.Tgui.Tokens.{Intent}
use statixagent.Firewall.Trial.{Host, St}
use statixagent.Firewall.Trial.Run.{Job, RunResult, run_apply_failed, run_verify_failed, run_trial}
use statixagent.Firewall.Trial.Rollback.{Rolled, is_ok}
use statixagent.Firewall.Trial.Timers.{rebind_trial, countdown_tick}
use statixagent.Firewall.Trial.Presses.{
  Kept, kept, Undone, undo_gone, undo_lock_failed, undone, RollbackExit, invalid_id, not_configured,
  exit_lock_failed, exit_unreadable, already_ended, rolled_out, still_pending, keep_trial,
  rollback_trial, auto_rollback, reconcile, run_fw_rollback,
}

-- A restart loses the timers of the agent's process; `outside w` is whatever else changes the world.
pub data Event (W : Type 0) : Type 0 where
  press_keep press_rollback layer2 systemd_timer ticks : Str → Event W
  rebinds : Str → ℤ → Event W
  runs : Job W → Intent → Event W
  startup restart : Event W
  outside : W → Event W

pub data Reply : Type 0 where
  keeps : Kept → Reply
  rolls : Option Rolled → Reply

abbrev pub is_kept : Kept → Bool
is_kept kept = true
is_kept _ = false

abbrev pub rolled_by : Undone → Option Rolled
rolled_by (undone out) = some out
rolled_by _ = none

abbrev pub rolled_at : RollbackExit → Option Rolled
rolled_at (rolled_out out) = some out
rolled_at (still_pending out) = some out
rolled_at _ = none

abbrev pub rolled_in : RunResult → Option Rolled
rolled_in (run_apply_failed out) = some out
rolled_in (run_verify_failed out) = some out
rolled_in _ = none

-- A Keep that was accepted, or a rollback that went well.
abbrev pub ends : Reply → Bool
ends (keeps k) = is_kept k
ends (rolls none) = false
ends (rolls (some out)) = is_ok out

module _ {W : Type 0} (h : Host W) where
  unfoldable pub happen : Event W → St W → St W × Reply
  unfolding keep_trial rollback_trial auto_rollback reconcile run_fw_rollback rebind_trial
      countdown_tick run_trial
  happen (press_keep id) st = let (st', k) = keep_trial h id st in (st', keeps k)
  happen (press_rollback id) st =
      let (st', u) = rollback_trial h id st in (st', rolls (rolled_by u))
  happen (layer2 id) st = let (st', out) = auto_rollback h id st in (st', rolls out)
  happen (systemd_timer id) st =
      let (st', exit) = run_fw_rollback h id st in (st', rolls (rolled_at exit))
  happen (ticks id) st = (countdown_tick h id st, rolls none)
  happen (rebinds id msg_id) st = (rebind_trial h id msg_id st, rolls none)
  happen (runs job in_) st =
      let ran = run_trial h job in_ st in (ran.st, rolls (rolled_in ran.result))
  happen startup st = let (st', out) = reconcile h st in (st', rolls out)
  happen restart st = (record st { live = none }, rolls none)
  happen (outside w) st = (record st { world = w }, rolls none)

  unfoldable pub run : List (Event W) → St W → St W
  unfolding happen
  run [] st = st
  run (e ∷ es) st = run es (happen e st).0

  -- Whether one of the events ends a trial.
  unfoldable pub is_over : List (Event W) → St W → Bool
  unfolding happen
  is_over [] st = false
  is_over (e ∷ es) st = ends (happen e st).1 || is_over es (happen e st).0
