-- ===== src/Firewall/Trial/Rollback.antt =====
-- internal/agent/fwdeadman.go: `rollbackLocked` and what it calls.
pub mod Risks
pub mod Reachable
pub mod Ending
use statixagent.Prelude.{
  ℕ, Bool, true, false, not, ◌&&◌, ◌||◌, Option, none, some, List, [], ◌∷◌, ◌==◌, str_eq,
  if◌then◌else◌,
}
use statixagent.Prelude.Text.{Str}
use statixagent.Prelude.Map.{get}
use statixagent.Netip.{Addr}
use statixagent.Firewall.Rules.{Status, verdict, has_v6, reachable}
use statixagent.Firewall.Trial.{
  Probe, manageable, Snap, SshConn, TrialRecord, Backend, Host, FwCall, reverted, restored, Live,
  St, trial_backend, remove_trial, stop_layer1,
}

-- Why SSH is at risk after the plan's own changes were undone.
pub data Risk : Type 0 where
  undo_failed unread_rules : Risk
  blocks_peer : ℕ → Addr → Risk
  stays_closed : ℕ → Risk

-- The first connection that the rules would block.
unfoldable pub blocked_conn : Status → List SshConn → Option Risk
unfolding verdict reachable
blocked_conn fw [] = none
blocked_conn fw (c ∷ conns) =
    let rest = blocked_conn fw conns in
    if reachable (verdict fw c.near.port c.peer.addr.is6 (some c.peer.addr))
    then rest
    else some (blocks_peer c.near.port c.peer.addr)

unfoldable pub is_shut : Status → Status → ℕ → Bool → Bool
unfolding verdict reachable has_v6
is_shut pre fw port v6 =
    if v6 && not (has_v6 pre)
    then false
    else reachable (verdict pre port v6 none) && not (reachable (verdict fw port v6 none))

-- The first port that was reachable before and is not now.
unfoldable pub shut_port : Status → Status → List ℕ → Option Risk
unfolding is_shut
shut_port pre fw [] = none
shut_port pre fw (port ∷ ports) =
    let rest = shut_port pre fw ports in
    if is_shut pre fw port false || is_shut pre fw port true then some (stays_closed port) else rest

abbrev pub first_risk : Option Risk → Option Risk → Option Risk
first_risk none later = later
first_risk (some why) later = some why

-- How a rollback went.
pub data Rolled : Type 0 where
  snapshot_lost already_back restored_all restore_failed own_undone : Rolled
  restored_despite despite_failed : Risk → Rolled

abbrev pub is_ok : Rolled → Bool
is_ok already_back = true
is_ok restored_all = true
is_ok own_undone = true
is_ok (restored_despite why) = true
is_ok _ = false

module _ {W : Type 0} (h : Host W) where
  unfoldable pub lockout_risk : Probe → Snap → Bool → W → W × Option Risk
  unfolding blocked_conn shut_port manageable
  lockout_risk p snap undone w =
      if not undone
      then (w, some undo_failed)
      else if not (manageable p)
      then (w, some unread_rules)
      else (let (w1, ports) = h.read_ports w in
          let (w2, conns) = h.conns ports w1 in
          (w2, first_risk (blocked_conn p.fw conns) (shut_port snap.fw p.fw ports)))

  -- `Restore`, in the state
  abbrev pub restore_snap : Backend W → Str → Snap → St W → St W × Bool
  restore_snap b id snap st =
      let (w, ok) = b.restore snap st.world in
      (record st { world = w; calls = restored id ∷ st.calls }, ok)

  abbrev pub after_risk : Backend W → Str → Snap → Option Risk → St W → St W × Rolled
  after_risk b id snap none st = (st, own_undone)
  after_risk b id snap (some why) st =
      let (st', ok) = restore_snap b id snap st in
      (st', (if ok then restored_despite why else despite_failed why))

  -- `revertForeign`
  unfoldable pub revert_foreign : Backend W → TrialRecord → Snap → St W → St W × Rolled
  unfolding lockout_risk
  revert_foreign b rec snap st =
      let (w1, undone) = b.revert rec.plan st.world in
      let (w2, p) = b.probe w1 in
      let (w3, risk) = lockout_risk p snap undone w2 in
      after_risk b rec.id snap risk (record st { world = w3; calls = reverted rec.id ∷ st.calls })

  abbrev pub restore_back : Backend W → TrialRecord → Snap → St W → St W × Rolled
  restore_back b rec snap st =
      let (st', ok) = restore_snap b rec.id snap st in
      (st', (if ok then restored_all else restore_failed))

  -- What the hash of the rules says is left to do.
  unfoldable pub take_back : Backend W → TrialRecord → Snap → Option Str → St W → St W × Rolled
  unfolding revert_foreign
  take_back b rec snap none st = restore_back b rec snap st
  take_back b rec snap (some cur) st =
      if cur == rec.pre_sha
      then (st, already_back)
      else if not (rec.post_sha == []) && not (cur == rec.post_sha)
      then revert_foreign b rec snap st
      else restore_back b rec snap st

  -- `stopTrialTimers`: of trial `id`, or of any trial for an empty `id`
  unfoldable pub stop_timers : Str → St W → St W
  stop_timers id st = elim st.live [
    | none ↦ st
    | some live ↦ if not (id == []) && not (live.id == id) then st else record st { live = none }
  ]

  -- The end of a rollback that went well: the record is removed last; that it could not be removed is
  -- only logged.
  unfoldable pub end_trial : TrialRecord → St W → St W
  unfolding stop_layer1 stop_timers remove_trial
  end_trial rec st = (remove_trial h (stop_timers rec.id (stop_layer1 h rec st))).0

  unfoldable pub end_if_ok : TrialRecord → St W × Rolled → St W × Rolled
  unfolding end_trial
  end_if_ok rec (st, out) = if is_ok out then (end_trial rec st, out) else (st, out)

  unfoldable pub rollback_snap : TrialRecord → Snap → St W → St W × Rolled
  unfolding take_back end_if_ok
  rollback_snap rec snap st =
      let (w, cur) = (trial_backend h rec).hash st.world in
      end_if_ok rec (take_back (trial_backend h rec) rec snap cur (record st { world = w }))

  -- `rollbackLocked`
  unfoldable pub rollback_locked : TrialRecord → St W → St W × Rolled
  unfolding rollback_snap
  rollback_locked rec st =
      let found =
        if (trial_backend h rec).readable rec.id st.world then get st.snaps rec.id else none in
      elim found [ none ↦ (st, snapshot_lost) | some snap ↦ rollback_snap rec snap st ]
