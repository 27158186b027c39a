-- ===== src/Firewall/Trial/Events/Lasting.antt =====
-- A trial and its snapshot through the events that may come.
use statixagent.Prelude.{
  ℕ, ◌+◌, ◌≡◌, refl, ◌∙◌, sym, ap, ◌⊎◌, inl, inr, true, false, not, Option, none, some, List, [],
  ◌∷◌, ◌==◌, ==_iff, str_eq, mem?, Bool-cases, Option-cases, arith, if◌then◌else◌, if-both,
}
use mathlib.Core.Path.{subst}
use statixagent.Prelude.Text.{Str}
use statixagent.Prelude.Time.{Time}
use statixagent.Prelude.Int.{ℤ}
use statixagent.Prelude.Map.{Map, get, del, get-del}
use statixagent.Firewall.Trial.{
  SnapInfo, Snap, TrialRecord, Host, trial, Live, Loaded, no_file, load_failed, loaded, load_trial,
  is_trial_id, St, save_trial,
}
use statixagent.Firewall.Trial.Conns.{pruned, sort_snaps, del_all, prune_snapshots}
use statixagent.Firewall.Trial.Rollback.{Rolled}
use statixagent.Firewall.Trial.Frames.{Same}
use statixagent.Firewall.Trial.Timers.{
  rebind_live, rebind_record, rebind_trial, tick_record, tick_live, countdown_tick, edit_countdown,
}
use statixagent.Firewall.Trial.Presses.{
  keep_trial, rollback_trial, auto_rollback, reconcile_loaded, prune_loaded, reconcile,
  run_fw_rollback, not_tried,
}
use statixagent.Tgui.Tokens.{Intent}
use statixagent.Firewall.Trial.Run.{
  Job, Ran, stopped_at, run_not_ready, run_lock_failed, start_run, run_trial,
}
use statixagent.Firewall.Trial.Events.{
  Event, press_keep, press_rollback, layer2, systemd_timer, ticks, rebinds, runs, startup, restart,
  outside, Reply, rolls, ends, happen, run, is_over,
}
use statixagent.Firewall.Trial.Events.Stays.{Held, Same-Held, keep_trial-KeptOrSame, lock_st}
use statixagent.Firewall.Trial.Events.Undoing.{
  rollback_trial-PressOrSame, auto_rollback-UndoneOrSame, reconcile_loaded-UndoneOrSame,
  run_fw_rollback-ExitOrSame,
}

-- The snapshot that is kept is not removed.
pub pruned-keep :
    (now : Time) (keep : Str) (i : ℕ) (snaps : List SnapInfo)
    → mem? keep (pruned now keep i snaps) ≡ false
unfolding pruned
pruned-keep now keep i [] = refl
pruned-keep now keep i (s ∷ snaps) =
    ground (arith, pruned-keep now keep (i + 1) snaps, ==_iff s.id keep)

pub get-del_all :
    (ids : List Str) (m : Map Str Snap) (id : Str)
    → mem? id ids ≡ false
    → get (del_all ids m) id ≡ get m id
unfolding del_all
get-del_all [] m id out = refl
get-del_all (i ∷ ids) m id out =
    ground (arith, get-del_all ids (del m i) id, get-del m i id, ==_iff i id)

module _ {W : Type 0} (h : Host W) (rec : TrialRecord) (snap : Snap) where
  prune-Held : (st : St W) → Held rec snap st → Held rec snap (prune_snapshots h rec.id st)
  unfolding prune_snapshots
  prune-Held st ((m, e), g) =
      let ids = pruned (h.now st.world) rec.id 0 (sort_snaps (h.list_snaps st.world)) in
      (
        (m, e),
        get-del_all ids st.snaps rec.id
              (pruned-keep (h.now st.world) rec.id 0 (sort_snaps (h.list_snaps st.world)))
            ∙ g,
      )

  -- The file can be read.
  load-Held :
      (st : St W)
      → is_trial_id rec.id ≡ true
      → (m : ℤ) → st.current ≡ trial (record rec { msg_id = m })
      → load_trial st.current ≡ loaded (record rec { msg_id = m })
  unfolding load_trial
  load-Held st v m e = ap load_trial e ∙ rw (load_trial, v) refl

  reconcile-Held :
      (st : St W)
      → is_trial_id rec.id ≡ true
      → Held rec snap st
      → (ends (rolls (reconcile h st).1) ≡ true) ⊎ Held rec snap (reconcile h st).0
  unfolding reconcile prune_loaded
  reconcile-Held st v ((m, e), g) =
      let P = λ (r : St W × Option Rolled). (ends (rolls r.1) ≡ true) ⊎ Held rec snap r.0 in
      let st' = prune_loaded h (load_trial st.current) (lock_st h st) in
      let pruned_Held =
        subst (λ l. Held rec snap (prune_loaded h l (lock_st h st))) (sym (load-Held st v m e))
          (prune-Held (lock_st h st) ((m, e), g)) in
      let done = reconcile_loaded h (load_trial st.current) st' in
      let locked_done = if not (h.lock st.world).1 then not_tried h (lock_st h st) else done in
      if-both P (not h.ready) (not_tried h st) locked_done (inr ((m, e), g)) (
        if-both P (not (h.lock st.world).1) (not_tried h (lock_st h st)) done (inr ((m, e), g))
          (elim (reconcile_loaded-UndoneOrSame h (load_trial st.current) st') [
            | inl ok ↦ inl ok
            | inr s ↦ inr (Same-Held rec snap st' done.0 s pruned_Held)
          ]))

  save_trial-Held :
      (m : ℤ) (st : St W)
      → Held rec snap st
      → Held rec snap (save_trial h (record rec { msg_id = m }) st).0
  unfolding save_trial
  save_trial-Held m st (c, g) =
      elim (Bool-cases (h.save_file (record rec { msg_id = m }) st.world).1) [
        | inl ok ↦ rw (save_trial, ok) ((m, refl), g)
        | inr failed ↦ rw (save_trial, failed) (c, g)
      ]

  rebind_live-Same : (id : Str) (m : ℤ) (st : St W) → Same st (rebind_live h id m st)
  unfolding rebind_live
  rebind_live-Same id m st = elim (Option-cases st.live) [
    | inl gone ↦ rw (rebind_live, gone) (refl, refl)
    | inr (live, there) ↦
        rw (rebind_live, there) (if-both (Same st) (live.id == id) _ st (refl, refl) (refl, refl))
  ]

  rebind_record-Held :
      (id : Str) (m : ℤ) (st : St W)
      → is_trial_id rec.id ≡ true
      → Held rec snap st
      → Held rec snap (rebind_record h id m (load_trial st.current) st)
  unfolding rebind_record
  rebind_record-Held id m st v ((k, e), g) =
      let saved = (save_trial h (record rec { msg_id = m }) st).0 in
      subst (λ l. Held rec snap (rebind_record h id m l st)) (sym (load-Held st v k e))
        (if-both (Held rec snap) (not (rec.id == id)) st (rebind_live h id m saved) ((k, e), g)
          (Same-Held rec snap saved (rebind_live h id m saved) (rebind_live-Same id m saved)
            (save_trial-Held m st ((k, e), g))))

  rebind_trial-Held :
      (id : Str) (m : ℤ) (st : St W)
      → is_trial_id rec.id ≡ true
      → Held rec snap st
      → Held rec snap (rebind_trial h id m st)
  unfolding rebind_trial
  rebind_trial-Held id m st v (c, g) =
      if-both (Held rec snap) (h.lock st.world).1
        (rebind_record h id m (load_trial st.current) (lock_st h st)) (lock_st h st)
        (rebind_record-Held id m (lock_st h st) v (c, g)) (c, g)

  tick_record-Same :
      (id : Str) (live : Live) (l : Loaded) (st : St W) → Same st (tick_record h id live l st)
  tick_record-Same id live no_file st = (refl, refl)
  tick_record-Same id live load_failed st = (refl, refl)
  tick_record-Same id live (loaded r) st =
      if-both (Same st) _ st (edit_countdown h r live st) (refl, refl) (refl, refl)

  tick_live-Same : (id : Str) (live : Option Live) (st : St W) → Same st (tick_live h id live st)
  unfolding tick_live
  tick_live-Same id none st = (refl, refl)
  tick_live-Same id (some live) st =
      let fired = record live { ticking = false } in
      if-both (Same st) (not (live.id == id)) st
        (tick_record h id fired (load_trial st.current) (record st { live = some fired }))
        (refl, refl)
        (tick_record-Same id fired (load_trial st.current) (record st { live = some fired }))

  countdown_tick-Same : (id : Str) (st : St W) → Same st (countdown_tick h id st)
  unfolding countdown_tick
  countdown_tick-Same id st =
      if-both (Same st) (h.lock st.world).1 (tick_live h id st.live (lock_st h st)) (lock_st h st)
        (tick_live-Same id st.live (lock_st h st)) (refl, refl)

  -- A new trial is refused, and nothing is pruned.
  run_trial-Held :
      (job : Job W) (in_ : Intent) (st : St W)
      → is_trial_id rec.id ≡ true
      → Held rec snap st
      → Held rec snap (run_trial h job in_ st).st
  unfolding run_trial start_run
  run_trial-Held job in_ st v ((m, e), g) =
      let P = λ (r : Ran W). Held rec snap r.st in
      let started = start_run h job in_ (load_trial st.current) (lock_st h st) in
      let under_lock =
        if not (h.lock st.world).1 then stopped_at (lock_st h st) run_lock_failed else started in
      let refused =
        subst (λ l. P (start_run h job in_ l (lock_st h st))) (sym (load-Held st v m e))
          ((m, e), g) in
      if-both P (not h.ready) (stopped_at st run_not_ready) under_lock ((m, e), g)
        (if-both P (not (h.lock st.world).1) (stopped_at (lock_st h st) run_lock_failed) started
          ((m, e), g) refused)

  -- After an event, the trial ended or is held.
  abbrev EndsOrHeld : St W × Reply → Type 0
  EndsOrHeld r = (ends r.1 ≡ true) ⊎ Held rec snap r.0

  or_Held :
      (P : Type 0) (st st' : St W) → Held rec snap st → P ⊎ Same st st' → P ⊎ Held rec snap st'
  or_Held P st st' held (inl p) = inl p
  or_Held P st st' held (inr s) = inr (Same-Held rec snap st st' s held)

  happen-EndsOrHeld :
      (e : Event W) (st : St W)
      → is_trial_id rec.id ≡ true
      → Held rec snap st
      → EndsOrHeld (happen h e st)
  unfolding happen
  happen-EndsOrHeld (press_keep id) st v held =
      or_Held _ st (keep_trial h id st).0 held (keep_trial-KeptOrSame h id st)
  happen-EndsOrHeld (press_rollback id) st v held =
      or_Held _ st (rollback_trial h id st).0 held (rollback_trial-PressOrSame h id st)
  happen-EndsOrHeld (layer2 id) st v held =
      or_Held _ st (auto_rollback h id st).0 held (auto_rollback-UndoneOrSame h id st)
  happen-EndsOrHeld (systemd_timer id) st v held =
      or_Held _ st (run_fw_rollback h id st).0 held (run_fw_rollback-ExitOrSame h id st)
  happen-EndsOrHeld (ticks id) st v held =
      inr (Same-Held rec snap st (countdown_tick h id st) (countdown_tick-Same id st) held)
  happen-EndsOrHeld (rebinds id m) st v held = inr (rebind_trial-Held id m st v held)
  happen-EndsOrHeld (runs job in_) st v held = inr (run_trial-Held job in_ st v held)
  happen-EndsOrHeld startup st v held = reconcile-Held st v held
  happen-EndsOrHeld restart st v held = inr held
  happen-EndsOrHeld (outside w) st v held = inr held

  -- A trial on disk with a valid id and its snapshot stays there, in whatever message its buttons
  -- are, through any presses, timers, countdown edits, new changes, startups, restarts and
  -- outside changes in any order, as long as no Keep is accepted and no rollback goes well.
  pub run-Held :
      (es : List (Event W)) (st : St W)
      → is_trial_id rec.id ≡ true
      → Held rec snap st
      → is_over h es st ≡ false
      → Held rec snap (run h es st)
  unfolding run is_over
  run-Held [] st v held open_still = held
  run-Held (e ∷ es) st v held open_still = elim (happen-EndsOrHeld e st v held) [
    | inl over ↦ ground (arith, over, open_still)
    | inr held' ↦ run-Held es (happen h e st).0 v held' (ground (arith, open_still))
  ]
