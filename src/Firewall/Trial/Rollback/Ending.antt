-- ===== src/Firewall/Trial/Rollback/Ending.antt =====
-- A rollback by a backend that works.
use statixagent.Prelude.{
  ◌≡◌, refl, ◌∙◌, sym, ap, ◌⊎◌, inl, inr, true, not, ◌&&◌, Option, none, some, List, [], ◌∷◌, ◌==◌,
  ==_iff, str_eq, arith, if◌then◌else◌, if-both, if-split,
}
use mathlib.Core.Path.{subst}
use statixagent.Prelude.Text.{Str}
use statixagent.Prelude.Map.{get}
use statixagent.Firewall.Trial.{
  Snap, TrialRecord, Host, FwCall, reverted, restored, no_trial, St, trial_backend, remove_trial,
  stop_layer1,
}
use statixagent.Firewall.Trial.Rollback.{
  Risk, Rolled, already_back, restored_all, restore_failed, restored_despite, despite_failed, is_ok,
  after_risk, revert_foreign, restore_back, take_back, stop_timers, end_trial, end_if_ok,
  rollback_snap, rollback_locked,
}
use statixagent.Firewall.Trial.Rollback.Reachable.{end_trial-calls}

-- What a rollback that went well called: the snapshot was put back, or the plan's changes were undone, or
-- both, or nothing was called and the rules have the hash of before.
abbrev pub Acted : {W : Type 0} → Host W → TrialRecord → List FwCall → List FwCall → Type 0
Acted {W = W} h rec calls after =
    (after ≡ restored rec.id ∷ calls)
    ⊎ ((after ≡ reverted rec.id ∷ calls)
        ⊎ ((after ≡ restored rec.id ∷ reverted rec.id ∷ calls)
            ⊎ (after ≡ calls) × (w : W) × (((trial_backend h rec).hash w).1 ≡ some rec.pre_sha)))

-- The state of a trial that was taken back.
abbrev pub Over : {W : Type 0} → Host W → TrialRecord → List FwCall → St W → Type 0
Over h rec calls st = (st.current ≡ no_trial) × Acted h rec calls st.calls

same_name : (a b : Str) → a == b ≡ true → a ≡ b
same_name a b e = ground (arith, e, ==_iff a b)

module _ {W : Type 0} (h : Host W) (rec : TrialRecord) (snap : Snap)
    (restores : (s : Snap) (w : W) → ((trial_backend h rec).restore s w).1 ≡ true)
    (unlinks : (w : W) → (h.unlink w).1 ≡ true) where
  abbrev WellDone : List FwCall → St W × Rolled → Type 0
  WellDone calls r = (is_ok r.1 ≡ true) × Acted h rec calls r.0.calls

  after_risk-WellDone :
      (risk : Option Risk) (calls : List FwCall) (st : St W)
      → st.calls ≡ reverted rec.id ∷ calls
      → WellDone calls (after_risk h (trial_backend h rec) rec.id snap risk st)
  after_risk-WellDone none calls st e = (refl, inr (inl e))
  after_risk-WellDone (some why) calls st e = (
    ap (λ b. is_ok (if b then restored_despite why else despite_failed why))
        (restores snap st.world),
    inr (inr (inl (ap (λ l. restored rec.id ∷ l) e))),
  )

  restore_back-WellDone :
      (st : St W) → WellDone st.calls (restore_back h (trial_backend h rec) rec snap st)
  restore_back-WellDone st = (
    ap (λ b. is_ok (if b then restored_all else restore_failed)) (restores snap st.world),
    inl refl,
  )

  take_back-WellDone :
      (cur : Option Str) (w : W) (st : St W)
      → ((trial_backend h rec).hash w).1 ≡ cur
      → WellDone st.calls (take_back h (trial_backend h rec) rec snap cur st)
  unfolding take_back revert_foreign
  take_back-WellDone none w st e = restore_back-WellDone st
  take_back-WellDone (some cur) w st e =
      let b = trial_backend h rec in
      if-split (WellDone st.calls) (cur == rec.pre_sha) (st, already_back) _
        (λ same. (refl, inr (inr (inr (refl, w, e ∙ ap some (same_name cur rec.pre_sha same))))))
        (λ _.
          if-both (WellDone st.calls) (not (rec.post_sha == []) && not (cur == rec.post_sha))
            (revert_foreign h b rec snap st) (restore_back h b rec snap st)
            (after_risk-WellDone _ st.calls _ refl) (restore_back-WellDone st))

  end_trial-gone : (st : St W) → (end_trial h rec st).current ≡ no_trial
  unfolding end_trial remove_trial
  end_trial-gone st =
      let stopped = stop_timers h rec.id (stop_layer1 h rec st) in
      rw (end_trial, remove_trial, unlinks stopped.world) refl

  end_if_ok-Over :
      (calls : List FwCall) (r : St W × Rolled)
      → WellDone calls r
      → (is_ok (end_if_ok h rec r).1 ≡ true) × Over h rec calls (end_if_ok h rec r).0
  unfolding end_if_ok
  end_if_ok-Over calls (st, out) (ok, acted) =
      rw (end_if_ok, ok)
        (ok, (end_trial-gone st, subst (Acted h rec calls) (sym (end_trial-calls h rec st)) acted))

  pub rollback_locked-Over :
      (st : St W)
      → ((w : W) → (trial_backend h rec).readable rec.id w ≡ true)
      → get st.snaps rec.id ≡ some snap
      → (is_ok (rollback_locked h rec st).1 ≡ true)
        × Over h rec st.calls (rollback_locked h rec st).0
  unfolding rollback_locked rollback_snap
  rollback_locked-Over st reads there =
      let b = trial_backend h rec in
      let st1 = record st { world = (b.hash st.world).0 } in
      rw (rollback_locked, reads st.world, there)
        (end_if_ok-Over st.calls (take_back h b rec snap (b.hash st.world).1 st1)
          (take_back-WellDone (b.hash st.world).1 st.world st1 refl))
