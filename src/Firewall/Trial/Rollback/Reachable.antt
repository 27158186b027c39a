-- ===== src/Firewall/Trial/Rollback/Reachable.antt =====
-- When a rollback leaves the rules that someone else changed.
use statixagent.Prelude.{
  nat_eq, ◌≡◌, refl, ◌∙◌, sym, ◌⊎◌, inl, inr, true, false, some, [], ◌∷◌, ◌==◌, str_eq,
  Option-cases, arith,
}
use mathlib.Core.Path.{subst}
use statixagent.Prelude.Text.{Str}
use statixagent.Prelude.Map.{get}
use statixagent.Firewall.Trial.{
  remove_trial, stop_layer1, Probe, Snap, TrialRecord, Backend, Host, reverted, restored, St,
  trial_backend,
}
use statixagent.Firewall.Trial.Rollback.{
  stop_timers, end_trial, Risk, Rolled, own_undone, restored_despite, despite_failed, lockout_risk,
  after_risk, revert_foreign, take_back, end_if_ok, rollback_snap, rollback_locked,
}
use statixagent.Firewall.Trial.Rollback.Risks.{
  Reaches, AtRisk, lockout_risk-none, lockout_risk-some,
}

module _ {W : Type 0} (h : Host W) where
  pub end_trial-calls : (rec : TrialRecord) (st : St W) → (end_trial h rec st).calls ≡ st.calls
  unfolding end_trial stop_layer1 stop_timers remove_trial
  end_trial-calls rec st = ground arith

  pub end_if_ok-calls :
      (rec : TrialRecord) (r : St W × Rolled)
      → ((end_if_ok h rec r).1 ≡ r.1) × ((end_if_ok h rec r).0.calls ≡ r.0.calls)
  unfolding end_if_ok
  end_if_ok-calls rec (st, out) = ground (arith, end_trial-calls rec st)

  -- The rules when the plan's own changes were undone.
  abbrev undone_probe : TrialRecord → W → W × Probe
  undone_probe rec w = let b = trial_backend h rec in b.probe (b.revert rec.plan (b.hash w).0).0

  -- Only the plan's own changes were undone, and nobody is shut out by what remains.
  abbrev pub Spared : TrialRecord → Snap → St W → St W × Rolled → Type 0
  Spared rec snap st r =
      let (w, p) = undone_probe rec st.world in
      let b = trial_backend h rec in
      (r.1 ≡ own_undone)
      × (r.0.calls ≡ reverted rec.id ∷ st.calls)
      × (((b.revert rec.plan (b.hash st.world).0).1 ≡ true) × Reaches h p snap w)

  -- The plan's own changes were undone, then the whole snapshot was put back, for a risk that was found.
  abbrev pub Overwritten : TrialRecord → Snap → St W → St W × Rolled → Type 0
  Overwritten rec snap st r =
      let b = trial_backend h rec in
      let (w, p) = undone_probe rec st.world in
      (why : Risk) × AtRisk h p snap (b.revert rec.plan (b.hash st.world).0).1 w why
      × ((r.1 ≡ restored_despite why) ⊎ (r.1 ≡ despite_failed why))
      × (r.0.calls ≡ restored rec.id ∷ reverted rec.id ∷ st.calls)

  abbrev SparedOrNot : TrialRecord → Snap → St W → St W × Rolled → Type 0
  SparedOrNot rec snap st r = Spared rec snap st r ⊎ Overwritten rec snap st r

  end_if_ok-SparedOrNot :
      (rec : TrialRecord) (snap : Snap) (st : St W) (r : St W × Rolled)
      → SparedOrNot rec snap st r
      → SparedOrNot rec snap st (end_if_ok h rec r)
  end_if_ok-SparedOrNot rec snap st r (inl (out, calls, reach)) =
      let e = end_if_ok-calls rec r in inl (e.0 ∙ out, e.1 ∙ calls, reach)
  end_if_ok-SparedOrNot rec snap st r (inr (why, risk, inl out, calls)) =
      let e = end_if_ok-calls rec r in inr (why, risk, inl (e.0 ∙ out), e.1 ∙ calls)
  end_if_ok-SparedOrNot rec snap st r (inr (why, risk, inr out, calls)) =
      let e = end_if_ok-calls rec r in inr (why, risk, inr (e.0 ∙ out), e.1 ∙ calls)

  after_risk-restored :
      (b : Backend W) (id : Str) (snap : Snap) (why : Risk) (st : St W)
      → (let r = after_risk h b id snap (some why) st in
          (((r.1 ≡ restored_despite why) ⊎ (r.1 ≡ despite_failed why))
            × (r.0.calls ≡ restored id ∷ st.calls)))
  after_risk-restored b id snap why st = ground arith

  revert_foreign-SparedOrNot :
      (rec : TrialRecord) (snap : Snap) (st : St W)
      → SparedOrNot rec snap st (
          revert_foreign h
            (trial_backend h rec)
            rec
            snap
            (record st { world = ((trial_backend h rec).hash st.world).0 }))
  unfolding revert_foreign
  revert_foreign-SparedOrNot rec snap st =
      let b = trial_backend h rec in
      let undone = (b.revert rec.plan (b.hash st.world).0).1 in
      let (w, p) = undone_probe rec st.world in
      let (w3, risk) = lockout_risk h p snap undone w in
      let st3 = record st { world = w3; calls = reverted rec.id ∷ st.calls } in
      elim (Option-cases risk) [
        | inl safe ↦
            subst (λ k. SparedOrNot rec snap st (after_risk h b rec.id snap k st3)) (sym safe)
              (inl (refl, refl, lockout_risk-none h p snap undone w safe))
        | inr (why, found) ↦
            let (out, calls) = after_risk-restored b rec.id snap why st3 in
            subst (λ k. SparedOrNot rec snap st (after_risk h b rec.id snap k st3)) (sym found)
              (inr (why, lockout_risk-some h p snap undone w why found, out, calls))
      ]

  take_back-foreign :
      (b : Backend W) (rec : TrialRecord) (snap : Snap) (cur : Str) (st : St W)
      → cur == rec.pre_sha ≡ false
      → rec.post_sha == [] ≡ false
      → cur == rec.post_sha ≡ false
      → take_back h b rec snap (some cur) st ≡ revert_foreign h b rec snap st
  unfolding take_back
  take_back-foreign b rec snap cur st not_pre known not_post =
      rw (take_back, not_pre, known, not_post) refl

  -- A rollback that finds its snapshot, and rules that are neither those before the change nor
  -- those recorded after it, so that someone else changed them, undoes the plan's own changes.
  -- Either it stops there: the undoing went well, the rules can be read, and they let in every
  -- peer with an SSH connection and every SSH port that was let in before. Or it puts the whole
  -- snapshot back, and one of these does not hold: the undoing failed, the rules cannot be read, a
  -- peer with an SSH connection is shut out, or an SSH port is that was let in before.
  pub rollback_locked-Foreign :
      (rec : TrialRecord) (snap : Snap) (cur : Str) (st : St W)
      → (trial_backend h rec).readable rec.id st.world ≡ true
      → get st.snaps rec.id ≡ some snap
      → ((trial_backend h rec).hash st.world).1 ≡ some cur
      → cur == rec.pre_sha ≡ false
      → rec.post_sha == [] ≡ false
      → cur == rec.post_sha ≡ false
      → Spared rec snap st (rollback_locked h rec st)
        ⊎ Overwritten rec snap st (rollback_locked h rec st)
  unfolding rollback_locked rollback_snap
  rollback_locked-Foreign rec snap cur st ok there is_hash not_pre known not_post =
      let b = trial_backend h rec in
      let st1 = record st { world = (b.hash st.world).0 } in
      let P = SparedOrNot rec snap st in
      let done =
        subst (λ r. P (end_if_ok h rec r))
          (sym (take_back-foreign b rec snap cur st1 not_pre known not_post))
          (end_if_ok-SparedOrNot rec snap st (revert_foreign h b rec snap st1)
            (revert_foreign-SparedOrNot rec snap st)) in
      let hashed =
        subst (λ c. P (end_if_ok h rec (take_back h b rec snap c st1))) (sym is_hash) done in
      rw (rollback_locked, ok, there) hashed
