-- ===== src/Firewall/Trial/Frames.antt =====
-- What the parts of a rollback leave as it was.
use statixagent.Prelude.{
  ◌≡◌, refl, ◌⊎◌, inl, inr, true, not, ◌&&◌, Option, none, some, [], ◌==◌, str_eq, Bool-cases,
  Option-cases, arith, if◌then◌else◌,
}
use statixagent.Prelude.Text.{Str}
use statixagent.Prelude.Map.{get}
use statixagent.Firewall.Trial.{
  Snap, TrialRecord, Backend, Host, no_trial, St, trial_backend, remove_trial, stop_layer1,
}
use statixagent.Firewall.Trial.Rollback.{
  Risk, Rolled, is_ok, after_risk, revert_foreign, take_back, stop_timers, end_trial, end_if_ok,
  rollback_snap, rollback_locked,
}

-- The file and the snapshots are as they were.
abbrev pub Same : {W : Type 0} → St W → St W → Type 0
Same st st' = (st'.current ≡ st.current) × (st'.snaps ≡ st.snaps)

-- The same, or the file is gone.
abbrev pub SameOrGone : {W : Type 0} → St W → St W → Type 0
SameOrGone st st' = ((st'.current ≡ st.current) ⊎ (st'.current ≡ no_trial)) × (st'.snaps ≡ st.snaps)

-- A rollback that did not go well leaves the file.
abbrev pub Tried : {W : Type 0} → St W → St W × Rolled → Type 0
Tried st (st', out) =
    ((st'.current ≡ st.current) ⊎ (is_ok out ≡ true) × (st'.current ≡ no_trial))
    × (st'.snaps ≡ st.snaps)

module _ {W : Type 0} (h : Host W) where
  pub stop_timers-Same : (id : Str) (st : St W) → Same st (stop_timers h id st)
  unfolding stop_timers
  stop_timers-Same id st = ground arith

  pub stop_layer1-Same : (rec : TrialRecord) (st : St W) → Same st (stop_layer1 h rec st)
  unfolding stop_layer1
  stop_layer1-Same rec st = ground arith

  remove_trial-SameOrGone : (st : St W) → SameOrGone st (remove_trial h st).0
  unfolding remove_trial
  remove_trial-SameOrGone st = elim (Bool-cases (h.unlink st.world).1) [
    | inl ok ↦ rw (remove_trial, ok) (inr refl, refl)
    | inr failed ↦ rw (remove_trial, failed) (inl refl, refl)
  ]

  end_trial-SameOrGone : (rec : TrialRecord) (st : St W) → SameOrGone st (end_trial h rec st)
  unfolding end_trial
  end_trial-SameOrGone rec st =
      let one = stop_layer1 h rec st in
      let two = stop_timers h rec.id one in
      ground
        (arith, stop_layer1-Same rec st, stop_timers-Same rec.id one, remove_trial-SameOrGone two)

  after_risk-Same :
      (b : Backend W) (id : Str) (snap : Snap) (risk : Option Risk) (st : St W)
      → Same st (after_risk h b id snap risk st).0
  after_risk-Same b id snap none st = (refl, refl)
  after_risk-Same b id snap (some why) st = (refl, refl)

  revert_foreign-Same :
      (b : Backend W) (rec : TrialRecord) (snap : Snap) (st : St W)
      → Same st (revert_foreign h b rec snap st).0
  unfolding revert_foreign
  revert_foreign-Same b rec snap st = after_risk-Same b rec.id snap _ _

  take_back-Same :
      (b : Backend W) (rec : TrialRecord) (snap : Snap) (cur : Option Str) (st : St W)
      → Same st (take_back h b rec snap cur st).0
  unfolding take_back
  take_back-Same b rec snap none st = (refl, refl)
  take_back-Same b rec snap (some cur) st = elim (Bool-cases (cur == rec.pre_sha)) [
    | inl back ↦ rw (take_back, back) (refl, refl)
    | inr other ↦ elim (Bool-cases (not (rec.post_sha == []) && not (cur == rec.post_sha))) [
      | inl foreign ↦ rw (take_back, other, foreign) (revert_foreign-Same b rec snap st)
      | inr own ↦ rw (take_back, other, own) (refl, refl)
    ]
  ]

  end_if_ok-Tried :
      (rec : TrialRecord) (st : St W) (r : St W × Rolled)
      → Same st r.0
      → Tried st (end_if_ok h rec r)
  unfolding end_if_ok
  end_if_ok-Tried rec st (st', out) s = elim (Bool-cases (is_ok out)) [
    | inl ok ↦ rw (end_if_ok, ok) (ground (arith, end_trial-SameOrGone rec st'))
    | inr failed ↦ rw (end_if_ok, failed) (inl s.0, s.1)
  ]

  -- A rollback leaves the snapshots, and the file too unless it went well.
  pub rollback_locked-Tried : (rec : TrialRecord) (st : St W) → Tried st (rollback_locked h rec st)
  unfolding rollback_locked rollback_snap
  rollback_locked-Tried rec st =
      elim (Option-cases
        (if (trial_backend h rec).readable rec.id st.world then get st.snaps rec.id else none)) [
          | inl lost ↦ rw (rollback_locked, lost) (inl refl, refl)
          | inr (snap, found) ↦
              let b = trial_backend h rec in
              rw (rollback_locked, found)
                (end_if_ok-Tried rec st _ (
                  take_back-Same b rec snap (b.hash st.world).1
                    (record st { world = (b.hash st.world).0 })))
        ]
