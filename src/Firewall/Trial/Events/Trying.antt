-- ===== src/Firewall/Trial/Events/Trying.antt =====
-- Each way of a trial to its end is one that is taken.
use statixagent.Prelude.{List, ◌≤◌, ◌≡◌, ◌⊎◌, true, false, some, str_eq}
use statixagent.Prelude.Map.{get}
use statixagent.Prelude.Time.{Time, before}
use statixagent.Firewall.Trial.{
  Snap, FwCall, trial_backend, TrialRecord, Host, Live, loaded, load_trial, St,
}
use statixagent.Firewall.Trial.Rollback.{Rolled, is_ok}
use statixagent.Firewall.Trial.Rollback.Ending.{Over}
use statixagent.Firewall.Trial.Events.{Reply, rolls}

-- Layer 2 is to roll the trial back, not before its deadline.
abbrev pub Armed : {W : Type 0} → TrialRecord → St W → Type 0
Armed rec st =
    (live : Live) × (st.live ≡ some live) × (live.id ≡ rec.id) × (rec.deadline ≤ live.roll_back_at)

-- A rollback was answered that went well, and the trial is over.
abbrev pub Ends : {W : Type 0} → Host W → TrialRecord → List FwCall → St W × Reply → Type 0
Ends h rec calls r =
    (out : Rolled) × (r.1 ≡ rolls (some out)) × (is_ok out ≡ true) × Over h rec calls r.0

module _ {W : Type 0} (h : Host W) (rec : TrialRecord) (snap : Snap) (st : St W) where
  -- What the ways out of a trial rely on: the trial and its snapshot are there, and the backend works.
  module _ (ok : (h.lock st.world).1 ≡ true) (load : load_trial st.current ≡ loaded rec)
      (there : get st.snaps rec.id ≡ some snap)
      (reads : (w : W) → (trial_backend h rec).readable rec.id w ≡ true)
      (restores : (s : Snap) (w : W) → ((trial_backend h rec).restore s w).1 ≡ true)
      (unlinks : (w : W) → (h.unlink w).1 ≡ true) where
    abbrev Finishes : St W × Rolled → Type 0
    Finishes r = (is_ok r.1 ≡ true) × Over h rec st.calls r.0

    -- Before its deadline a trial is armed again; at it, it is rolled back.
    abbrev Restarts : Time → St W × Reply → Type 0
    Restarts now r =
        (before now rec.deadline ≡ true) × Armed rec r.0
        ⊎ (before now rec.deadline ≡ false) × Ends h rec st.calls r

  -- Before its deadline a trial is armed again, for a time that is not before it; at it, it is rolled back.
  abbrev pub Restarted : Time → St W × Reply → Type 0
  Restarted now r =
      (before now rec.deadline ≡ true) × Armed rec r.0
      ⊎ (before now rec.deadline ≡ false) × Ends h rec st.calls r
