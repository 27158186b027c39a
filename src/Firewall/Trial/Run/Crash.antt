-- ===== src/Firewall/Trial/Run/Crash.antt =====
-- A run that is cut off at the end of a step.
use statixagent.Prelude.{
  ℕ, ◌*◌, ◌≡◌, refl, ◌∙◌, sym, ap, ◌⊎◌, inl, inr, Bool, true, false, not, Option, none, some, List,
  [], ◌∷◌, str_eq, Bool-cases, Option-cases, if◌then◌else◌,
}
use mathlib.Core.Path.{subst}
use statixagent.Prelude.Text.{Str}
use statixagent.Prelude.Time.{Time}
use statixagent.Prelude.Map.{get, put, get-put_self}
use statixagent.Tgui.Tokens.{Intent}
use statixagent.Firewall.Simulate.{Change}
use statixagent.Firewall.Trial.{
  Probe, Snap, TrialRecord, Backend, Host, FwCall, applied, trial, Loaded, no_file, load_failed,
  loaded, load_trial, is_trial_id, trial_id, is_trial_id-trial_id, St, save_trial, window_seconds,
  second,
}
use statixagent.Firewall.Trial.Conns.{prune_snapshots}
use statixagent.Firewall.Trial.Run.{
  JobPrep, job_plan, job_stopped, Job, run_not_ready, run_lock_failed, Ran, stopped_at, finish_run,
  verify_run, post_run, apply_job, apply_run, record_again, layer1_run, new_record, record_run,
  snapshot_taken, snapshot_run, prepared_run, prepare_run, detect_run, start_run, run_trial,
}

abbrev pub All : {A : Type 0} → (A → Type 0) → List A → Type 0
All P [] = Unit
All P (x ∷ xs) = P x × All P xs

-- A valid id, and a snapshot under it with the hash that the record has.
abbrev Backed : {W : Type 0} → TrialRecord → St W → Type 0
Backed rec st =
    (is_trial_id rec.id ≡ true)
    × ((snap : Snap) × (get st.snaps rec.id ≡ some snap) × (snap.sha ≡ rec.pre_sha))

-- The trial is on disk and can be read, with its snapshot.
abbrev Recoverable : {W : Type 0} → St W → Type 0
Recoverable st =
    (rec : TrialRecord) × (st.current ≡ trial rec)
    × (load_trial st.current ≡ loaded rec)
    × Backed rec st

-- Nothing that may change the rules was called, or the trial can be recovered.
abbrev pub Safe : {W : Type 0} → List FwCall → St W → Type 0
Safe calls st = (st.calls ≡ calls) ⊎ Recoverable st

load_trial-valid :
    (rec : TrialRecord) → is_trial_id rec.id ≡ true → load_trial (trial rec) ≡ loaded rec
unfolding load_trial
load_trial-valid rec v = rw (load_trial, v) refl

recover :
    {W : Type 0} (rec : TrialRecord) (st : St W)
    → st.current ≡ trial rec
    → Backed rec st
    → Recoverable st
recover rec st e b = (rec, e, ap load_trial e ∙ load_trial-valid rec b.0, b)

All-Safe :
    {W : Type 0} (calls : List FwCall) (sts : List (St W))
    → All Recoverable sts
    → All (Safe calls) sts
All-Safe calls [] a = tt
All-Safe calls (s ∷ sts) a = (inr a.0, All-Safe calls sts a.1)

All-if :
    {W : Type 0} (P : St W → Type 0) (c : Bool) (x y : Ran W)
    → All P x.steps
    → All P y.steps
    → All P (if c then x else y).steps
All-if P true x y a b = a
All-if P false x y a b = b

module _ {W : Type 0} (h : Host W) where
  -- Saving a record with the same id and hash.
  save_trial-Recoverable :
      (rec : TrialRecord) (st : St W)
      → Backed rec st
      → Recoverable st
      → Recoverable (save_trial h rec st).0
  unfolding save_trial
  save_trial-Recoverable rec st b r = elim (Bool-cases (h.save_file rec st.world).1) [
    | inl ok ↦
        rw (save_trial, ok)
          (recover rec (record st { world = (h.save_file rec st.world).0; current = trial rec })
            refl b)
    | inr failed ↦ rw (save_trial, failed) r
  ]

  save_trial-ok :
      (rec : TrialRecord) (st : St W)
      → (h.save_file rec st.world).1 ≡ true
      → save_trial h rec st
        ≡ (record st { world = (h.save_file rec st.world).0; current = trial rec }, true)
  unfolding save_trial
  save_trial-ok rec st ok = rw (save_trial, ok) refl

  save_trial-failed :
      (rec : TrialRecord) (st : St W)
      → (h.save_file rec st.world).1 ≡ false
      → save_trial h rec st ≡ (record st { world = (h.save_file rec st.world).0 }, false)
  unfolding save_trial
  save_trial-failed rec st failed = rw (save_trial, failed) refl

  module _ (job : Job W) (b : Backend W) (p : Probe) where
    finish_run-steps :
        (rec : TrialRecord) (ok : Bool) (st : St W) → (finish_run h job b p rec ok st).steps ≡ []
    unfolding finish_run
    finish_run-steps rec true st = refl
    finish_run-steps rec false st = refl

    verify_run-steps :
        (rec : TrialRecord) (ok : Bool) (st : St W) → (verify_run h job b p rec ok st).steps ≡ []
    unfolding verify_run
    verify_run-steps rec true st =
        let after = b.probe st.world in
        let checked = job.verify p after.1 after.0 in
        finish_run-steps rec checked.1 (record st { world = checked.0 })
    verify_run-steps rec false st = refl

    post_run-Recoverable :
        (rec : TrialRecord) (ok : Bool) (post : Option Str) (st : St W)
        → Backed rec st
        → Recoverable st
        → All Recoverable (post_run h job b p rec ok post st).steps
    unfolding post_run
    post_run-Recoverable rec ok none st k r =
        (r, subst (All Recoverable) (sym (verify_run-steps rec ok st)) tt)
    post_run-Recoverable rec ok (some post) st k r =
        let rec' = record rec { post_sha = post } in
        let st' = (save_trial h rec' st).0 in
        (
          save_trial-Recoverable rec' st k r,
          subst (All Recoverable) (sym (verify_run-steps rec' ok st')) tt,
        )

    apply_run-Recoverable :
        (rec : TrialRecord) (st : St W)
        → Backed rec st
        → st.current ≡ trial rec
        → All Recoverable (apply_run h job b p rec st).steps
    unfolding apply_run
    apply_run-Recoverable rec st k e =
        let ran = apply_job h job b p rec.plan st.world in
        let changed = record st { world = ran.0; calls = applied rec.id ∷ st.calls } in
        let hashed = record changed { world = (b.hash ran.0).0 } in
        (
          recover rec changed e k,
          post_run-Recoverable rec ran.1 (b.hash ran.0).1 hashed k (recover rec hashed e k),
        )

    record_again-Recoverable :
        (rec : TrialRecord) (st : St W)
        → Backed rec st
        → All Recoverable (record_again h job b p rec st).steps
    unfolding record_again
    record_again-Recoverable rec st k = elim (Bool-cases (h.save_file rec st.world).1) [
      | inl ok ↦
          let st' = record st { world = (h.save_file rec st.world).0; current = trial rec } in
          rw (record_again, save_trial-ok rec st ok)
            (recover rec st' refl k, apply_run-Recoverable rec st' k refl)
      | inr failed ↦ rw (record_again, save_trial-failed rec st failed) tt
    ]

    layer1_run-Recoverable :
        (rec : TrialRecord) (start : Time) (n : ℕ) (st : St W)
        → Backed rec st
        → All Recoverable (layer1_run h job b p rec start n st).steps
    unfolding layer1_run
    layer1_run-Recoverable rec start n st k = record_again-Recoverable _ _ k

    record_run-Recoverable :
        (rec : TrialRecord) (start : Time) (st : St W)
        → Backed rec st
        → All Recoverable (record_run h job b p rec start st).steps
    unfolding record_run
    record_run-Recoverable rec start st k = elim (Bool-cases (h.save_file rec st.world).1) [
      | inl ok ↦
          let st' = record st { world = (h.save_file rec st.world).0; current = trial rec } in
          rw (record_run, save_trial-ok rec st ok)
            (
              recover rec st' refl k,
              layer1_run-Recoverable rec start (window_seconds h * second) st' k,
            )
      | inr failed ↦ rw (record_run, save_trial-failed rec st failed) tt
    ]

    snapshot_taken-Safe :
        (in_ : Intent) (id : Str) (plan : List Change) (snap : Option Snap) (st : St W)
        → is_trial_id id ≡ true
        → All (Safe st.calls) (snapshot_taken h job b p in_ id plan snap st).steps
    unfolding snapshot_taken new_record
    snapshot_taken-Safe in_ id plan none st v = tt
    snapshot_taken-Safe in_ id plan (some snap) st v =
        let st' = record st { snaps = put st.snaps id snap } in
        let start = h.now st.world in
        let rec = new_record h job b p in_ id plan snap.sha start in
        (
          inl refl,
          All-Safe st.calls (record_run h job b p rec start st').steps (
              record_run-Recoverable rec start st'
                (v, (snap, get-put_self st.snaps id snap, refl))),
        )

    snapshot_run-Safe :
        (in_ : Intent) (plan : List Change) (st : St W)
        → All (Safe st.calls) (snapshot_run h job b p in_ plan st).steps
    unfolding snapshot_run
    snapshot_run-Safe in_ plan st = elim (Option-cases (h.random32 st.world).1) [
      | inl no_id ↦ rw (snapshot_run, no_id) tt
      | inr (n, id) ↦
          rw (snapshot_run, id)
            (snapshot_taken-Safe in_ (trial_id n) plan _ _ (is_trial_id-trial_id n))
    ]

    prepared_run-Safe :
        (in_ : Intent) (prep : JobPrep) (st : St W)
        → All (Safe st.calls) (prepared_run h job b p in_ prep st).steps
    unfolding prepared_run
    prepared_run-Safe in_ job_stopped st = tt
    prepared_run-Safe in_ (job_plan plan) st = snapshot_run-Safe in_ plan st

    prepare_run-Safe :
        (in_ : Intent) (st : St W) → All (Safe st.calls) (prepare_run h job b p in_ st).steps
    unfolding prepare_run
    prepare_run-Safe in_ st =
        prepared_run-Safe in_ (job.make_plan b p st.world).1
          (record st { world = (job.make_plan b p st.world).0 })

  module _ (job : Job W) where
    detect_run-Safe :
        (in_ : Intent) (st : St W) → All (Safe st.calls) (detect_run h job in_ st).steps
    unfolding detect_run
    detect_run-Safe in_ st = elim (Option-cases (h.detect st.world).1) [
      | inl refused ↦ rw (detect_run, refused) tt
      | inr ((b, p), found) ↦ rw (detect_run, found) (prepare_run-Safe job b p in_ _)
    ]

    started :
        (in_ : Intent) (st locked : St W) (found : Loaded)
        → locked.calls ≡ st.calls
        → All (Safe st.calls) (start_run h job in_ found locked).steps
    unfolding start_run prune_snapshots
    started in_ st locked no_file e =
        subst (λ c. All (Safe c) (detect_run h job in_ (prune_snapshots h [] locked)).steps) e
          (detect_run-Safe in_ (prune_snapshots h [] locked))
    started in_ st locked load_failed e = tt
    started in_ st locked (loaded rec) e = tt

    -- Wherever a run is cut off between its steps, nothing that may change the rules was called, or the trial is
    -- on disk and can be read, with a valid id and a snapshot under it of the hash that the record has.
    pub run_trial-Safe :
        (in_ : Intent) (st : St W) → All (Safe st.calls) (run_trial h job in_ st).steps
    unfolding run_trial
    run_trial-Safe in_ st =
        let locked = record st { world = (h.lock st.world).0 } in
        let run = start_run h job in_ (load_trial st.current) locked in
        let may_run = if not (h.lock st.world).1 then stopped_at locked run_lock_failed else run in
        All-if (Safe st.calls) (not h.ready) (stopped_at st run_not_ready) may_run tt (
          All-if (Safe st.calls) (not (h.lock st.world).1) (stopped_at locked run_lock_failed) run
            tt (started in_ st locked (load_trial st.current) refl))
