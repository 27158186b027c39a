-- ===== src/Firewall/Trial/Events/Stays.antt =====
-- A trial stays on disk until it is kept or rolled back.
use statixagent.Prelude.{
  ◌≡◌, refl, ◌∙◌, ap, ◌⊎◌, inl, inr, Bool, true, false, not, ◌&&◌, Option, some, ◌∷◌, ◌==◌, str_eq,
  Bool-cases, Option-cases, arith, if◌then◌else◌, if-both,
}
use statixagent.Prelude.Text.{Str}
use statixagent.Prelude.Int.{ℤ}
use statixagent.Prelude.Map.{get}
use statixagent.Firewall.Trial.{
  committed, Snap, TrialRecord, Host, trial, Loaded, no_file, load_failed, loaded, load_trial, St,
  trial_backend, remove_trial, stop_layer1,
}
use statixagent.Firewall.Trial.Rollback.{Rolled, is_ok}
use statixagent.Firewall.Trial.Frames.{Same, Tried, stop_layer1-Same}
use statixagent.Firewall.Trial.Presses.{
  Kept, trial_gone, keep_lock_failed, no_new_ssh, commit_failed, fresh_buttons, unlink_kept,
  commit_trial, keep_seen, seen_if_needed, keep_loaded, keep_trial,
}
use statixagent.Firewall.Trial.Events.{rolls, is_kept, ends}

-- The trial is on disk, in the message that it was moved to, and its snapshot is there.
abbrev pub Held : {W : Type 0} → TrialRecord → Snap → St W → Type 0
Held rec snap st =
    ((msg_id : ℤ) × (st.current ≡ trial (record rec { msg_id = msg_id })))
    × (get st.snaps rec.id ≡ some snap)

pub Same-Held :
    {W : Type 0} (rec : TrialRecord) (snap : Snap) (st st' : St W)
    → Same st st'
    → Held rec snap st
    → Held rec snap st'
Same-Held rec snap st st' (c, s) ((m, e), g) = ((m, c ∙ e), ap (λ l. get l rec.id) s ∙ g)

abbrev pub KeptOrSame : {W : Type 0} → St W → St W × Kept → Type 0
KeptOrSame st r = (is_kept r.1 ≡ true) ⊎ Same st r.0

abbrev pub UndoneOrSame : {W : Type 0} → St W → St W × Option Rolled → Type 0
UndoneOrSame st r = (ends (rolls r.1) ≡ true) ⊎ Same st r.0

pub Tried-Undone :
    {W : Type 0} (st : St W) (r : St W × Rolled) → Tried st r → (is_ok r.1 ≡ true) ⊎ Same st r.0
Tried-Undone st r t = ground (arith, t)

module _ {W : Type 0} (h : Host W) where
  remove_trial-cases :
      (st : St W)
      → ((remove_trial h st).1 ≡ true)
        ⊎ ((remove_trial h st).1 ≡ false) × Same st (remove_trial h st).0
  unfolding remove_trial
  remove_trial-cases st = elim (Bool-cases (h.unlink st.world).1) [
    | inl ok ↦ rw (remove_trial, ok) (inl refl)
    | inr failed ↦ rw (remove_trial, failed) (inr (refl, (refl, refl)))
  ]

  fresh_buttons-Same : (rec : TrialRecord) (st : St W) → Same st (fresh_buttons h rec st)
  unfolding fresh_buttons
  fresh_buttons-Same rec st = elim (Option-cases st.live) [
    | inl gone ↦ rw (fresh_buttons, gone) (refl, refl)
    | inr (live, there) ↦
        rw (fresh_buttons, there)
          (if-both (Same st) (not (live.id == rec.id)) st _ (refl, refl) (refl, refl))
  ]

  unlink_kept-KeptOrSame : (rec : TrialRecord) (st : St W) → KeptOrSame st (unlink_kept h rec st)
  unfolding unlink_kept
  unlink_kept-KeptOrSame rec st = elim (remove_trial-cases st) [
    | inl ok ↦ rw (unlink_kept, ok) (inl refl)
    | inr (failed, s) ↦ rw (unlink_kept, failed) (inr s)
  ]

  commit_trial-KeptOrSame : (rec : TrialRecord) (st : St W) → KeptOrSame st (commit_trial h rec st)
  unfolding commit_trial
  commit_trial-KeptOrSame rec st =
      let stopped = stop_layer1 h rec st in
      let done = (trial_backend h rec).commit rec.plan stopped.world in
      let s = stop_layer1-Same h rec st in
      let committed_st = record stopped {
        world = done.0;
        calls = committed rec.id ∷ stopped.calls;
      } in
      if-both (KeptOrSame st) done.1 (unlink_kept h rec committed_st)
        (record stopped { world = done.0 }, commit_failed)
        (ground (arith, unlink_kept-KeptOrSame rec committed_st, s)) (inr s)

  keep_seen-KeptOrSame :
      (rec : TrialRecord) (seen : Bool) (st : St W) → KeptOrSame st (keep_seen h rec seen st)
  unfolding keep_seen
  keep_seen-KeptOrSame rec seen st =
      if-both (KeptOrSame st) (rec.evidence && not seen) (fresh_buttons h rec st, no_new_ssh)
        (commit_trial h rec st) (inr (fresh_buttons-Same rec st)) (commit_trial-KeptOrSame rec st)

  keep_loaded-KeptOrSame :
      (id : Str) (l : Loaded) (st : St W) → KeptOrSame st (keep_loaded h id l st)
  unfolding keep_loaded
  keep_loaded-KeptOrSame id no_file st = inr (refl, refl)
  keep_loaded-KeptOrSame id load_failed st = inr (refl, refl)
  keep_loaded-KeptOrSame id (loaded rec) st =
      let seen = seen_if_needed h rec st.world in
      if-both (KeptOrSame st) (not (rec.id == id)) (st, trial_gone)
        (keep_seen h rec seen.1 (record st { world = seen.0 })) (inr (refl, refl))
        (keep_seen-KeptOrSame rec seen.1 (record st { world = seen.0 }))

  abbrev pub lock_st : St W → St W
  lock_st st = record st { world = (h.lock st.world).0 }

  pub keep_trial-KeptOrSame : (id : Str) (st : St W) → KeptOrSame st (keep_trial h id st)
  unfolding keep_trial
  keep_trial-KeptOrSame id st =
      let run = keep_loaded h id (load_trial st.current) (lock_st st) in
      if-both (KeptOrSame st) (not h.ready) (st, trial_gone)
        (if not (h.lock st.world).1 then (lock_st st, keep_lock_failed) else run) (inr (refl, refl))
        (if-both (KeptOrSame st) (not (h.lock st.world).1) (lock_st st, keep_lock_failed) run
          (inr (refl, refl)) (keep_loaded-KeptOrSame id (load_trial st.current) (lock_st st)))
