-- ===== src/Firewall/Trial/Events/Keeping.antt =====
-- A press of Keep that was accepted.
use statixagent.Prelude.{
  ℕ, zero, suc, get_elem?, mem?, ◌≡◌, refl, ◌∙◌, ap, ◌⊎◌, inl, inr, true, false, not, ◌&&◌, some,
  List, [], ◌∷◌, ◌==◌, ==_iff, str_eq, Bool-cases, arith, if-both, if-split,
}
use mathlib.Core.Path.{subst}
use statixagent.Prelude.Text.{Str}
use statixagent.Firewall.Trial.{
  SshConn, TrialRecord, Host, FwCall, committed, no_trial, Loaded, no_file, load_failed, loaded,
  load_trial, St, trial_backend, remove_trial, stop_layer1,
}
use statixagent.Firewall.Trial.Conns.{is_new_conn}
use statixagent.Firewall.Trial.Rollback.{stop_timers}
use statixagent.Firewall.Trial.Presses.{
  Kept, trial_gone, keep_lock_failed, no_new_ssh, commit_failed, kept, new_ssh_seen, fresh_buttons,
  unlink_kept, commit_trial, keep_seen, seen_if_needed, keep_loaded, keep_trial,
}
use statixagent.Firewall.Trial.Events.{Event, run}
use statixagent.Firewall.Trial.Events.Stays.{lock_st}
use statixagent.Firewall.Trial.Events.Final.{Over, no_runs, run-Over}

-- A connection that is not of the baseline.
abbrev NewConn : (SshConn → Str) → List Str → List SshConn → Type 0
NewConn key baseline conns =
    (i : ℕ) × (c : SshConn) × (get_elem? conns i ≡ some c) × (mem? (key c) baseline ≡ false)

is_new_conn-NewConn :
    (key : SshConn → Str) (baseline : List Str) (conns : List SshConn)
    → is_new_conn key baseline conns ≡ true
    → NewConn key baseline conns
unfolding is_new_conn
is_new_conn-NewConn key baseline [] e = ground arith
is_new_conn-NewConn key baseline (c ∷ conns) e = elim (Bool-cases (mem? (key c) baseline)) [
  | inl old ↦
      let (i, c', at, new) = is_new_conn-NewConn key baseline conns (ground (arith, e, old)) in
      (suc i, c', at, new)
  | inr new ↦ (zero, c, refl, new)
]

module _ {W : Type 0} (h : Host W) where
  -- A Keep that was accepted left no trial, and one call.
  abbrev KeptOver : Str → List FwCall → St W × Kept → Type 0
  KeptOver id calls r = r.1 ≡ kept → Over (committed id ∷ calls) r.0

  stop_timers-calls :
      (id : Str) (st : St W)
      → ((stop_timers h id st).current ≡ st.current) × ((stop_timers h id st).calls ≡ st.calls)
  unfolding stop_timers
  stop_timers-calls id st = ground arith

  stop_layer1-calls : (rec : TrialRecord) (st : St W) → (stop_layer1 h rec st).calls ≡ st.calls
  unfolding stop_layer1
  stop_layer1-calls rec st = ground arith

  unlink_kept-KeptOver :
      (rec : TrialRecord) (id : Str) (calls : List FwCall) (st : St W)
      → st.calls ≡ committed id ∷ calls
      → KeptOver id calls (unlink_kept h rec st)
  unfolding unlink_kept remove_trial
  unlink_kept-KeptOver rec id calls st e was = elim (Bool-cases (h.unlink st.world).1) [
    | inl ok ↦
        let gone = record st { world = (h.unlink st.world).0; current = no_trial } in
        let s = stop_timers-calls rec.id gone in rw (unlink_kept, remove_trial, ok) (s.0, s.1 ∙ e)
    | inr failed ↦ ground (arith, was, failed)
  ]

  commit_trial-KeptOver :
      (rec : TrialRecord) (st : St W) → KeptOver rec.id st.calls (commit_trial h rec st)
  unfolding commit_trial
  commit_trial-KeptOver rec st =
      let stopped = stop_layer1 h rec st in
      let done = (trial_backend h rec).commit rec.plan stopped.world in
      let st1 = record stopped { world = done.0; calls = committed rec.id ∷ stopped.calls } in
      if-both (KeptOver rec.id st.calls) done.1 (unlink_kept h rec st1)
        (record stopped { world = done.0 }, commit_failed)
        (unlink_kept-KeptOver rec rec.id st.calls st1
          (ap (λ l. committed rec.id ∷ l) (stop_layer1-calls rec st)))
        (λ e. ground (arith, e))

  -- What an accepted Keep of trial `id` had: the trial, and the SSH session that it needs.
  abbrev pub Evidence : Str → St W → Loaded → Type 0
  Evidence id st l =
      (rec : TrialRecord) × (l ≡ loaded rec)
      × (rec.id ≡ id)
      × ((rec.evidence ≡ false)
          ⊎ NewConn h.key_of rec.baseline
              (h.conns (h.read_ports st.world).1 (h.read_ports st.world).0).1)

  abbrev KeptWith : Str → St W → Loaded → St W × Kept → Type 0
  KeptWith id st l r = r.1 ≡ kept → Evidence id st l × Over (committed id ∷ st.calls) r.0

  -- The evidence that was looked for.
  seen-Evidence :
      (rec : TrialRecord) (st : St W)
      → (rec.evidence && not (seen_if_needed h rec st.world).1) ≡ false
      → Evidence rec.id st (loaded rec)
  unfolding seen_if_needed new_ssh_seen
  seen-Evidence rec st e = elim (Bool-cases rec.evidence) [
    | inl needs ↦
        let conns = (h.conns (h.read_ports st.world).1 (h.read_ports st.world).0).1 in
        (
          rec,
          refl,
          refl,
          inr (is_new_conn-NewConn h.key_of rec.baseline conns (ground (arith, e, needs))),
        )
    | inr not_needed ↦ (rec, refl, refl, inl not_needed)
  ]

  keep_seen-KeptWith :
      (rec : TrialRecord) (st : St W) (w : W)
      → KeptWith rec.id st
          (loaded rec)
          (keep_seen h rec (seen_if_needed h rec st.world).1 (record st { world = w }))
  unfolding keep_seen
  keep_seen-KeptWith rec st w =
      let seen = (seen_if_needed h rec st.world).1 in
      let st1 = record st { world = w } in
      if-split (KeptWith rec.id st (loaded rec)) (rec.evidence && not seen)
        (fresh_buttons h rec st1, no_new_ssh) (commit_trial h rec st1) (λ _ e. ground (arith, e))
        (λ seen_new e. (seen-Evidence rec st seen_new, commit_trial-KeptOver rec st1 e))

  keep_loaded-KeptWith :
      (id : Str) (l : Loaded) (st : St W) → KeptWith id st l (keep_loaded h id l st)
  unfolding keep_loaded
  keep_loaded-KeptWith id no_file st = λ e. ground (arith, e)
  keep_loaded-KeptWith id load_failed st = λ e. ground (arith, e)
  keep_loaded-KeptWith id (loaded rec) st =
      let w = (seen_if_needed h rec st.world).0 in
      if-split (KeptWith id st (loaded rec)) (not (rec.id == id)) (st, trial_gone) _
        (λ _ e. ground (arith, e))
        (λ same.
          subst
            (λ i.
              KeptWith i st (loaded rec)
                (keep_seen h rec (seen_if_needed h rec st.world).1 (record st { world = w })))
            (ground (arith, same, ==_iff rec.id id)) (keep_seen-KeptWith rec st w))

  -- Under the lock
  keep_trial-KeptWith :
      (id : Str) (st : St W)
      → KeptWith id (lock_st h st) (load_trial st.current) (keep_trial h id st)
  unfolding keep_trial
  keep_trial-KeptWith id st =
      let P = KeptWith id (lock_st h st) (load_trial st.current) in
      if-both P (not h.ready) (st, trial_gone) _ (λ e. ground (arith, e))
        (if-both P (not (h.lock st.world).1) (lock_st h st, keep_lock_failed) _
          (λ e. ground (arith, e)) (keep_loaded-KeptWith id (load_trial st.current) (lock_st h st)))

  -- A Keep that is accepted names the trial on disk, and where the trial needs it an SSH connection that was
  -- not there at the start is established; the plan is committed and the record is gone.
  pub keep_trial-Evidence :
      (id : Str) (st : St W)
      → (keep_trial h id st).1 ≡ kept
      → Evidence id (lock_st h st) (load_trial st.current)
        × Over (committed id ∷ st.calls) (keep_trial h id st).0
  keep_trial-Evidence id st e = keep_trial-KeptWith id st e

  -- After an accepted Keep, nothing rolls back, restores or commits again, whatever presses, timers, startups,
  -- restarts and outside changes come, until a new change is started.
  pub run-keep_trial :
      (id : Str) (st : St W) (es : List (Event W))
      → (keep_trial h id st).1 ≡ kept
      → no_runs es ≡ true
      → Over (committed id ∷ st.calls) (run h es (keep_trial h id st).0)
  run-keep_trial id st es e quiet =
      run-Over h (committed id ∷ st.calls) es (keep_trial h id st).0 quiet
        (keep_trial-KeptWith id st e).1
