-- ===== src/Firewall/Trial/Timers.antt =====
-- internal/agent/fwdeadman.go: the timers of a trial, its buttons and its countdown.
use statixagent.Prelude.{
  ℕ, ◌+◌, ◌-◌, ◌*◌, ◌/◌, ◌%◌, max, Bool, true, false, not, ◌||◌, Option, none, some, List, [], ◌∷◌,
  ◌++◌, ◌==◌, str_eq, if◌then◌else◌,
}
use statixagent.Prelude.Text.{Str, codes}
use statixagent.Prelude.Time.{Time, before}
use statixagent.Prelude.Int.{ℤ, sub_ℕ, int_eq}
use statixagent.Prelude.Decimal.{itoa}
use statixagent.Tgui.Tokens.{Intent}
use statixagent.Firewall.Trial.{
  TrialRecord, Host, told_slow, Live, Loaded, loaded, load_trial, St, save_trial, second,
  layer2_grace,
}
use statixagent.Firewall.Trial.Rollback.{stop_timers}

-- `mmss` of the nanoseconds that are left: rounded to seconds, half a second up
unfoldable pub mmss : ℕ → Str
mmss left =
    let s = (left + second / 2) / second in
    itoa (s / 60) ++ b':' ∷ itoa (s % 60 / 10) ++ itoa (s % 60 % 10)

-- The seconds of a timer of systemd, rounded up.
abbrev pub ceil_seconds : ℕ → ℕ
ceil_seconds n = (n + second - 1) / second

abbrev pub act_keep : Str
act_keep = codes "fw_keep"

abbrev pub act_rollback : Str
act_rollback = codes "fw_rollback"

module _ {W : Type 0} (h : Host W) where
  unfoldable pub layer1_argv : Str → ℕ → List Str
  layer1_argv id n =
      codes "systemd-run"
      ∷ (codes "--unit=statix-fw-rollback-" ++ id)
      ∷ (codes "--on-active=" ++ itoa (ceil_seconds n) ++ codes "s")
      ∷ codes "--timer-property=AccuracySec=1s"
      ∷ codes "--property=Type=oneshot"
      ∷ h.self_path
      ∷ codes "--config"
      ∷ h.config_path
      ∷ codes "--fw-rollback"
      ∷ id
      ∷ []

  -- `armLayer1`
  unfoldable pub arm_layer1 : Str → ℕ → W → W × Bool
  unfolding layer1_argv
  arm_layer1 id n w =
      if h.self_path == [] || h.config_path == [] then (w, false) else h.run (layer1_argv id n) w

  abbrev pub trial_intent : TrialRecord → Str → Intent
  trial_intent rec action = record {
    action = action;
    target = rec.id;
    actor_id = rec.actor_id;
    chat_id = rec.chat_id;
    message_id = rec.msg_id;
    final = false;
  }

  -- The buttons of the actions, from those that are made; a failure leaves none. The host's `mint_token` gives a
  -- nonce with the data of its Yes button.
  unfoldable pub mint_buttons :
      TrialRecord → ℤ → List Str → List Str × List Str → W → W × List Str × List Str
  mint_buttons rec ttl [] (kb, nonces) w = (w, kb, nonces)
  mint_buttons rec ttl (action ∷ actions) (kb, nonces) w =
      let (w', got) = h.mint_token (trial_intent rec action) ttl w in
      elim got [
        | none ↦ (w', [], [])
        | some (nonce, press) ↦
            mint_buttons rec ttl actions (kb ++ press ∷ [], nonces ++ nonce ∷ []) w'
      ]

  -- `mintTrialKB`: Keep and Roll back
  unfoldable pub mint_trial_kb : TrialRecord → W → W × List Str × List Str
  unfolding mint_buttons
  mint_trial_kb rec w =
      mint_buttons rec (sub_ℕ (rec.deadline + 60 * second) (h.now w)) (act_keep ∷ act_rollback ∷ [])
        ([], []) w

  -- When layer 2 rolls back: not before now.
  abbrev pub layer2_at : TrialRecord → Time → Time
  layer2_at rec now = max (if rec.layer1 then rec.deadline + layer2_grace else rec.deadline) now

  -- `armTrial`
  unfoldable pub arm_trial : TrialRecord → St W → St W
  unfolding mint_trial_kb stop_timers
  arm_trial rec st =
      let stopped = stop_timers h [] st in
      let (w, kb, nonces) = mint_trial_kb rec stopped.world in
      record stopped {
        world = w;
        live = some (record {
          id = rec.id;
          kb = kb;
          nonces = nonces;
          roll_back_at = layer2_at rec (h.now w);
          ticking = true;
        });
      }

  unfoldable pub rebind_all : List Str → ℤ → W → W
  rebind_all [] msg_id w = w
  rebind_all (n ∷ nonces) msg_id w = rebind_all nonces msg_id (h.rebind_token n msg_id w)

  unfoldable pub rebind_live : Str → ℤ → St W → St W
  unfolding rebind_all
  rebind_live id msg_id st = elim st.live [
    | none ↦ st
    | some live ↦
        if live.id == id then record st { world = rebind_all live.nonces msg_id st.world } else st
  ]

  unfoldable pub rebind_record : Str → ℤ → Loaded → St W → St W
  unfolding save_trial
  rebind_record id msg_id (loaded rec) st =
      if not (rec.id == id)
      then st
      else rebind_live id msg_id (save_trial h (record rec { msg_id = msg_id }) st).0
  rebind_record id msg_id _ st = st

  -- Under the lock; nothing is done when it cannot be taken.
  abbrev pub locked : (St W → St W) → St W → St W
  locked act st =
      let (w, ok) = h.lock st.world in
      if ok then act (record st { world = w }) else record st { world = w }

  -- `rebindTrial`
  unfoldable pub rebind_trial : Str → ℤ → St W → St W
  unfolding rebind_record load_trial
  rebind_trial id msg_id st = locked (λ s. rebind_record id msg_id (load_trial s.current) s) st

  -- The countdown goes on unless the bot is told to slow down.
  abbrev pub edit_countdown : TrialRecord → Live → St W → St W
  edit_countdown rec live st =
      let (w, answer) = h.edit rec.chat_id rec.msg_id st.world in
      record st { world = w; live = some (record live { ticking = not (told_slow answer) }) }

  abbrev pub tick_record : Str → Live → Loaded → St W → St W
  tick_record id live (loaded rec) st =
      if not (rec.id == id) || not (before (h.now st.world) rec.deadline) || not h.has_sender
      then st
      else edit_countdown rec live st
  tick_record id live _ st = st

  unfoldable pub tick_live : Str → Option Live → St W → St W
  unfolding load_trial
  tick_live id none st = st
  tick_live id (some live) st =
      if not (live.id == id)
      then st
      else (let fired = record live { ticking = false } in
          tick_record id fired (load_trial st.current) (record st { live = some fired }))

  -- `countdownTick`
  unfoldable pub countdown_tick : Str → St W → St W
  unfolding tick_live
  countdown_tick id st = locked (λ s. tick_live id s.live s) st
