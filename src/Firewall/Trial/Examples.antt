-- ===== src/Firewall/Trial/Examples.antt =====
-- Concrete runs of trials, where the world is the clock.
use statixagent.Prelude.{ℕ, ◌+◌, refl, ◌⊎◌, true, false, none, some, List, [], ◌∷◌, str_eq, nat_eq}
use statixagent.Prelude.Text.{codes}
use statixagent.Prelude.Int.{pos}
use statixagent.Netip.{Addr}
use statixagent.Prelude.Map.{get}
use statixagent.Tgui.Tokens.{Intent}
use statixagent.Firewall.Trial.{
  probe_open, Probe, Snap, SshConn, TrialRecord, Backend, Host, edited, no_trial, trial, load_trial,
  committed, St,
}
use statixagent.Firewall.Trial.Presses.{keep_trial}
use statixagent.Firewall.Trial.Timers.{rebind_live}
use statixagent.Firewall.Trial.Rollback.{rollback_locked}
use statixagent.Firewall.Trial.Rollback.Reachable.{Spared, Overwritten, rollback_locked-Foreign}
use statixagent.Firewall.Trial.Run.{Job, job_plan, run_trial}
use statixagent.Firewall.Trial.Run.Crash.{All, Safe, run_trial-Safe}
use statixagent.Firewall.Trial.Events.{
  Event, press_keep, systemd_timer, ticks, rebinds, runs, startup, restart, outside, run, is_over,
}
use statixagent.Firewall.Trial.Events.Stays.{Held, lock_st}
use statixagent.Firewall.Trial.Events.Final.{Over}
use statixagent.Firewall.Trial.Events.Lasting.{run-Held}
use statixagent.Firewall.Trial.Events.Keeping.{Evidence, keep_trial-Evidence, run-keep_trial}

abbrev some_probe : Probe
some_probe = record {
  state = probe_open;
  fw = record { found = true; active = true; policy = codes "allow"; rules = [] };
}

abbrev some_snap : Snap
some_snap = record {
  files = [];
  status = [];
  sha = codes "before";
  fw = some_probe.fw;
  added = none;
}

abbrev host_addr : ℕ → Addr
host_addr n = record { is6 = false; value = 167772160 + n; zone = [] }

abbrev admin_conn : SshConn
admin_conn = record {
  near = record { addr = host_addr 1; port = 22 };
  peer = record { addr = host_addr 2; port = 50000 };
}

-- The rules are always those that someone else changed; nothing fails, but the edits of the bot's messages.
abbrev some_backend : Backend ℕ
some_backend = record {
  name = codes "ufw";
  bin = codes "/usr/sbin/ufw";
  zone = [];
  probe = λ w. (w, some_probe);
  snapshot = λ id w. (w, some some_snap);
  readable = λ id w. true;
  hash = λ w. (w, some (codes "foreign"));
  apply = λ plan w. (w + 1, true);
  revert = λ plan w. (w + 1, true);
  commit = λ plan w. (w + 1, true);
  restore = λ snap w. (w + 1, true);
}

abbrev some_host : Host ℕ
some_host = record {
  ready = true;
  self_path = codes "/usr/bin/statix";
  config_path = codes "/etc/statix.toml";
  trial_seconds = 0;
  has_sender = true;
  backend = λ name bin zone. some_backend;
  detect = λ w. (w, some (some_backend, some_probe));
  now = λ w. w;
  lock = λ w. (w, true);
  save_file = λ rec w. (w, true);
  unlink = λ w. (w, true);
  random32 = λ w. (w, some 43981);
  run = λ argv w. (w, true);
  read_ports = λ w. (w, 22 ∷ []);
  conns = λ ports w. (w, admin_conn ∷ []);
  key_of = λ c. codes "10.0.0.1:22>10.0.0.2:50000";
  mint_token = λ intent ttl w. (w, some (codes "nonce", codes "~1"));
  rebind_token = λ nonce msg_id w. w;
  edit = λ chat msg_id w. (w, edited);
  send = λ chat w. (w, true);
  list_snaps = λ w. [];
  audit = λ id ok w. w;
}

-- A trial of one change, with a deadline at 100, that needs a new SSH session.
abbrev some_trial : TrialRecord
some_trial = record {
  id = codes "0000abcd";
  backend = codes "ufw";
  bin = codes "/usr/sbin/ufw";
  zone = [];
  action = codes "fw_close";
  deadline = 100;
  pre_sha = codes "before";
  post_sha = codes "after";
  chat_id = pos 5;
  msg_id = pos 7;
  actor_id = pos 9;
  plan = [];
  what = codes "Close 22";
  layer1 = true;
  evidence = true;
  baseline = [];
}

abbrev on_trial : St ℕ
on_trial = record {
  world = 3;
  current = trial some_trial;
  snaps = (some_trial.id, some_snap) ∷ [];
  live = none;
  calls = [];
}

abbrev some_intent : Intent
some_intent = record {
  action = codes "fw_close";
  target = [];
  actor_id = pos 9;
  chat_id = pos 5;
  message_id = pos 7;
  final = false;
}

abbrev some_job : Job ℕ
some_job = record {
  action = codes "fw_close";
  what = codes "Close 22";
  evidence = true;
  make_plan = λ b p w. (w, job_plan []);
  apply_instead = none;
  verify = λ before after w. (w, true);
}

-- A startup, a tick, a new message, a second change, a press for another trial, and a restart.
abbrev busy_day : List (Event ℕ)
busy_day =
    startup
    ∷ ticks some_trial.id
    ∷ rebinds some_trial.id (pos 8)
    ∷ runs some_job some_intent
    ∷ press_keep (codes "0000abce")
    ∷ outside 50
    ∷ restart
    ∷ startup
    ∷ []

run-Held_example : Held some_trial some_snap (run some_host busy_day on_trial)
unfolding run is_over get rebind_live
run-Held_example =
    run-Held some_host some_trial some_snap busy_day on_trial refl ((pos 7, refl), refl) refl

keep_trial-Evidence_example :
    Evidence some_host some_trial.id (lock_st some_host on_trial) (load_trial on_trial.current)
    × Over (committed some_trial.id ∷ []) (keep_trial some_host some_trial.id on_trial).0
unfolding keep_trial
keep_trial-Evidence_example = keep_trial-Evidence some_host some_trial.id on_trial refl

run-keep_trial_example : Over (committed some_trial.id ∷ []) (
    run some_host
      (startup ∷ systemd_timer some_trial.id ∷ [])
      (keep_trial some_host some_trial.id on_trial).0)
unfolding keep_trial
run-keep_trial_example =
    run-keep_trial some_host some_trial.id on_trial (startup ∷ systemd_timer some_trial.id ∷ [])
      refl refl

rollback_locked-Foreign_example :
    Spared some_host some_trial some_snap on_trial (rollback_locked some_host some_trial on_trial)
    ⊎ Overwritten some_host some_trial some_snap on_trial
        (rollback_locked some_host some_trial on_trial)
unfolding get
rollback_locked-Foreign_example =
    rollback_locked-Foreign some_host some_trial some_snap (codes "foreign") on_trial refl refl refl
      refl refl refl

run_trial-Safe_example :
    All
      (Safe [])
      (run_trial some_host some_job some_intent
        (record on_trial { current = no_trial; snaps = [] })).steps
run_trial-Safe_example =
    run_trial-Safe some_host some_job some_intent
      (record on_trial { current = no_trial; snaps = [] })
