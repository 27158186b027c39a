-- ===== src/Firewall/Trial.antt =====
-- internal/agent/fwdeadman.go: the dead-man switch. This file has the state of a trial and what the trial
-- calls. What is outside of it, the backend's commands, the clock, timers of systemd, sockets, the bot and
-- the confirm tokens, is an interface on a world of any type: each call may change the world in any way
-- and may fail. `current.json` and the snapshot directories are part of the state. A write of
-- `current.json` leaves the old file or the new one. `calls` records the calls that may change rules; the
-- program does not read it.
pub mod Rollback
pub mod Timers
pub mod Conns
pub mod Presses
pub mod Run
pub mod Frames
pub mod Events
mod Examples
use statixagent.Prelude.{
  zero, suc, ◌-◌, ◌/◌, ◌%◌, ◌≡◌, refl, ◌∙◌, arith, ℕ, ◌+◌, ◌*◌, ◌^◌, Bool, true, false, not, ◌&&◌,
  ◌||◌, Option, none, some, List, [], ◌∷◌, ◌++◌, ◌==◌, nat_eq, ltb, leb, length, min, max,
  if◌then◌else◌,
}
use statixagent.Prelude.Text.{Str, codes}
use statixagent.Prelude.Time.{Time}
use statixagent.Prelude.Int.{ℤ}
use statixagent.Prelude.Map.{Map, get, del}
use statixagent.Netip.{Addr}
use statixagent.Tgui.Tokens.{Intent}
use statixagent.Firewall.Rules.{Status}
use statixagent.Firewall.Simulate.{Change}

-- The states of `sshPortState`.
pub data ProbeState : Type 0 where
  probe_missing probe_unusable probe_inactive probe_unparsed probe_open probe_closed
        probe_unmanaged :
      ProbeState

-- `ufwProbe`, what the trial reads of it
pub record Probe : Type 0 where
  pub state : ProbeState
  pub fw : Status

unfoldable pub manageable : Probe → Bool
manageable p = elim p.state [
  | probe_open ↦ true
  | probe_closed ↦ true
  | probe_unmanaged ↦ true
  | probe_missing ↦ false
  | probe_unusable ↦ false
  | probe_inactive ↦ false
  | probe_unparsed ↦ false
]

-- `fwSnap`, without the zone of firewalld
pub record Snap : Type 0 where
  pub files : Map Str Str
  pub status : Str
  pub sha : Str
  pub fw : Status
  pub added : Option (List (List Str))

-- `netip.AddrPort`, and an established connection
pub record AddrPort : Type 0 where
  pub addr : Addr
  pub port : ℕ

pub record SshConn : Type 0 where
  pub near : AddrPort
  pub peer : AddrPort

-- `fwTrialRecord`
pub record TrialRecord : Type 0 where
  pub id : Str
  pub backend : Str
  pub bin : Str
  pub zone : Str
  pub action : Str
  pub deadline : Time
  pub pre_sha : Str
  pub post_sha : Str
  pub chat_id : ℤ
  pub msg_id : ℤ
  pub actor_id : ℤ
  pub plan : List Change
  pub what : Str
  pub layer1 : Bool
  pub evidence : Bool
  pub baseline : List Str

-- `FwBackend`, the part that a trial calls. The Boolean says that there was no error.
pub record Backend (W : Type 0) : Type 0 where
  pub name : Str
  pub bin : Str
  pub zone : Str
  pub probe : W → W × Probe
  pub snapshot : Str → W → W × Option Snap
  pub readable : Str → W → Bool
  pub hash : W → W × Option Str
  pub apply : List Change → W → W × Bool
  pub revert : List Change → W → W × Bool
  pub commit : List Change → W → W × Bool
  pub restore : Snap → W → W × Bool

-- `fwSnapInfo`
pub record SnapInfo : Type 0 where
  pub id : Str
  pub taken : Time

-- How an edit of a message went; `slow_down` is Telegram's 429.
pub data Edited : Type 0 where
  edited slow_down edit_failed : Edited

abbrev pub is_edited : Edited → Bool
is_edited edited = true
is_edited _ = false

abbrev pub told_slow : Edited → Bool
told_slow slow_down = true
told_slow _ = false

-- The rest of the outside.
pub record Host (W : Type 0) : Type 0 where
  pub ready : Bool
  pub self_path : Str
  pub config_path : Str
  pub trial_seconds : ℕ
  pub has_sender : Bool
  pub backend : Str → Str → Str → Backend W
  pub detect : W → W × Option (Backend W × Probe)
  pub now : W → Time
  pub lock : W → W × Bool
  pub save_file : TrialRecord → W → W × Bool
  pub unlink : W → W × Bool
  pub random32 : W → W × Option ℕ
  pub run : List Str → W → W × Bool
  pub read_ports : W → W × List ℕ
  pub conns : List ℕ → W → W × List SshConn
  pub key_of : SshConn → Str
  pub mint_token : Intent → ℤ → W → W × Option (Str × Str)
  pub rebind_token : Str → ℤ → W → W
  pub edit : ℤ → ℤ → W → W × Edited
  pub send : ℤ → W → W × Bool
  pub list_snaps : W → List SnapInfo
  pub audit : Str → Bool → W → W

-- `current.json`: none, one that cannot be read, or a trial.
pub data Current : Type 0 where
  no_trial unreadable : Current
  trial : TrialRecord → Current

-- Calls that may change the rules, or make a change permanent.
pub data FwCall : Type 0 where
  applied reverted restored committed : Str → FwCall

-- `fwLive`: the trial's id, the buttons' data and nonces, when layer 2 rolls back, and whether a countdown
-- edit is to come.
pub record Live : Type 0 where
  pub id : Str
  pub kb : List Str
  pub nonces : List Str
  pub roll_back_at : Time
  pub ticking : Bool

pub record St (W : Type 0) : Type 0 where
  pub world : W
  pub current : Current
  pub snaps : Map Str Snap
  pub live : Option Live
  pub calls : List FwCall

abbrev pub second : ℕ
second = 10 ^ 9

-- `fwNoTimerCap`, `fwLayer2Grace` and `fwKeepSnaps`, `fwSnapKeep`
abbrev pub no_timer_cap : ℕ
no_timer_cap = 60 * second

abbrev pub layer2_grace : ℕ
layer2_grace = 5 * second

abbrev pub keep_snaps : ℕ
keep_snaps = 5

abbrev pub snap_keep : ℕ
snap_keep = 24 * 3600 * second

-- `fwIDPattern`: eight digits or letters from a to f.
abbrev is_hex : ℕ → Bool
is_hex c = leb b'0' c && leb c b'9' || leb b'a' c && leb c b'f'

all_hex : Str → Bool
all_hex [] = true
all_hex (c ∷ s) = is_hex c && all_hex s

unfoldable pub is_trial_id : Str → Bool
unfolding all_hex
is_trial_id id = length id == 8 && all_hex id

abbrev hex_digit : ℕ → ℕ
hex_digit d = if ltb d 10 then b'0' + d else b'a' + (d - 10)

-- The last `k` digits of a number, in hexadecimal.
hex_digits : ℕ → ℕ → Str → Str
hex_digits zero n out = out
hex_digits (suc k) n out = hex_digits k (n / 16) (hex_digit (n % 16) ∷ out)

-- `newFwID`, for four random bytes read as a number
unfoldable pub trial_id : ℕ → Str
unfolding hex_digits
trial_id n = hex_digits 8 n []

hex_digits-hex : (k n : ℕ) (out : Str) → all_hex out ≡ true → all_hex (hex_digits k n out) ≡ true
unfolding hex_digits all_hex
hex_digits-hex zero n out h = h
hex_digits-hex (suc k) n out h = hex_digits-hex k (n / 16) (hex_digit (n % 16) ∷ out) (ground arith)

length-hex_digits : (k n : ℕ) (out : Str) → length (hex_digits k n out) ≡ k + length out
unfolding hex_digits
length-hex_digits zero n out = omega arith
length-hex_digits (suc k) n out =
    length-hex_digits k (n / 16) (hex_digit (n % 16) ∷ out) ∙ omega arith

pub is_trial_id-trial_id : (n : ℕ) → is_trial_id (trial_id n) ≡ true
unfolding is_trial_id trial_id
is_trial_id-trial_id n =
    ground (arith, hex_digits-hex 8 n [] (unfold all_hex in refl), length-hex_digits 8 n [])

pub data Loaded : Type 0 where
  no_file load_failed : Loaded
  loaded : TrialRecord → Loaded

-- `loadTrial`
unfoldable pub load_trial : Current → Loaded
unfolding is_trial_id
load_trial no_trial = no_file
load_trial unreadable = load_failed
load_trial (trial rec) = if is_trial_id rec.id then loaded rec else load_failed

-- `FwTrialPending`, where a directory is configured
abbrev pub has_current : Current → Bool
has_current no_trial = false
has_current _ = true

module _ {W : Type 0} (h : Host W) where
  -- `trialBackend`: the backend as the record has it
  abbrev pub trial_backend : TrialRecord → Backend W
  trial_backend rec = h.backend rec.backend rec.bin rec.zone

  -- `saveTrial` and `removeTrial`
  unfoldable pub save_trial : TrialRecord → St W → St W × Bool
  save_trial rec st =
      let (w, ok) = h.save_file rec st.world in
      if ok
      then (record st { world = w; current = trial rec }, true)
      else (record st { world = w }, false)

  unfoldable pub remove_trial : St W → St W × Bool
  remove_trial st =
      let (w, ok) = h.unlink st.world in
      if ok
      then (record st { world = w; current = no_trial }, true)
      else (record st { world = w }, false)

  abbrev pub timer_name : Str → Str
  timer_name id = codes "statix-fw-rollback-" ++ id ++ codes ".timer"

  -- `stopLayer1`
  unfoldable pub stop_layer1 : TrialRecord → St W → St W
  stop_layer1 rec st = if not rec.layer1 then st else record st {
    world = (h.run (codes "systemctl" ∷ codes "stop" ∷ timer_name rec.id ∷ []) st.world).0;
  }

  -- `trialWindow`, in seconds
  unfoldable pub window_seconds : ℕ
  window_seconds = min (max (if h.trial_seconds == 0 then 120 else h.trial_seconds) 60) 600
