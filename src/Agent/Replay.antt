-- ===== src/Agent/Replay.antt =====
-- internal/agent/replay.go, the loop `botLoop` of agent.go and `Parse` of internal/bot/router.go: updates, and
-- the cursor that is saved before those that may change state. What an update does is an interface on a world
-- of any type. The saved cursor is part of the state, with the time that it was written; `ran` lists the
-- updates whose state-changing part was run, the newest first, which the program does not read.
pub mod Cursor
pub mod Once
use statixagent.Prelude.{
  ℕ, ◌+◌, ◌*◌, ◌^◌, Bool, true, false, not, ◌&&◌, ◌||◌, Option, none, some, List, [], ◌∷◌, ◌++◌,
  ◌==◌, nat_eq, str_eq, ltb, leb, mem?, if◌then◌else◌,
}
use statixagent.Prelude.Text.{Str, codes, cut, cut_prefix}
use statixagent.Prelude.Strings.{to_lower, fields, trim_space}
use statixagent.Prelude.Decimal.{itoa, atoi, max_int}
use statixagent.Prelude.Int.{ℤ, pos, negsuc}
use statixagent.Prelude.Time.{Time, before}
use statixagent.Agent.Authorize.{Sender, Verdict, allowed, ignored, admin_only, Gate, authorize}

-- `telegram.Update`; the ids of updates are positive.
pub record Update : Type 0 where
  pub id : ℕ
  pub text : Str
  pub date : Time
  pub callback : Option Str
  pub chat_id : ℤ
  pub from_id : ℤ
  pub chat_type : Str
  pub forwarded : Bool
  pub via_bot : Bool
  pub sender_chat : Bool

-- `write_offset` replaces the file or leaves it; `confirm` is a `getUpdates` without a wait.
pub record Outside (W : Type 0) : Type 0 where
  pub has_path : Bool
  pub now : W → Time
  pub write_offset : Str → W → W × Bool
  pub confirm : ℕ → W → W
  pub press : Update → W → W
  pub route : Update → W → W
  pub push : W → W

-- The file of the cursor: its text, and when it was written.
pub record OffsetFile : Type 0 where
  pub text : Str
  pub written : Time

pub record Bot (W : Type 0) : Type 0 where
  pub world : W
  pub offset : ℕ
  pub boot : Time
  pub gate : Gate
  pub file : Option OffsetFile
  pub ran : List ℕ

abbrev pub nanos : ℕ
nanos = 10 ^ 9

abbrev pub queued_grace : ℕ
queued_grace = 30 * nanos

abbrev pub offset_max_age : ℕ
offset_max_age = 24 * 3600 * nanos

abbrev pub view_commands : List Str
view_commands =
    codes "start"
    ∷ codes "help"
    ∷ codes "status"
    ∷ codes "cpu"
    ∷ codes "mem"
    ∷ codes "top"
    ∷ codes "digest"
    ∷ codes "disk"
    ∷ codes "net"
    ∷ codes "temp"
    ∷ codes "battery"
    ∷ codes "services"
    ∷ codes "docker"
    ∷ codes "ssh"
    ∷ codes "ping"
    ∷ codes "ssh_history"
    ∷ codes "ssh_fails"
    ∷ codes "trusted"
    ∷ codes "watching"
    ∷ codes "settings"
    ∷ codes "firewall"
    ∷ codes "metrics"
    ∷ codes "security"
    ∷ codes "services_scan"
    ∷ codes "ports_scan"
    ∷ []

abbrev pub no_args : List Str → Bool
no_args [] = true
no_args (a ∷ args) = false

-- `isView`
unfoldable pub is_view : Str → List Str → Bool
is_view cmd args =
    if cmd == codes "ssl" || cmd == codes "http" || cmd == codes "update"
    then no_args args
    else mem? cmd view_commands

abbrev pub command_of : List Str → Option (Str × List Str)
command_of [] = none
command_of ([] ∷ args) = none
command_of ((slash ∷ name) ∷ args) = some (to_lower (cut name b'@').0, args)

-- `Parse`; a text that begins with a slash has a first word, which begins with it.
unfoldable pub parse_command : Str → Option (Str × List Str)
unfolding fields to_lower cut cut_prefix
parse_command text = elim (cut_prefix text (codes "/")) [
  | none ↦ none
  | some rest ↦ command_of (fields text)
]

abbrev pub sender_of : Update → Sender
sender_of u = record {
  chat_id = u.chat_id;
  from_id = u.from_id;
  chat_type = u.chat_type;
  relayed = u.forwarded || u.via_bot || u.sender_chat;
}

-- `queued`
unfoldable pub queued : Time → Update → Bool
queued boot u = not (u.date == 0) && before (u.date + queued_grace) boot

abbrev pub offset_of : Option ℤ → ℕ
offset_of none = 0
offset_of (some (pos n)) = n
offset_of (some (negsuc n)) = 0

-- `loadOffset`, of a file that can be read or not
unfoldable pub load_offset : Bool → Time → Option OffsetFile → ℕ
unfolding trim_space atoi
load_offset readable now none = 0
load_offset readable now (some f) =
    if not readable || before (f.written + offset_max_age) now
    then 0
    else offset_of (atoi (trim_space f.text))

module _ {W : Type 0} (o : Outside W) where
  abbrev pub offset_text : ℕ → Str
  offset_text n = itoa n ++ 10 ∷ []

  -- `commitOffset`
  unfoldable pub commit_offset : Bot W → Bot W
  commit_offset st =
      let (w, ok) = o.write_offset (offset_text st.offset) st.world in
      let saved = record st {
        world = w;
        file = some (record { text = offset_text st.offset; written = o.now w });
      } in
      let asked = record st { world = o.confirm st.offset (if o.has_path then w else st.world) } in
      if o.has_path && ok then saved else asked

  -- A state-changing update, once the cursor is committed.
  unfoldable pub run_change : Update → (Update → W → W) → Bot W → Bot W
  unfolding commit_offset
  run_change u act st =
      let st' = commit_offset st in record st' { world = act u st'.world; ran = u.id ∷ st'.ran }

  abbrev pub run_view : Update → Bot W → Bot W
  run_view u st = record st { world = o.route u st.world }

  abbrev pub refuse : Bot W → Bot W
  refuse st = record st { world = o.push st.world }

  unfoldable pub run_command : Update → Bool → Verdict → Bot W → Bot W
  unfolding run_change queued
  run_command u view ignored st = st
  run_command u view admin_only st = refuse st
  run_command u view allowed st =
      let changed = run_change u o.route st in
      if view then run_view u st else if queued st.boot u then refuse st else changed

  unfoldable pub handle_text : Update → Option (Str × List Str) → Bot W → Bot W
  unfolding run_command authorize is_view
  handle_text u none st = st
  handle_text u (some (cmd, args)) st =
      let (gate, verdict) = authorize st.gate (sender_of u) (is_view cmd args) in
      run_command u (is_view cmd args) verdict (record st { gate = gate })

  -- `handleUpdate`
  unfoldable pub handle_update : Update → Bot W → Bot W
  unfolding run_change handle_text parse_command
  handle_update u st = elim u.callback [
    | some data_ ↦ run_change u o.press st
    | none ↦ handle_text u (parse_command u.text) st
  ]

  abbrev pub advance : ℕ → Bot W → Bot W
  advance id st = record st { offset = if leb st.offset id then id + 1 else st.offset }

  -- `botLoop`, of the updates of one poll
  unfoldable pub handle_all : List Update → Bot W → Bot W
  unfolding handle_update
  handle_all [] st = st
  handle_all (u ∷ ups) st = handle_all ups (handle_update u (advance u.id st))

  -- A new process, whose clock starts at `boot`.
  unfoldable pub restart : Bool → Bot W → Bot W
  unfolding load_offset
  restart readable st = record st {
    offset = load_offset readable (o.now st.world) st.file;
    boot = o.now st.world;
    gate = record st.gate { group_notice_sent = false };
  }

-- What may happen to the agent: a poll gives updates, it is started again, or the rest of the world changes.
pub data BotEvent (W : Type 0) : Type 0 where
  polled : List Update → BotEvent W
  restarted : Bool → BotEvent W
  elsewhere : W → BotEvent W

module _ {W : Type 0} (o : Outside W) where
  unfoldable pub happens : BotEvent W → Bot W → Bot W
  unfolding handle_all restart
  happens (polled ups) st = handle_all o ups st
  happens (restarted readable) st = restart o readable st
  happens (elsewhere w) st = record st { world = w }

  unfoldable pub run_bot : List (BotEvent W) → Bot W → Bot W
  unfolding happens
  run_bot [] st = st
  run_bot (e ∷ es) st = run_bot es (happens e st)
