-- ===== src/Firewall/Ufw.antt =====
-- internal/agent/fwbackend.go: `ufwBackend`, and the probe of internal/agent/firewall.go. What runs commands,
-- reads and writes files and digests bytes is an interface on a world of any type; each of its calls may
-- fail, and a command may change the world in any way. `fw.bin` is the binary that probed, empty before one
-- did.
pub mod Snapshots
mod Examples
use statixagent.Prelude.{
  ℕ, Bool, true, false, not, ◌&&◌, Option, none, some, List, [], ◌∷◌, ◌++◌, ◌==◌, str_eq, length,
  mem?, if◌then◌else◌,
}
use statixagent.Prelude.Text.{Str, codes}
use statixagent.Prelude.Decimal.{itoa}
use statixagent.Prelude.Map.{Map, get, is_some}
use statixagent.StateFile.{FileRead, no_such, unreadable_file, contents, Files, write_state_file}
use statixagent.Netip.{NetText}
use statixagent.Firewall.Rules.{Status, PortState, fw_open, fw_closed, fw_unmanaged, verdict}
use statixagent.Firewall.Rows.{parse_ufw_output, no_status}
use statixagent.Firewall.Simulate.{Change}
use statixagent.Firewall.SshPlan.{argv}
use statixagent.Firewall.Plan.{inverse}
use statixagent.Firewall.Shown.{parse_show_added}
use statixagent.Firewall.Trial.{
  ProbeState, probe_missing, probe_unusable, probe_inactive, probe_unparsed, probe_open,
  probe_closed, probe_unmanaged, Probe, manageable, Snap, Backend,
}

-- How a command went: it ran, it is not there, or it failed otherwise; with what it printed.
pub data CmdEnd : Type 0 where
  cmd_ok cmd_missing cmd_failed : CmdEnd

pub record CmdOut : Type 0 where
  pub out : Str
  pub end : CmdEnd

abbrev pub is_cmd_ok : CmdEnd → Bool
is_cmd_ok cmd_ok = true
is_cmd_ok _ = false

-- `notFound`
abbrev pub not_found : CmdEnd → Bool
not_found cmd_missing = true
not_found _ = false

abbrev pub text_or_empty : FileRead → Str
text_or_empty (contents text) = text
text_or_empty _ = []

-- `services.Runner`, the file system, `os.MkdirAll` and SHA-256 in hexadecimal
pub record Machine (W : Type 0) : Type 0 where
  pub exec : Str → List Str → W → W × CmdOut
  pub files : Files W
  -- `filepath.Join`
  pub path : Str → Str → Str
  pub mkdir : Str → W → W × Bool
  pub digest : Str → Str

-- `ufwBackend`, the part that changes
pub record Ufw (W : Type 0) : Type 0 where
  pub world : W
  pub bin : Str

abbrev pub ufw_paths : List Str
ufw_paths = codes "ufw" ∷ codes "/usr/sbin/ufw" ∷ codes "/sbin/ufw" ∷ []

abbrev pub user_rules : Str
user_rules = codes "user.rules"

abbrev pub ufw_rule_files : List Str
ufw_rule_files = user_rules ∷ codes "user6.rules" ∷ []

abbrev pub snap_status_file : Str
snap_status_file = codes "status.txt"

abbrev pub snap_added_file : Str
snap_added_file = codes "added.txt"

-- What `hashRuleFiles` digests: the names, and the lengths and contents of those that are there.
unfoldable pub hashed : List Str → Map Str Str → Str
unfolding get
hashed [] files = []
hashed (name ∷ names) files =
    elim (get files name) [
      | none ↦ name ++ 0 ∷ b'-' ∷ 0 ∷ []
      | some data_ ↦ name ++ 0 ∷ itoa (length data_) ++ 0 ∷ data_
    ]
    ++ hashed names files

abbrev pub reload_args : List Str
reload_args = codes "reload" ∷ []

abbrev pub status_args : List Str
status_args = codes "status" ∷ codes "verbose" ∷ []

abbrev pub added_args : List Str
added_args = codes "show" ∷ codes "added" ∷ []

abbrev pub fw_state : PortState → ProbeState
fw_state fw_open = probe_open
fw_state fw_closed = probe_closed
fw_state fw_unmanaged = probe_unmanaged

module _ {W : Type 0} (m : Machine W) where
  unfoldable pub hash_rule_files : Map Str Str → Str
  unfolding hashed
  hash_rule_files files = m.digest (hashed ufw_rule_files files)

  abbrev pub add_file : Str → FileRead → Option (Map Str Str) → Option (Map Str Str)
  add_file name unreadable_file rest = none
  add_file name no_such rest = rest
  add_file name (contents data_) none = none
  add_file name (contents data_) (some files) = some ((name, data_) ∷ files)

  -- `readRuleFiles` of the names
  unfoldable pub read_files : Str → List Str → W → Option (Map Str Str)
  read_files dir [] w = some []
  read_files dir (name ∷ names) w =
      add_file name (m.files.read_at (m.path dir name) w) (read_files dir names w)

  abbrev pub write_file : Str → Str → Option Str → W → W × Bool
  write_file dir name none w = (w, true)
  write_file dir name (some data_) w = write_state_file m.files (m.path dir name) data_ w

  -- Write the files that are there, and stop at a failure. `Restore` and `Snapshot` do this; the order of
  -- `Snapshot` is any, which matters only where a write fails.
  unfoldable pub write_files : Str → List Str → Map Str Str → W → W × Bool
  unfolding get
  write_files dir [] files w = (w, true)
  write_files dir (name ∷ names) files w =
      let (w', ok) = write_file dir name (get files name) w in
      let rest = write_files dir names files w' in if ok then rest else (w', false)

  -- The first binary that is there.
  unfoldable pub find_bin : List Str → W → W × Str
  find_bin [] w = (w, codes "ufw")
  find_bin (bin ∷ bins) w =
      let (w', run) = m.exec bin (codes "version" ∷ []) w in
      let rest = find_bin bins w' in if not_found run.end then rest else (w', bin)

  -- `ufw`
  unfoldable pub ufw : List Str → Ufw W → Ufw W × CmdOut
  unfolding find_bin
  ufw args fw =
      let (w, bin) = if fw.bin == [] then find_bin ufw_paths fw.world else (fw.world, fw.bin) in
      let (w', run) = m.exec bin args w in (record { world = w'; bin = bin }, run)

  -- Commands one after the other, to the first that fails.
  unfoldable pub run_all : List (List Str) → Ufw W → Ufw W × Bool
  unfolding ufw
  run_all [] fw = (fw, true)
  run_all (args ∷ more) fw =
      let (fw', run) = ufw args fw in
      let rest = run_all more fw' in if is_cmd_ok run.end then rest else (fw', false)

  unfoldable pub reload : Ufw W → Ufw W × Bool
  unfolding ufw
  reload fw = let (fw', run) = ufw reload_args fw in (fw', is_cmd_ok run.end)

  -- The changes, then a reload.
  abbrev pub plan_args : List Change → List (List Str)
  plan_args [] = reload_args ∷ []
  plan_args (c ∷ plan) = argv c ∷ plan_args plan

  -- `Apply`
  unfoldable pub apply : List Change → Ufw W → Ufw W × Bool
  unfolding run_all
  apply plan fw = run_all (plan_args plan) fw

  -- The changes, whether they fail or not.
  unfoldable pub try_changes : List Change → Ufw W → Ufw W
  unfolding ufw argv
  try_changes [] fw = fw
  try_changes (c ∷ plan) fw = try_changes plan (ufw (argv c) fw).0

  -- `Revert`
  unfoldable pub revert : List Change → Ufw W → Ufw W × Bool
  unfolding try_changes inverse reload
  revert plan fw = reload (try_changes (inverse plan) fw)

  -- `Commit`
  abbrev pub commit : List Change → Ufw W → Ufw W × Bool
  commit plan fw = (fw, true)
