-- ===== src/Firewall/Ufw/Snapshots.antt =====
-- internal/agent/fwbackend.go and firewall.go: the probe of ufw, its snapshots, and what the dead-man switch
-- calls of it.
pub mod Files
pub mod Written
pub mod Held
pub mod Reloaded
pub mod Restored
use statixagent.Prelude.{
  ℕ, Bool, true, false, not, ◌&&◌, Option, none, some, List, [], ◌∷◌, ◌++◌, ◌==◌, str_eq, length,
  mem?, if◌then◌else◌,
}
use statixagent.Prelude.Text.{Str, codes}
use statixagent.Prelude.Map.{Map, get, is_some}
use statixagent.StateFile.{FileRead, contents, write_state_file}
use statixagent.Netip.{NetText}
use statixagent.Firewall.Rules.{Status, verdict}
use statixagent.Firewall.Rows.{parse_ufw_output, no_status}
use statixagent.Firewall.Shown.{parse_show_added}
use statixagent.Firewall.Trial.{
  ProbeState, probe_missing, probe_unusable, probe_inactive, probe_unparsed, Probe, manageable,
  Snap, Backend,
}
use statixagent.Firewall.Ufw.{
  CmdEnd, cmd_ok, cmd_missing, cmd_failed, CmdOut, is_cmd_ok, text_or_empty, Machine, Ufw,
  ufw_paths, user_rules, ufw_rule_files, snap_status_file, snap_added_file, fw_state,
  hash_rule_files, read_files, write_files, ufw, reload, reload_args, status_args, added_args,
  apply, revert, commit,
}

abbrev pub added_in : FileRead → Option (List (List Str))
added_in (contents text) = some (parse_show_added text)
added_in _ = none

abbrev pub has_user_rules : Option (Map Str Str) → Option (Map Str Str)
has_user_rules none = none
has_user_rules (some files) = if is_some (get files user_rules) then some files else none

module _ {W : Type 0} (m : Machine W) (net : NetText) where
  -- `parseUFWStatus`
  unfoldable pub parse_ufw_status : Str → ProbeState
  unfolding verdict parse_ufw_output
  parse_ufw_status out =
      let s = parse_ufw_output net out in
      if not s.found
      then probe_unparsed
      else if not s.active
      then probe_inactive
      else fw_state (verdict s 22 false none).state

  abbrev pub refine : Probe → Status → Probe
  refine p s =
      if s.active then record { state = fw_state (verdict s 22 false none).state; fw = s } else p

  abbrev pub refined_by : Probe → CmdOut → Probe
  refined_by p run = if is_cmd_ok run.end then refine p (parse_ufw_output net run.out) else p

  -- `probeUFWVerbose`
  unfoldable pub probe_ufw_verbose : Str → Probe → W → W × Probe
  unfolding parse_ufw_output verdict
  probe_ufw_verbose bin p w = let (w', run) = m.exec bin status_args w in (w', refined_by p run)

  abbrev pub of_state : ProbeState → Probe
  of_state s = record { state = s; fw = no_status }

  abbrev pub plain : Str → Probe
  plain out = record { state = parse_ufw_status out; fw = parse_ufw_output net out }

  abbrev pub probed : Str → Str → W → W × Probe × Str
  probed bin out w =
      let p = plain out in
      let (w', p') = probe_ufw_verbose bin p w in
      if manageable p then (w', p', bin) else (w, p, bin)

  -- `probeUFW`, with the binary that probed
  unfoldable pub probe_ufw : List Str → W → W × Probe × Str
  unfolding parse_ufw_status parse_ufw_output probe_ufw_verbose manageable
  probe_ufw [] w = (w, of_state probe_missing, [])
  probe_ufw (bin ∷ bins) w =
      let (w', run) = m.exec bin (codes "status" ∷ []) w in
      let rest = probe_ufw bins w' in
      elim run.end [
        | cmd_ok ↦ probed bin run.out w'
        | cmd_missing ↦ rest
        | cmd_failed ↦ (w', of_state probe_unusable, bin)
      ]

  -- `Probe`
  unfoldable pub probe : Ufw W → Ufw W × Probe
  unfolding probe_ufw
  probe fw =
      let (w, p, bin) = probe_ufw ufw_paths fw.world in
      (record { world = w; bin = if bin == [] then fw.bin else bin }, p)

  abbrev pub snap_of : Map Str Str → Str → Option (List (List Str)) → Snap
  snap_of files status added = record {
    files = files;
    status = status;
    sha = hash_rule_files m files;
    fw = parse_ufw_output net status;
    added = added;
  }

  -- `loadSnap`
  unfoldable pub load_snap : Str → W → Option Snap
  unfolding read_files get parse_show_added parse_ufw_output hash_rule_files
  load_snap dir w = elim (has_user_rules (read_files m dir ufw_rule_files w)) [
    | none ↦ none
    | some files ↦ some (
        snap_of files (text_or_empty (m.files.read_at (m.path dir snap_status_file) w))
          (added_in (m.files.read_at (m.path dir snap_added_file) w)))
  ]

  abbrev pub when : Bool → Option Snap → Option Snap
  when b s = if b then s else none

  -- The specs of the rules, when they can be listed and written.
  unfoldable pub snapshot_added : Str → Map Str Str → Str → Ufw W → Ufw W × Option Snap
  unfolding ufw parse_show_added parse_ufw_output hash_rule_files
  snapshot_added dir files status fw =
      let (fw', run) = ufw m added_args fw in
      let (w, ok) = write_state_file m.files (m.path dir snap_added_file) run.out fw'.world in
      if is_cmd_ok run.end
      then (
        record fw' { world = w },
        some (snap_of files status (if ok then some (parse_show_added run.out) else none)),
      )
      else (fw', some (snap_of files status none))

  -- The directory, the files and the status.
  unfoldable pub snapshot_files : Str → Map Str Str → Str → Ufw W → Ufw W × Option Snap
  unfolding write_files snapshot_added
  snapshot_files dir files status fw =
      let (w1, made) = m.mkdir dir fw.world in
      let (w2, copied) = write_files m dir ufw_rule_files files w1 in
      let (w3, noted) = write_state_file m.files (m.path dir snap_status_file) status w2 in
      let done = snapshot_added dir files status (record fw { world = w3 }) in
      if not made
      then (record fw { world = w1 }, none)
      else if not copied
      then (record fw { world = w2 }, none)
      else if not noted
      then (record fw { world = w3 }, none)
      else done

  unfoldable pub snapshot_status : Str → Map Str Str → Ufw W → Ufw W × Option Snap
  unfolding ufw snapshot_files
  snapshot_status dir files fw =
      let (fw', run) = ufw m status_args fw in
      let done = snapshot_files dir files run.out fw' in
      if is_cmd_ok run.end then done else (fw', none)

  unfoldable pub snapshot_read : Str → Ufw W → Option (Map Str Str) → Ufw W × Option Snap
  unfolding snapshot_status
  snapshot_read dir fw none = (fw, none)
  snapshot_read dir fw (some files) = snapshot_status dir files fw

  -- `Snapshot` of the rules in `rules_dir` into `dir`
  unfoldable pub snapshot : Str → Str → Ufw W → Ufw W × Option Snap
  unfolding read_files snapshot_read get
  snapshot rules_dir dir fw =
      snapshot_read dir fw (has_user_rules (read_files m rules_dir ufw_rule_files fw.world))

  -- `Hash`
  unfoldable pub hash : Str → Ufw W → Ufw W × Option Str
  unfolding read_files hash_rule_files
  hash rules_dir fw = elim (read_files m rules_dir ufw_rule_files fw.world) [
    | none ↦ (fw, none)
    | some files ↦ (fw, some (hash_rule_files m files))
  ]

  -- `Restore`
  unfoldable pub restore : Str → Snap → Ufw W → Ufw W × Bool
  unfolding write_files reload
  restore rules_dir snap fw =
      let (w, ok) = write_files m rules_dir ufw_rule_files snap.files fw.world in
      let done = reload m (record fw { world = w }) in
      if ok then done else (record fw { world = w }, false)

  -- ufw as what the dead-man switch calls, with the directory of a snapshot.
  abbrev pub ufw_backend : Str → (Str → Str) → Str → Backend (Ufw W)
  ufw_backend rules_dir snap_dir bin = record {
    name = codes "ufw";
    bin = bin;
    zone = [];
    probe = probe;
    snapshot = λ id fw. snapshot rules_dir (snap_dir id) fw;
    readable = λ id fw. is_some (load_snap (snap_dir id) fw.world);
    hash = hash rules_dir;
    apply = apply m;
    revert = revert m;
    commit = commit m;
    restore = restore rules_dir;
  }
