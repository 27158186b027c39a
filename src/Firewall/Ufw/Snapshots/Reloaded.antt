-- ===== src/Firewall/Ufw/Snapshots/Reloaded.antt =====
-- A snapshot is read back as it was taken.
use statixagent.Prelude.{
  ◌≡◌, refl, ◌∙◌, sym, ap, inl, inr, true, false, not, Option, none, some, List, ◌∷◌, ◌==◌, str_eq,
  mem?, Bool-cases, arith, if◌then◌else◌, if-both, if-split,
}
use mathlib.Core.Path.{subst}
use statixagent.Prelude.Text.{Str, codes}
use statixagent.Prelude.Map.{Map, get, is_some}
use statixagent.StateFile.{no_such, contents, write_state_file}
use statixagent.Netip.{NetText}
use statixagent.Firewall.Plan.{spec_eq}
use statixagent.Firewall.Shown.{parse_show_added}
use statixagent.Firewall.Trial.{Snap}
use statixagent.Firewall.Ufw.{
  is_cmd_ok, Machine, Ufw, user_rules, ufw_rule_files, snap_status_file, snap_added_file,
  read_files, write_files, ufw, status_args, added_args,
}
use statixagent.Firewall.Ufw.Snapshots.{
  added_in, snap_of, has_user_rules, load_snap, snapshot_added, snapshot_files, snapshot_status,
  snapshot_read, snapshot,
}
use statixagent.Firewall.Ufw.Snapshots.Files.{as_read, read_files-same, read_files-get}
use statixagent.Firewall.Ufw.Snapshots.Written.{
  FileLaws, state_names, known_bin, ufw-known_bin, unwritten-read, over, ufw-read, write-read,
  write_files-read,
}
use statixagent.Firewall.Ufw.Snapshots.Held.{
  of_rules, undo_not, last_of, same_name, is_rule_file-ne, has_user_rules-some, Holds, into_Holds,
  load_snap-Holds, keeps-Holds, add-Holds,
}

module _ {W : Type 0} (m : Machine W) (dir : Str) (laws : FileLaws m dir) (net : NetText) where
  -- A snapshot that was taken is read back.
  abbrev Loads : Ufw W × Option Snap → Type 0
  Loads r = (snap : Snap) → r.1 ≡ some snap → load_snap m net dir r.0.world ≡ some snap

  nothing : (fw : Ufw W) → Loads (fw, none)
  nothing fw snap e = ground (arith, e)

  loads :
      (fw : Ufw W) (files : Map Str Str) (status : Str) (added : Option (List (List Str)))
      → is_some (get files user_rules) ≡ true
      → Holds m dir laws net files status added fw.world
      → Loads (fw, some (snap_of m net files status added))
  loads fw files status added there held snap e =
      load_snap-Holds m dir laws net files status added fw.world there held ∙ e

  snapshot_added-Loads :
      (files : Map Str Str) (status : Str) (fw : Ufw W)
      → is_some (get files user_rules) ≡ true
      → Holds m dir laws net files status none fw.world
      → m.files.read_at (m.path dir snap_added_file) fw.world ≡ no_such
      → known_bin fw.bin ≡ true
      → Loads (snapshot_added m net dir files status fw)
  unfolding snapshot_added
  snapshot_added-Loads files status fw there held fresh known =
      let (fw1, run) = ufw m added_args fw in
      let held1 =
        keeps-Holds m dir laws net files status none fw.world fw1.world
          (λ n within. ufw-read m dir laws n added_args fw refl within known) held in
      let wrote = write_state_file m.files (m.path dir snap_added_file) run.out fw1.world in
      let fw2 = record fw1 { world = wrote.0 } in
      let unwritten = λ (failed : wrote.1 ≡ false).
        keeps-Holds m dir laws net files status none fw1.world wrote.0
          (λ n within.
            unwritten-read m dir laws snap_added_file n run.out fw1.world refl within failed)
          held1 in
      if-both Loads (is_cmd_ok run.end) _ (fw1, some (snap_of m net files status none))
        (if-split
          (λ (a : Option (List (List Str))). Loads (fw2, some (snap_of m net files status a)))
          wrote.1 (some (parse_show_added run.out)) none
          (λ ok.
            loads fw2 files status (some (parse_show_added run.out)) there
              (add-Holds m dir laws net files status run.out none fw1.world ok held1))
          (λ failed. loads fw2 files status none there (unwritten failed)))
        (loads fw1 files status none there held1)

  over-as_read : (o : Option Str) → over o no_such ≡ as_read o
  over-as_read none = refl
  over-as_read (some data_) = refl

  snapshot_files-Loads :
      (rules_dir status : Str) (files : Map Str Str) (w : W) (fw : Ufw W)
      → read_files m rules_dir ufw_rule_files w ≡ some files
      → is_some (get files user_rules) ≡ true
      → ((n : Str)
          → mem? n (snap_added_file ∷ ufw_rule_files) ≡ true
          → m.files.read_at (m.path dir n) fw.world ≡ no_such)
      → known_bin fw.bin ≡ true
      → Loads (snapshot_files m net dir files status fw)
  unfolding snapshot_files
  snapshot_files-Loads rules_dir status files w fw was there fresh known =
      let (w1, made) = m.mkdir dir fw.world in
      let copied = write_files m dir ufw_rule_files files w1 in
      let noted = write_state_file m.files (m.path dir snap_status_file) status copied.0 in
      let fw3 = record fw { world = noted.0 } in
      let fresh1 = λ (n : Str) (new : mem? n (snap_added_file ∷ ufw_rule_files) ≡ true).
        laws.read_mkdir n fw.world (ground (arith, new)) ∙ fresh n new in
      let rules = λ (n : Str) (within : mem? n ufw_rule_files ≡ true) (ok : copied.1 ≡ true).
        write_files-read m dir laws n ufw_rule_files files w1 (of_rules n within) of_rules ok
        ∙ ap
            (λ b.
              if b
              then over (get files n) (m.files.read_at (m.path dir n) w1)
              else m.files.read_at (m.path dir n) w1)
            within
        ∙ ap (over (get files n)) (fresh1 n (ground (arith, within)))
        ∙ over-as_read (get files n)
        ∙ sym (read_files-get m rules_dir n ufw_rule_files w files was)
        ∙ ap (λ b. if b then m.files.read_at (m.path rules_dir n) w else no_such) within in
      let beside =
        λ (n : Str) (within : mem? n state_names ≡ true) (other : (snap_status_file == n) ≡ false)
            (ok : noted.1 ≡ true).
          write-read m dir laws snap_status_file n status copied.0 refl within ok
          ∙ ap (λ b. if b then contents status else m.files.read_at (m.path dir n) copied.0)
              other in
      let no_added = λ (ok : copied.1 ≡ true).
        write_files-read m dir laws snap_added_file ufw_rule_files files w1 refl of_rules ok
        ∙ fresh1 snap_added_file refl in
      let into = into_Holds m dir laws net files status none in
      let held = λ (c : copied.1 ≡ true) (n : noted.1 ≡ true).
        into noted.0
          (read_files-same m rules_dir dir ufw_rule_files w noted.0 (λ name within.
              beside name (of_rules name within) (is_rule_file-ne snap_status_file name refl within)
                n
              ∙ rules name within c)
            ∙ was)
          (write-read m dir laws snap_status_file snap_status_file status copied.0 refl refl n)
          (ap added_in (beside snap_added_file refl refl n ∙ no_added c)) in
      if-both Loads (not made) (record fw { world = w1 }, none) _
        (nothing (record fw { world = w1 }))
        (if-split Loads (not copied.1) (record fw { world = copied.0 }, none) _
          (λ _. nothing (record fw { world = copied.0 }))
          (λ c.
            if-split Loads (not noted.1) (fw3, none) _ (λ _. nothing fw3)
              (λ n.
                snapshot_added-Loads files status fw3 there (held (undo_not c) (undo_not n))
                  (beside snap_added_file refl refl (undo_not n) ∙ no_added (undo_not c)) known)))

  snapshot_status-Loads :
      (rules_dir : Str) (files : Map Str Str) (fw : Ufw W)
      → read_files m rules_dir ufw_rule_files fw.world ≡ some files
      → is_some (get files user_rules) ≡ true
      → ((n : Str)
          → mem? n (snap_added_file ∷ ufw_rule_files) ≡ true
          → m.files.read_at (m.path dir n) fw.world ≡ no_such)
      → known_bin fw.bin ≡ true
      → Loads (snapshot_status m net dir files fw)
  unfolding snapshot_status
  snapshot_status-Loads rules_dir files fw was there fresh known =
      let (fw', run) = ufw m status_args fw in
      if-both Loads (is_cmd_ok run.end) _ (fw', none)
        (snapshot_files-Loads rules_dir run.out files fw.world fw' was there
          (λ n new.
            ufw-read m dir laws n status_args fw refl (ground (arith, new)) known ∙ fresh n new)
          (ufw-known_bin m status_args fw known))
        (nothing fw')

  fresh_name :
      (w : W)
      → m.files.read_at (m.path dir user_rules) w ≡ no_such
      → m.files.read_at (m.path dir (codes "user6.rules")) w ≡ no_such
      → m.files.read_at (m.path dir snap_added_file) w ≡ no_such
      → (n : Str) → mem? n (snap_added_file ∷ ufw_rule_files) ≡ true
      → m.files.read_at (m.path dir n) w ≡ no_such
  fresh_name w no_rules no_rules6 no_added n within = elim (Bool-cases (snap_added_file == n)) [
    | inl added ↦
        subst (λ k. m.files.read_at (m.path dir k) w ≡ no_such) (same_name snap_added_file n added)
          no_added
    | inr not_added ↦ elim (Bool-cases (user_rules == n)) [
      | inl rules ↦
          subst (λ k. m.files.read_at (m.path dir k) w ≡ no_such) (same_name user_rules n rules)
            no_rules
      | inr not_rules ↦
          subst (λ k. m.files.read_at (m.path dir k) w ≡ no_such)
            (same_name (codes "user6.rules") n (
              last_of (snap_added_file == n) (user_rules == n) (codes "user6.rules" == n) not_added
                not_rules within))
            no_rules6
    ]
  ]

  snapshot_read-Loads :
      (rules_dir : Str) (fw : Ufw W) (o : Option (Map Str Str))
      → has_user_rules (read_files m rules_dir ufw_rule_files fw.world) ≡ o
      → ((n : Str)
          → mem? n (snap_added_file ∷ ufw_rule_files) ≡ true
          → m.files.read_at (m.path dir n) fw.world ≡ no_such)
      → known_bin fw.bin ≡ true
      → Loads (snapshot_read m net dir fw o)
  unfolding snapshot_read
  snapshot_read-Loads rules_dir fw none is_o fresh known = nothing fw
  snapshot_read-Loads rules_dir fw (some files) is_o fresh known =
      let (was, there) =
        has_user_rules-some (read_files m rules_dir ufw_rule_files fw.world) files is_o in
      snapshot_status-Loads rules_dir files fw was there fresh known

  -- Where the files of the directory are replaced as the file system promises, and ufw's listing commands
  -- change none of them: a snapshot that was taken into a directory without rules or specs, by one of the
  -- binaries that are tried, is read back as it was taken: the same files, status text and listed specs, and
  -- so the same hash.
  pub load_snap-snapshot :
      (rules_dir : Str) (fw : Ufw W) (snap : Snap)
      → known_bin fw.bin ≡ true
      → m.files.read_at (m.path dir user_rules) fw.world ≡ no_such
      → m.files.read_at (m.path dir (codes "user6.rules")) fw.world ≡ no_such
      → m.files.read_at (m.path dir snap_added_file) fw.world ≡ no_such
      → (snapshot m net rules_dir dir fw).1 ≡ some snap
      → load_snap m net dir (snapshot m net rules_dir dir fw).0.world ≡ some snap
  unfolding snapshot
  load_snap-snapshot rules_dir fw snap known no_rules no_rules6 no_added e =
      snapshot_read-Loads rules_dir fw
        (has_user_rules (read_files m rules_dir ufw_rule_files fw.world)) refl
        (fresh_name fw.world no_rules no_rules6 no_added) known snap e
