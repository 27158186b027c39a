-- ===== src/Firewall/Ufw/Snapshots/Held.antt =====
-- A directory that has a snapshot.
use statixagent.Prelude.{
  ◌≡◌, refl, ◌∙◌, sym, ap, inl, inr, Bool, true, false, not, ◌||◌, Option, none, some, List, [],
  ◌==◌, ==_iff, str_eq, mem?, Bool-cases, arith, if◌then◌else◌, if-split,
}
use mathlib.Core.Path.{subst}
use statixagent.Prelude.Text.{Str}
use statixagent.Prelude.Map.{Map, get, is_some, or_else}
use statixagent.StateFile.{contents, write_state_file}
use statixagent.Netip.{NetText}
use statixagent.Firewall.Plan.{spec_eq}
use statixagent.Firewall.Shown.{parse_show_added}
use statixagent.Firewall.Ufw.{
  Machine, user_rules, ufw_rule_files, snap_status_file, snap_added_file, read_files,
}
use statixagent.Firewall.Ufw.Snapshots.{added_in, snap_of, has_user_rules, load_snap}
use statixagent.Firewall.Ufw.Snapshots.Files.{read_files-same}
use statixagent.Firewall.Ufw.Snapshots.Written.{FileLaws, state_names, write-read}

pub undo_not : {b : Bool} → not b ≡ false → b ≡ true
undo_not e = ground (arith, e)

pub last_of : (a b c : Bool) → a ≡ false → b ≡ false → (a || (b || (c || false))) ≡ true → c ≡ true
last_of a b c not_a not_b some_one = ground (arith, not_a, not_b, some_one)

pub same_name : (a b : Str) → (a == b) ≡ true → a ≡ b
same_name a b e = ground (arith, e, ==_iff a b)

pub is_rule_file-ne :
    (other n : Str)
    → mem? other ufw_rule_files ≡ false
    → mem? n ufw_rule_files ≡ true
    → (other == n) ≡ false
is_rule_file-ne other n out within = elim (Bool-cases (other == n)) [
  | inl same ↦
      let within' =
        subst (λ k. mem? k ufw_rule_files ≡ true) (sym (same_name other n same)) within in
      ground (arith, out, within')
  | inr differs ↦ differs
]

pub has_user_rules-some :
    (o : Option (Map Str Str)) (files : Map Str Str)
    → has_user_rules o ≡ some files
    → (o ≡ some files) × (is_some (get files user_rules) ≡ true)
has_user_rules-some none files e = ground (arith, e)
has_user_rules-some (some fs) files e =
    if-split
      (λ (o : Option (Map Str Str)).
        o ≡ some files → (some fs ≡ some files) × (is_some (get files user_rules) ≡ true))
      (is_some (get fs user_rules)) (some fs) none
      (λ there same. (same, ap (λ o. is_some (get (or_else o []) user_rules)) (sym same) ∙ there))
      (λ _ same. ground (arith, same)) e

pub of_rules : (n : Str) → mem? n ufw_rule_files ≡ true → mem? n state_names ≡ true
of_rules n within = ground (arith, within)

module _ {W : Type 0} (m : Machine W) (dir : Str) (laws : FileLaws m dir) (net : NetText) where
  -- The directory has a snapshot.
  abbrev pub Holds : Map Str Str → Str → Option (List (List Str)) → W → Type 0
  Holds files status added w =
      (read_files m dir ufw_rule_files w ≡ some files)
      × (m.files.read_at (m.path dir snap_status_file) w ≡ contents status)
      × (added_in (m.files.read_at (m.path dir snap_added_file) w) ≡ added)

  pub into_Holds :
      (files : Map Str Str) (status : Str) (added : Option (List (List Str))) (w : W)
      → read_files m dir ufw_rule_files w ≡ some files
      → m.files.read_at (m.path dir snap_status_file) w ≡ contents status
      → added_in (m.files.read_at (m.path dir snap_added_file) w) ≡ added
      → Holds files status added w
  into_Holds files status added w rules stat add = (rules, stat, add)

  pub load_snap-Holds :
      (files : Map Str Str) (status : Str) (added : Option (List (List Str))) (w : W)
      → is_some (get files user_rules) ≡ true
      → Holds files status added w
      → load_snap m net dir w ≡ some (snap_of m net files status added)
  unfolding load_snap
  load_snap-Holds files status added w there (rules, stat, add) =
      rw (load_snap, rules, there, stat, add) refl

  -- It stays where its files read the same.
  pub keeps-Holds :
      (files : Map Str Str) (status : Str) (added : Option (List (List Str))) (w w' : W)
      → ((n : Str)
          → mem? n state_names ≡ true
          → m.files.read_at (m.path dir n) w' ≡ m.files.read_at (m.path dir n) w)
      → Holds files status added w
      → Holds files status added w'
  keeps-Holds files status added w w' same (rules, stat, add) = (
    read_files-same m dir dir ufw_rule_files w w' (λ n within. same n (of_rules n within)) ∙ rules,
    same snap_status_file refl ∙ stat,
    ap added_in (same snap_added_file refl) ∙ add,
  )

  -- Writing the specs.
  pub add-Holds :
      (files : Map Str Str) (status text : Str) (added : Option (List (List Str))) (w : W)
      → (write_state_file m.files (m.path dir snap_added_file) text w).1 ≡ true
      → Holds files status added w
      → Holds files status
          (some (parse_show_added text))
          (write_state_file m.files (m.path dir snap_added_file) text w).0
  add-Holds files status text added w ok (rules, stat, add) =
      let w' = (write_state_file m.files (m.path dir snap_added_file) text w).0 in
      let other = λ (n : Str) (within : mem? n ufw_rule_files ≡ true).
        write-read m dir laws snap_added_file n text w refl (of_rules n within) ok
        ∙ ap (λ b. if b then contents text else m.files.read_at (m.path dir n) w)
            (is_rule_file-ne snap_added_file n refl within) in
      (
        read_files-same m dir dir ufw_rule_files w w' other ∙ rules,
        write-read m dir laws snap_added_file snap_status_file text w refl refl ok ∙ stat,
        ap added_in (write-read m dir laws snap_added_file snap_added_file text w refl refl ok),
      )
