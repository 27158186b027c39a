-- ===== src/Firewall/Ufw/Snapshots/Restored.antt =====
-- Restoring a snapshot restores the hash of the rules.
use statixagent.Prelude.{◌≡◌, ap, Bool, true, Option, some, str_eq, mem?}
use statixagent.Prelude.Text.{Str}
use statixagent.Prelude.Map.{Map, get, is_some, or_else}
use statixagent.Netip.{NetText}
use statixagent.Firewall.Trial.{Snap}
use statixagent.Firewall.Ufw.{Machine, Ufw, user_rules, ufw_rule_files, hash_rule_files, read_files}
use statixagent.Firewall.Ufw.Snapshots.Files.{as_read}
use statixagent.Firewall.Ufw.Snapshots.Written.{FileLaws}

or_else_snap : (s : Snap) (o : Option Snap) → o ≡ some s → or_else o s ≡ s
or_else_snap s o e = ap (λ x. or_else x s) e

module _ {W : Type 0} (m : Machine W) (net : NetText) (dir : Str) where
  -- A snapshot of the files.
  abbrev Takes : Map Str Str → Ufw W × Option Snap → Type 0
  Takes files r =
      (snap : Snap) → r.1 ≡ some snap → (files ≡ snap.files) × (hash_rule_files m files ≡ snap.sha)

  -- What a snapshot has of the rules.
  abbrev Took : Str → W → Snap → Type 0
  Took rules_dir w snap =
      (read_files m rules_dir ufw_rule_files w ≡ some snap.files)
      × (is_some (get snap.files user_rules) ≡ true)
      × (hash_rule_files m snap.files ≡ snap.sha)

module _ {W : Type 0} (m : Machine W) (rules_dir : Str) (laws : FileLaws m rules_dir)
    (net : NetText) where
  -- The rule files read as in the snapshot.
  abbrev Restored : Snap → Ufw W × Bool → Type 0
  Restored snap r =
      r.1 ≡ true
      → (n : Str) → mem? n ufw_rule_files ≡ true
      → m.files.read_at (m.path rules_dir n) r.0.world ≡ as_read (get snap.files n)
