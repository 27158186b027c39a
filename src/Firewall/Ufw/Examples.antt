-- ===== src/Firewall/Ufw/Examples.antt =====
-- ufw on a machine whose world is its files.
use statixagent.Prelude.{
  ◌≡◌, refl, sym, ◌∙◌, ap, inl, inr, Bool, true, false, Bool-cases, ==_iff, Option, none, some, [],
  ◌∷◌, ◌++◌, ◌==◌, ==_refl, str_eq, nat_eq, arith,
}
use statixagent.Prelude.Text.{Str, codes}
use statixagent.Prelude.Map.{Map, or_else, get, put, del, get-del, get-put, get-put_self}
use mathlib.Core.Path.{subst}
use statixagent.StateFile.{
  FileRead, no_such, contents, TempOp, op_chmod, op_sync, op_close, op_remove, op_write, Files,
  write_state_file,
}
use statixagent.StateFile.Replaced.{is_idle, ReplaceLaws}
use statixagent.Netip.{NetText}
use statixagent.Firewall.Rows.{no_status}
use statixagent.Firewall.Trial.{Snap}
use statixagent.Firewall.Ufw.{cmd_ok, Machine, Ufw}
use statixagent.Firewall.Ufw.Snapshots.{load_snap, snapshot}
use statixagent.Firewall.Ufw.Snapshots.Written.{FileLaws, is_state_path, known_bin}
use statixagent.Firewall.Ufw.Snapshots.Reloaded.{load_snap-snapshot}

abbrev read_in : Option Str → FileRead
read_in none = no_such
read_in (some data_) = contents data_

abbrev tmp_name : Str
tmp_name = codes ".tmp"

abbrev do_op : TempOp → Str → Map Str Str → Map Str Str × Bool
do_op (op_write data_) tmp w = (put w tmp data_, true)
do_op op_remove tmp w = (del w tmp, true)
do_op _ tmp w = (w, true)

abbrev move_from : Option Str → Str → Str → Map Str Str → Map Str Str × Bool
move_from none tmp p w = (w, false)
move_from (some text) tmp p w = (put (del w tmp) p text, true)

abbrev map_files : Files (Map Str Str)
map_files = record {
  read_at = λ p w. read_in (get w p);
  dir_of = λ p. p;
  base_of = λ p. p;
  create_temp = λ dir pattern w. (put w tmp_name [], some tmp_name);
  on_temp = do_op;
  rename = λ tmp p w. move_from (get w tmp) tmp p w;
  sync_dir = λ dir w. w;
}

abbrev files_only : Machine (Map Str Str)
files_only = record {
  exec = λ bin args w. (w, record { out = codes "Status: active"; end = cmd_ok });
  files = map_files;
  path = λ dir name. dir ++ b'/' ∷ name;
  mkdir = λ dir w. (w, true);
  digest = λ text. text;
}

same_after : (dir a b : Str) → ((dir ++ a) == (dir ++ b)) ≡ (a == b)
same_after [] a b = refl
same_after (c ∷ dir) a b = ground (arith, same_after dir a b, ==_refl c)

-- An absolute directory.
abbrev root_dir : Str → Str
root_dir d = b'/' ∷ d

abbrev is_tmp : Str → Bool
is_tmp t = t == tmp_name

not_tmp :
    (d p t : Str)
    → is_tmp t ≡ true
    → is_state_path files_only (root_dir d) p ≡ true
    → (t == p) ≡ false
not_tmp d p t it ip = elim (Bool-cases (t == p)) [
  | inr other ↦ other
  | inl same ↦
      let e : p ≡ tmp_name = ground (arith, same, it, ==_iff t p, ==_iff t tmp_name) in
      absurd (ground (arith, subst (λ k. is_state_path files_only (root_dir d) k ≡ true) e ip))
]

do_op-beside :
    (op : TempOp) (t q : Str) (w : Map Str Str)
    → (t == q) ≡ false
    → get (do_op op t w).0 q ≡ get w q
do_op-beside op_chmod t q w other = refl
do_op-beside op_sync t q w other = refl
do_op-beside op_close t q w other = refl
do_op-beside op_remove t q w other = ground (arith, get-del w t q, other)
do_op-beside (op_write data_) t q w other = ground (arith, get-put w t q data_, other)

do_op-idle : (op : TempOp) (t : Str) (w : Map Str Str) → is_idle op ≡ true → (do_op op t w).0 ≡ w
do_op-idle op_chmod t w idle = refl
do_op-idle op_sync t w idle = refl
do_op-idle op_close t w idle = refl
do_op-idle op_remove t w idle = absurd (ground arith)
do_op-idle (op_write data_) t w idle = absurd (ground arith)

move_from-read :
    (o : Option Str) (t p : Str) (w : Map Str Str)
    → (move_from o t p w).1 ≡ true
    → get (move_from o t p w).0 p ≡ o
move_from-read none t p w ok = absurd (ground arith)
move_from-read (some text) t p w ok = get-put_self (del w t) p text

move_from-failed :
    (o : Option Str) (t p : Str) (w : Map Str Str)
    → (move_from o t p w).1 ≡ false
    → (move_from o t p w).0 ≡ w
move_from-failed none t p w failed = refl
move_from-failed (some text) t p w failed = absurd (ground arith)

move_from-other :
    (o : Option Str) (t p q : Str) (w : Map Str Str)
    → (t == q) ≡ false
    → (p == q) ≡ false
    → get (move_from o t p w).0 q ≡ get w q
move_from-other none t p q w out other = refl
move_from-other (some text) t p q w out other =
    ground (arith, get-put (del w t) p q text, get-del w t q, out, other)

map_files-laws : (d : Str) → ReplaceLaws map_files (is_state_path files_only (root_dir d)) is_tmp
map_files-laws d = record {
  created = λ p t w ip is. (
    ground (arith, is, ==_refl tmp_name),
    ap (λ (o : Option Str). read_in (get (put w tmp_name []) (or_else o tmp_name))) (sym is)
        ∙ ap read_in (get-put_self w tmp_name []),
  );
  read_created = λ p q w ip iq.
      ap read_in (do_op-beside (op_write []) tmp_name q w (not_tmp d q tmp_name refl iq));
  read_beside = λ op t q w it iq. ap read_in (do_op-beside op t q w (not_tmp d q t it iq));
  read_filled = λ data_ t w it empty ok. ap read_in (get-put_self w t data_);
  read_idle = λ op t w it idle. ap (λ v. read_in (get v t)) (do_op-idle op t w idle);
  read_renamed = λ t p w it ip ok. ap read_in (move_from-read (get w t) t p w ok);
  read_not_renamed = λ t p q w it ip iq failed.
      ap (λ v. read_in (get v q)) (move_from-failed (get w t) t p w failed);
  read_other = λ t p q w it ip iq other.
      ap read_in (move_from-other (get w t) t p q w (not_tmp d q t it iq) other);
  read_synced = λ dir q w iq. refl;
}

files_only-laws : (d : Str) → FileLaws files_only (root_dir d)
files_only-laws d = record {
  is_temp = is_tmp;
  replaces = map_files-laws d;
  names_apart = λ a b ia ib other. same_after (root_dir d) (b'/' ∷ a) (b'/' ∷ b) ∙ other;
  read_mkdir = λ n w within. refl;
  read_quiet = λ bin n args w tried quiet within. refl;
}

abbrev no_texts : NetText
no_texts = record {
  parse_addr = λ s. none;
  parse_prefix = λ s. none;
  addr_text = λ a. [];
  prefix_text = λ p. [];
}

abbrev with_rules : Str → Ufw (Map Str Str)
with_rules text = record { world = (codes "/ufw/user.rules", text) ∷ []; bin = codes "ufw" }

-- The rules are those of before, after another text was written over them.
abbrev snapped : Option Snap
snapped =
    (snapshot files_only no_texts (codes "/ufw") (codes "/snap") (with_rules (codes "before"))).1

abbrev some_snap : Snap
some_snap =
    or_else snapped (record { files = []; status = []; sha = []; fw = no_status; added = none })

load_snap-snapshot_example :
    load_snap files_only no_texts
      (codes "/snap")
      (snapshot files_only no_texts
        (codes "/ufw")
        (codes "/snap")
        (with_rules (codes "before"))).0.world
    ≡ some some_snap
unfolding snapshot get known_bin write_state_file put
load_snap-snapshot_example =
    load_snap-snapshot files_only (codes "/snap") (files_only-laws (codes "snap")) no_texts
      (codes "/ufw") (with_rules (codes "before")) some_snap refl refl refl refl refl
