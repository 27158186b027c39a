-- ===== src/Firewall/Ufw/Snapshots/Written.antt =====
-- What files read as after some were written, and after commands that change none.
use statixagent.Prelude.{
  ◌≡◌, refl, ◌∙◌, ap, inl, inr, Bool, true, false, ◌||◌, Option, none, some, List, [], ◌∷◌, ◌==◌,
  ==_iff, ==_refl, str_eq, mem?, Bool-cases, arith, if◌then◌else◌, if-both, if-split,
}
use mathlib.Core.Path.{subst}
use statixagent.Prelude.Text.{Str, codes}
use statixagent.Prelude.Map.{Map, get}
use statixagent.StateFile.{FileRead, contents, write_state_file}
use statixagent.StateFile.Replaced.{ReplaceLaws, read_written, read_unwritten, read_other_file}
use statixagent.Firewall.Plan.{spec_eq}
use statixagent.Firewall.Ufw.{
  not_found, Machine, Ufw, ufw_paths, ufw_rule_files, snap_status_file, snap_added_file, write_file,
  write_files, find_bin, ufw, reload_args, status_args, added_args,
}

-- Commands that read, and the reload.
abbrev pub quiet_args : List (List Str)
quiet_args = (codes "version" ∷ []) ∷ status_args ∷ added_args ∷ reload_args ∷ []

-- The files of a directory that a snapshot or ufw's rules have.
abbrev pub state_names : List Str
state_names = snap_status_file ∷ snap_added_file ∷ ufw_rule_files

-- No binary has answered yet, or one of those that are tried.
unfoldable pub known_bin : Str → Bool
known_bin bin = bin == [] || mem? bin ufw_paths

module _ {W : Type 0} (m : Machine W) (dir : Str) where
  abbrev pub paths_of : List Str → List Str
  paths_of [] = []
  paths_of (name ∷ names) = m.path dir name ∷ paths_of names

  abbrev pub is_state_path : Str → Bool
  is_state_path path = mem? path (paths_of state_names)

  -- What the snapshots rely on, of the four files of a directory alone: they have paths of their own, a
  -- replacement is that of the file system, and neither `MkdirAll` of the directory nor a quiet command of
  -- ufw changes one of them.
  pub record FileLaws : Type 0 where
    pub is_temp : Str → Bool
    pub replaces : ReplaceLaws m.files is_state_path is_temp
    pub names_apart :
        (a b : Str)
        → mem? a state_names ≡ true
        → mem? b state_names ≡ true
        → (a == b) ≡ false
        → (m.path dir a == m.path dir b) ≡ false
    pub read_mkdir :
        (n : Str) (w : W)
        → mem? n state_names ≡ true
        → m.files.read_at (m.path dir n) (m.mkdir dir w).0 ≡ m.files.read_at (m.path dir n) w
    pub read_quiet :
        (bin n : Str) (args : List Str) (w : W)
        → mem? bin ufw_paths ≡ true
        → mem? args quiet_args ≡ true
        → mem? n state_names ≡ true
        → m.files.read_at (m.path dir n) (m.exec bin args w).0 ≡ m.files.read_at (m.path dir n) w

  mem?-paths_of :
      (n : Str) (names : List Str)
      → mem? n names ≡ true
      → mem? (m.path dir n) (paths_of names) ≡ true
  mem?-paths_of n [] h = ground (arith, h)
  mem?-paths_of n (name ∷ names) h = elim (Bool-cases (name == n)) [
    | inl same ↦
        let e : m.path dir name ≡ m.path dir n =
          ap (m.path dir) (ground (arith, same, ==_iff name n)) in
        ground (arith, ==_iff (m.path dir name) (m.path dir n), e)
    | inr other ↦ ground (arith, other, h, mem?-paths_of n names)
  ]

-- What a file reads as where some are written.
abbrev pub over : Option Str → FileRead → FileRead
over none old = old
over (some data_) old = contents data_

mixed :
    (same later : Bool) (oa ob : Option Str) (old r : FileRead)
    → (same ≡ true → oa ≡ ob)
    → r ≡ (if same then over oa old else old)
    → (if later then over ob r else r) ≡ (if same || later then over ob old else old)
mixed true later oa none old r h e = ground (arith, h refl, e)
mixed true later oa (some data_) old r h e = ground (arith, h refl, e)
mixed false later oa ob old r h e = ap (λ x. if later then over ob x else x) e

find_bin-known :
    {W : Type 0} (m : Machine W) (bins : List Str) (w : W)
    → ((b : Str) → mem? b bins ≡ true → mem? b ufw_paths ≡ true)
    → mem? (find_bin m bins w).1 ufw_paths ≡ true
unfolding find_bin
find_bin-known m [] w tried = refl
find_bin-known m (bin ∷ bins) w tried =
    let run = m.exec bin (codes "version" ∷ []) w in
    if-both (λ (r : _ × Str). mem? r.1 ufw_paths ≡ true) (not_found run.1.end)
      (find_bin m bins run.0) (run.0, bin)
      (find_bin-known m bins run.0 (λ b h. tried b (ground (arith, h))))
      (tried bin (ground (arith, ==_refl bin)))

pub ufw-known_bin :
    {W : Type 0} (m : Machine W) (args : List Str) (fw : Ufw W)
    → known_bin fw.bin ≡ true
    → known_bin (ufw m args fw).0.bin ≡ true
unfolding ufw known_bin
ufw-known_bin {W} m args fw known =
    let P = λ (r : W × Str). known_bin r.1 ≡ true in
    if-both P (fw.bin == []) (find_bin m ufw_paths fw.world) (fw.world, fw.bin)
      (ground (arith, find_bin-known m ufw_paths fw.world (λ b h. h))) known

module _ {W : Type 0} (m : Machine W) (dir : Str) (laws : FileLaws m dir) where
  find_bin-read :
      (n : Str) (bins : List Str) (w : W)
      → mem? n state_names ≡ true
      → ((b : Str) → mem? b bins ≡ true → mem? b ufw_paths ≡ true)
      → m.files.read_at (m.path dir n) (find_bin m bins w).0 ≡ m.files.read_at (m.path dir n) w
  unfolding find_bin
  find_bin-read n [] w within tried = refl
  find_bin-read n (bin ∷ bins) w within tried =
      let run = m.exec bin (codes "version" ∷ []) w in
      let kept =
        laws.read_quiet bin n (codes "version" ∷ []) w (tried bin (ground (arith, ==_refl bin)))
          refl within in
      if-both
        (λ (r : W × Str). m.files.read_at (m.path dir n) r.0 ≡ m.files.read_at (m.path dir n) w)
        (not_found run.1.end) (find_bin m bins run.0) (run.0, bin)
        (find_bin-read n bins run.0 within (λ b h. tried b (ground (arith, h))) ∙ kept) kept

  pub ufw-read :
      (n : Str) (args : List Str) (fw : Ufw W)
      → mem? args quiet_args ≡ true
      → mem? n state_names ≡ true
      → known_bin fw.bin ≡ true
      → m.files.read_at (m.path dir n) (ufw m args fw).0.world
        ≡ m.files.read_at (m.path dir n) fw.world
  unfolding ufw known_bin
  ufw-read n args fw quiet within known =
      let found = find_bin m ufw_paths fw.world in
      let tried = λ (b : Str) (h : mem? b ufw_paths ≡ true). h in
      if-split
        (λ (r : W × Str).
          m.files.read_at (m.path dir n) (m.exec r.1 args r.0).0
          ≡ m.files.read_at (m.path dir n) fw.world)
        (fw.bin == []) found (fw.world, fw.bin)
        (λ _.
          laws.read_quiet found.1 n args found.0 (find_bin-known m ufw_paths fw.world tried) quiet
            within
          ∙ find_bin-read n ufw_paths fw.world within tried)
        (λ named.
          laws.read_quiet fw.bin n args fw.world (ground (arith, named, known)) quiet within)

  -- A file of the directory after another was written, or not.
  pub write-read :
      (a b data_ : Str) (w : W)
      → mem? a state_names ≡ true
      → mem? b state_names ≡ true
      → (write_state_file m.files (m.path dir a) data_ w).1 ≡ true
      → m.files.read_at (m.path dir b) (write_state_file m.files (m.path dir a) data_ w).0
        ≡ (if a == b then contents data_ else m.files.read_at (m.path dir b) w)
  write-read a b data_ w ia ib ok = elim (Bool-cases (a == b)) [
    | inl same ↦
        subst
          (λ n.
            m.files.read_at (m.path dir n) (write_state_file m.files (m.path dir a) data_ w).0
            ≡ (if a == n then contents data_ else m.files.read_at (m.path dir n) w))
          (ground (arith, same, ==_iff a b))
          (read_written m.files (is_state_path m dir) laws.is_temp laws.replaces (m.path dir a)
              data_ w (mem?-paths_of m dir a state_names ia) ok
            ∙ ground (arith, ==_refl a))
    | inr other ↦
        read_other_file m.files (is_state_path m dir) laws.is_temp laws.replaces (m.path dir a)
          (m.path dir b) data_ w (mem?-paths_of m dir a state_names ia)
          (mem?-paths_of m dir b state_names ib) (laws.names_apart a b ia ib other)
        ∙ ground (arith, other)
  ]

  -- Every file of the directory, after one could not be written.
  pub unwritten-read :
      (a b data_ : Str) (w : W)
      → mem? a state_names ≡ true
      → mem? b state_names ≡ true
      → (write_state_file m.files (m.path dir a) data_ w).1 ≡ false
      → m.files.read_at (m.path dir b) (write_state_file m.files (m.path dir a) data_ w).0
        ≡ m.files.read_at (m.path dir b) w
  unwritten-read a b data_ w ia ib failed =
      read_unwritten m.files (is_state_path m dir) laws.is_temp laws.replaces (m.path dir a)
        (m.path dir b) data_ w (mem?-paths_of m dir a state_names ia)
        (mem?-paths_of m dir b state_names ib) failed

  write_file-read :
      (a b : Str) (o : Option Str) (w : W)
      → mem? a state_names ≡ true
      → mem? b state_names ≡ true
      → (write_file m dir a o w).1 ≡ true
      → m.files.read_at (m.path dir b) (write_file m dir a o w).0 ≡ (
          if a == b
          then over o (m.files.read_at (m.path dir b) w)
          else m.files.read_at (m.path dir b) w)
  write_file-read a b none w ia ib ok =
      if-both (λ (r : FileRead). m.files.read_at (m.path dir b) w ≡ r) (a == b) _ _ refl refl
  write_file-read a b (some data_) w ia ib ok = write-read a b data_ w ia ib ok

  -- A file of the directory after some of `names` were written.
  pub write_files-read :
      (b : Str) (names : List Str) (files : Map Str Str) (w : W)
      → mem? b state_names ≡ true
      → ((n : Str) → mem? n names ≡ true → mem? n state_names ≡ true)
      → (write_files m dir names files w).1 ≡ true
      → m.files.read_at (m.path dir b) (write_files m dir names files w).0 ≡ (
          if mem? b names
          then over (get files b) (m.files.read_at (m.path dir b) w)
          else m.files.read_at (m.path dir b) w)
  unfolding write_files
  write_files-read b [] files w ib sub = λ ok. refl
  write_files-read b (name ∷ names) files w ib sub =
      let one = write_file m dir name (get files name) w in
      if-split
        (λ (r : W × Bool).
          r.1 ≡ true
          → m.files.read_at (m.path dir b) r.0 ≡ (
              if mem? b (name ∷ names)
              then over (get files b) (m.files.read_at (m.path dir b) w)
              else m.files.read_at (m.path dir b) w))
        one.1 (write_files m dir names files one.0) (one.0, false)
        (λ wrote ok.
          write_files-read b names files one.0 ib (λ n h. sub n (ground (arith, h))) ok
          ∙ mixed (name == b) (mem? b names) (get files name) (get files b)
              (m.files.read_at (m.path dir b) w) (m.files.read_at (m.path dir b) one.0)
              (λ same. ap (get files) (ground (arith, same, ==_iff name b)))
              (write_file-read name b (get files name) w (sub name (ground (arith, ==_refl name)))
                ib wrote))
        (λ _ ok. ground (arith, ok))
