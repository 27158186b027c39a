-- ===== src/Firewall/Ufw/Snapshots/Files.antt =====
-- Reading the files of a directory.
use statixagent.Prelude.{
  ◌≡◌, refl, ◌∙◌, sym, ap, inl, inr, Bool, true, false, ◌||◌, Option, none, some, List, [], ◌∷◌,
  ◌==◌, ==_iff, ==_refl, str_eq, mem?, Bool-cases, arith, if◌then◌else◌,
}
use statixagent.Prelude.Text.{Str}
use statixagent.Prelude.Map.{Map, get, or_else}
use statixagent.StateFile.{FileRead, no_such, unreadable_file, contents}
use statixagent.Firewall.Ufw.{Machine, add_file, read_files}

abbrev pub as_read : Option Str → FileRead
as_read none = no_such
as_read (some data_) = contents data_

-- What a file that is read gives, or else those read after it.
abbrev first_of : Bool → FileRead → Option Str → Option Str
first_of true (contents data_) later = some data_
first_of _ r later = later

first_of-no_such : (b : Bool) (later : Option Str) → later ≡ first_of b no_such later
first_of-no_such true later = refl
first_of-no_such false later = refl

first_of-contents :
    (b : Bool) (data_ : Str) (later : Option Str)
    → (if b then some data_ else later) ≡ first_of b (contents data_) later
first_of-contents true data_ later = refl
first_of-contents false data_ later = refl

abbrev was_read : FileRead → Bool
was_read unreadable_file = false
was_read _ = true

get-add_file :
    {W : Type 0} (m : Machine W) (name n : Str) (r : FileRead) (rest : Option (Map Str Str))
    (files : Map Str Str)
    → add_file m name r rest ≡ some files
    → (fs : Map Str Str) × (rest ≡ some fs)
      × (get files n ≡ first_of (name == n) r (get fs n))
      × (was_read r ≡ true)
unfolding get
get-add_file m name n unreadable_file rest files e = ground (arith, e)
get-add_file m name n no_such rest files e =
    (files, e, first_of-no_such (name == n) (get files n), refl)
get-add_file m name n (contents data_) none files e = ground (arith, e)
get-add_file m name n (contents data_) (some fs) files e = (
  fs,
  refl,
  ap (λ f. get (or_else f []) n) (sym e) ∙ first_of-contents (name == n) data_ (get fs n),
  refl,
)

first_of-false : (r : FileRead) (later : Option Str) → later ≡ first_of false r later
first_of-false no_such later = refl
first_of-false unreadable_file later = refl
first_of-false (contents data_) later = refl

-- A file that was read is what it reads as, whether it is of the later names too.
first_of-as_read :
    (r : FileRead) (mem : Bool) (later : Option Str)
    → was_read r ≡ true
    → (if mem then r else no_such) ≡ as_read later
    → r ≡ as_read (first_of true r later)
first_of-as_read no_such mem later ok e = ground (arith, e)
first_of-as_read unreadable_file mem later ok e = ground (arith, ok)
first_of-as_read (contents data_) mem later ok e = refl

module _ {W : Type 0} (m : Machine W) where
  -- Files that read the same.
  pub read_files-same :
      (dir dir' : Str) (names : List Str) (w w' : W)
      → (names_same : (n : Str)
          → mem? n names ≡ true
          → m.files.read_at (m.path dir' n) w' ≡ m.files.read_at (m.path dir n) w)
      → read_files m dir' names w' ≡ read_files m dir names w
  unfolding read_files
  read_files-same dir dir' [] w w' same = refl
  read_files-same dir dir' (name ∷ names) w w' same =
      let rest =
        read_files-same dir dir' names w w' (λ n within. same n (ground (arith, within))) in
      let first = same name (ground (arith, ==_refl name)) in
      ap (λ r. add_file m name r (read_files m dir' names w')) first
      ∙ ap (add_file m name (m.files.read_at (m.path dir name) w)) rest

  -- What was read.
  pub read_files-get :
      (dir n : Str) (names : List Str) (w : W) (files : Map Str Str)
      → read_files m dir names w ≡ some files
      → (if mem? n names then m.files.read_at (m.path dir n) w else no_such) ≡ as_read (get files n)
  unfolding read_files get
  read_files-get dir n [] w files e = ground (arith, e)
  read_files-get dir n (name ∷ names) w files e =
      let old = m.files.read_at (m.path dir name) w in
      let (fs, rest, got, ok) = get-add_file m name n old (read_files m dir names w) files e in
      let found = read_files-get dir n names w fs rest in
      elim (Bool-cases (name == n)) [
        | inl same ↦
            let there =
              ap (λ k. m.files.read_at (m.path dir k) w) (ground (arith, same, ==_iff name n)) in
            let later = ap (λ r. if mem? n names then r else no_such) there ∙ found in
            ap (λ b. if b || mem? n names then m.files.read_at (m.path dir n) w else no_such) same
            ∙ sym there
            ∙ first_of-as_read old (mem? n names) (get fs n) ok later
            ∙ ap as_read (ap (λ b. first_of b old (get fs n)) (sym same) ∙ sym got)
        | inr other ↦
            ap (λ b. if b || mem? n names then m.files.read_at (m.path dir n) w else no_such) other
            ∙ found
            ∙ ap as_read (
                first_of-false old (get fs n)
                ∙ ap (λ b. first_of b old (get fs n)) (sym other)
                ∙ sym got)
      ]
