-- ===== src/Trust.antt =====
-- internal/sshwatch/truststore.go: the trusted SSH sources and their file. The mutex is left out: each
-- method holds it throughout. `WriteStateFile` replaces the file or leaves it as it is; which of both
-- is an argument. Packages net/netip, bufio and strings are an interface.
pub mod Reload
pub mod Runs
mod Examples
use statixagent.Prelude.{
  ℕ, ◌+◌, ◌≡◌, ◌⊎◌, Bool, true, false, not, ◌||◌, Option, none, some, List, [], ◌∷◌, ◌++◌, ◌==◌,
  Comparable, str_eq, mem?, if◌then◌else◌,
}
use statixagent.Prelude.Text.{Str, codes, cut_prefix}
use statixagent.Prelude.Map.{is_some}

-- What the store calls of other packages, for prefixes of type `P`: the parser that it is given, the
-- methods of a prefix, `strings.TrimSpace`, and a scanner's lines with whether it ended by an error.
pub record Netip (P : Type 0) : Type 0 where
  pub parse : Str → Option P
  pub is_single_ip : P → Bool
  pub addr_text : P → Str
  pub prefix_text : P → Str
  pub trim_space : Str → Str
  pub scan : Str → List Str × Bool

pub record TrustStore (P : Type 0) : Type 0 where
  pub path : Str
  pub entries : List P
  pub bad : List Str
  pub read_only : Bool

pub data Disk : Type 0 where
  missing unreadable : Disk
  file : Str → Disk

pub data LoadError : Type 0 where
  open_failed scan_failed : LoadError
  line_skipped : ℕ → LoadError

pub data SaveError : Type 0 where
  not_saved write_failed : SaveError

module _ {P : Type 0} (ip : Netip P) where
  -- `FormatPrefix`
  unfoldable pub format_prefix : P → Str
  format_prefix p = if ip.is_single_ip p then ip.addr_text p else ip.prefix_text p

  abbrev pub is_skipped : Str → Bool
  is_skipped line = line == [] || is_some (cut_prefix line (codes "#"))

  abbrev pub header : Str
  header =
      codes
        "# SSH sources trusted from Telegram (/trust, /untrust); see also ssh.trusted_ips in config.toml"

  unfoldable pub format_entries : List P → List Str
  unfolding format_prefix
  format_entries [] = []
  format_entries (p ∷ ps) = format_prefix p ∷ format_entries ps

  -- The lines that are written, each with its newline.
  unfoldable pub unlines : List Str → Str
  unlines [] = []
  unlines (l ∷ ls) = (l ++ 10 ∷ []) ++ unlines ls

  unfoldable pub saved_lines : TrustStore P → List Str
  unfolding format_entries
  saved_lines s = header ∷ format_entries s.entries ++ s.bad

  unfoldable pub save : Bool → TrustStore P → Disk → Disk × Option SaveError
  unfolding saved_lines unlines
  save writes s disk =
      if s.path == []
      then (disk, none)
      else if s.read_only
      then (disk, some not_saved)
      else if writes
      then (file (unlines (saved_lines s)), none)
      else (disk, some write_failed)

module _ {P : Type 0} where
  abbrev pub ended : Bool → TrustStore P × List LoadError → TrustStore P × List LoadError
  ended failed (s, errs) =
      if failed then (record s { read_only = true }, errs ++ scan_failed ∷ []) else (s, errs)

  abbrev pub empty_store : Str → TrustStore P
  empty_store path = record { path = path; entries = []; bad = []; read_only = false }

module _ {P : Type 0} ⦃c : Comparable P⦄ where
  abbrev pub with_entry : P → TrustStore P → TrustStore P
  with_entry p s = if mem? p s.entries then s else record s { entries = s.entries ++ p ∷ [] }

  -- `slices.Delete` at the first index of `p`
  unfoldable pub delete_first : P → List P → List P
  delete_first p [] = []
  delete_first p (q ∷ ps) = let rest = delete_first p ps in if q == p then ps else q ∷ rest

module _ {P : Type 0} ⦃c : Comparable P⦄ (ip : Netip P) where
  -- The loop of `read`, from line `n`.
  unfoldable pub read_lines : ℕ → List Str → TrustStore P → TrustStore P × List LoadError
  read_lines n [] s = (s, [])
  read_lines n (raw ∷ ls) s =
      let line = ip.trim_space raw in
      let skipped = read_lines (n + 1) ls s in
      let (damaged, errs) = read_lines (n + 1) ls (record s { bad = s.bad ++ raw ∷ [] }) in
      if is_skipped ip line then skipped else elim (ip.parse line) [
        | none ↦ (damaged, line_skipped n ∷ errs)
        | some p ↦ read_lines (n + 1) ls (with_entry p s)
      ]

  -- `read`
  unfoldable pub read : Str → TrustStore P → TrustStore P × List LoadError
  unfolding read_lines
  read data_ s = let (ls, failed) = ip.scan data_ in ended failed (read_lines 1 ls s)

  -- `LoadTrustStore`, of a file that is on the disk at `path`
  unfoldable pub load : Str → Disk → TrustStore P × List LoadError
  unfolding read
  load path disk = if path == [] then (empty_store path, []) else elim disk [
    | missing ↦ (empty_store path, [])
    | unreadable ↦ (record (empty_store path) { read_only = true }, open_failed ∷ [])
    | file data_ ↦ read data_ (empty_store path)
  ]

  -- The store and the disk after an operation, whether it changed the list, and the error of saving.
  unfoldable pub add :
      Bool → P → TrustStore P → Disk → (TrustStore P × Disk) × Bool × Option SaveError
  unfolding save
  add writes p s disk =
      let s' = record s { entries = s.entries ++ p ∷ [] } in
      let (disk', e) = save ip writes s' disk in
      if mem? p s.entries then ((s, disk), false, none) else ((s', disk'), true, e)

  unfoldable pub remove :
      Bool → P → TrustStore P → Disk → (TrustStore P × Disk) × Bool × Option SaveError
  unfolding save delete_first
  remove writes p s disk =
      let s' = record s { entries = delete_first p s.entries } in
      let (disk', e) = save ip writes s' disk in
      if not (mem? p s.entries) then ((s, disk), false, none) else ((s', disk'), true, e)
