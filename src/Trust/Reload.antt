-- ===== src/Trust/Reload.antt =====
-- A store that is saved and loaded again, and one whose file could not be read.
use mathlib.Core.List.{append-nil, append_assoc}
use statixagent.Prelude.{
  ℕ, ◌+◌, ◌≡◌, ◌≢◌, refl, sym, ◌∙◌, ap, inl, inr, Bool, true, false, not, ◌&&◌, ◌||◌, some, List,
  [], ◌∷◌, ◌++◌, ◌==◌, Comparable, ==_iff, str_eq, mem?, length, Bool-cases, Option-cases, arith,
}
use statixagent.Prelude.Text.{Str, cut_prefix}
use statixagent.Prelude.Map.{is_some}
use statixagent.Trust.{
  Netip, TrustStore, Disk, LoadError, format_prefix, is_skipped, header, format_entries, unlines,
  saved_lines, save, read_lines, read, empty_store, load, delete_first,
}

abbrev pub all_of : {A : Type 0} → (A → Bool) → List A → Bool
all_of f [] = true
all_of f (x ∷ xs) = f x && all_of f xs

pub all_of-append :
    {A : Type 0} (f : A → Bool) (xs ys : List A)
    → all_of f (xs ++ ys) ≡ (all_of f xs && all_of f ys)
all_of-append f [] ys = refl
all_of-append f (x ∷ xs) ys = ground (arith, all_of-append f xs ys)

module _ {P : Type 0} ⦃c : Comparable P⦄ where
  -- Adding the prefixes in turn to those known adds each.
  abbrev pub Adds : List P → List P → Type 0
  Adds known [] = Unit
  Adds known (p ∷ ps) = (mem? p known ≡ false) × Adds (known ++ p ∷ []) ps

  pub mem?-append : (p : P) (ps qs : List P) → mem? p (ps ++ qs) ≡ (mem? p ps || mem? p qs)
  mem?-append p [] qs = refl
  mem?-append p (x ∷ ps) qs = ground (arith, mem?-append p ps qs)

  Adds-fewer :
      (known more ps : List P)
      → ((q : P) → mem? q more ≡ false → mem? q known ≡ false)
      → Adds more ps
      → Adds known ps
  Adds-fewer known more [] f a = tt
  Adds-fewer known more (p ∷ ps) f a = (
    f p a.0,
    Adds-fewer (known ++ p ∷ []) (more ++ p ∷ []) ps
        (λ q h. ground (arith, f q, mem?-append q known (p ∷ []), mem?-append q more (p ∷ []))) a.1,
  )

  pub Adds-append :
      (known ps : List P) (p : P)
      → Adds known ps
      → mem? p known ≡ false
      → mem? p ps ≡ false
      → Adds known (ps ++ p ∷ [])
  Adds-append known [] p a h k = (h, tt)
  Adds-append known (x ∷ ps) p a h k = (
    a.0,
    Adds-append (known ++ x ∷ []) ps p a.1 (ground (arith, mem?-append p known (x ∷ [])))
        (ground arith),
  )

  pub Adds-delete_first :
      (known ps : List P) (p : P) → Adds known ps → Adds known (delete_first p ps)
  unfolding delete_first
  Adds-delete_first known [] p a = tt
  Adds-delete_first known (x ∷ ps) p a = elim (Bool-cases (x == p)) [
    | inl hit ↦ rw hit (
        Adds-fewer known (known ++ x ∷ []) ps (λ q h. ground (arith, mem?-append q known (x ∷ [])))
          a.1)
    | inr miss ↦ rw miss (a.0, Adds-delete_first (known ++ x ∷ []) ps p a.1)
  ]

  -- What the store relies on of the packages, for prefixes that the parser gives (`canonical`) and for
  -- `clean` lines: a prefix is parsed back from its text, and a scanner gives back clean lines as they were
  -- written. Of `bufio.ScanLines` a line is clean if it has no newline, does not end in a carriage return,
  -- which would be stripped, and is shorter than the limit of the scanner.
  pub record NetipLaws (ip : Netip P) (clean : Str → Bool) (canonical : P → Bool) : Type 0 where
    pub canonical_parse : (l : Str) (p : P) → ip.parse l ≡ some p → canonical p ≡ true
    pub parse_format : (p : P) → canonical p ≡ true → ip.parse (format_prefix ip p) ≡ some p
    pub trim_format :
        (p : P) → canonical p ≡ true → ip.trim_space (format_prefix ip p) ≡ format_prefix ip p
    pub format_not_skipped :
        (p : P) → canonical p ≡ true → is_skipped ip (format_prefix ip p) ≡ false
    pub clean_format : (p : P) → canonical p ≡ true → clean (format_prefix ip p) ≡ true
    pub trim_header : ip.trim_space (header ip) ≡ header ip
    pub clean_header : clean (header ip) ≡ true
    pub scan_unlines :
        (ls : List Str) → all_of clean ls ≡ true → ip.scan (unlines ip ls) ≡ (ls, false)

  module _ (ip : Netip P) (clean : Str → Bool) (canonical : P → Bool) where
    unfoldable pub is_bad : Str → Bool
    is_bad raw =
        not (is_skipped ip (ip.trim_space raw))
        && not (is_some (ip.parse (ip.trim_space raw)))
        && clean raw

    -- The entries differ from one another and are such as the parser gives; each kept line could not
    -- be parsed.
    pub record IsValid (s : TrustStore P) : Type 0 where
      pub distinct : Adds [] s.entries
      pub parsed : all_of canonical s.entries ≡ true
      pub damaged : all_of is_bad s.bad ≡ true

  module _ (ip : Netip P) (clean : Str → Bool) (canonical : P → Bool)
      (laws : NetipLaws ip clean canonical) where
    line_count : (n : ℕ) (ps : List P) (p : P) → n + 1 + length ps ≡ n + length (p ∷ ps)
    line_count n ps p = omega arith

    read_lines-entries :
        (n : ℕ) (ps : List P) (ls : List Str) (s : TrustStore P)
        → all_of canonical ps ≡ true
        → Adds s.entries ps
        → read_lines ip n (format_entries ip ps ++ ls) s
          ≡ read_lines ip (n + length ps) ls (record s { entries = s.entries ++ ps })
    unfolding read_lines format_entries
    read_lines-entries n [] ls s ok a =
        let same : n ≡ n + length {A = P} [] = omega arith in
        rw append-nil (ap (λ k. read_lines ip k ls s) same)
    read_lines-entries n (p ∷ ps) ls s ok a =
        let is : canonical p ≡ true = ground arith in
        let rest =
          read_lines-entries (n + 1) ps ls (record s { entries = s.entries ++ p ∷ [] })
            (ground arith) a.1 in
        rw (laws.trim_format p is, laws.format_not_skipped p is, laws.parse_format p is, a.0)
          (rest
            ∙ ap (λ k. read_lines ip k ls (record s { entries = (s.entries ++ p ∷ []) ++ ps }))
                (line_count n ps p)
            ∙ ap (λ l. read_lines ip (n + length (p ∷ ps)) ls (record s { entries = l }))
                (append_assoc s.entries (p ∷ []) ps))

    read_lines-bad :
        (n : ℕ) (ls : List Str) (s : TrustStore P)
        → all_of (is_bad ip clean canonical) ls ≡ true
        → (read_lines ip n ls s).0 ≡ record s { bad = s.bad ++ ls }
    unfolding read_lines is_bad
    read_lines-bad n [] s ok = rw append-nil refl
    read_lines-bad n (raw ∷ ls) s ok =
        let rest =
          read_lines-bad (n + 1) ls (record s { bad = s.bad ++ raw ∷ [] }) (ground arith) in
        elim (Option-cases (ip.parse (ip.trim_space raw))) [
          | inl lost ↦
              let wanted : is_skipped ip (ip.trim_space raw) ≡ false = ground arith in
              rw (wanted, lost)
                (rest ∙ ap (λ l. record s { bad = l }) (append_assoc s.bad (raw ∷ []) ls))
          | inr (p, found) ↦ absurd (ground arith)
        ]

    format_entries-clean :
        (ps : List P) → all_of canonical ps ≡ true → all_of clean (format_entries ip ps) ≡ true
    unfolding format_entries
    format_entries-clean [] ok = refl
    format_entries-clean (p ∷ ps) ok = ground (arith, laws.clean_format p, format_entries-clean ps)

    bad-clean :
        (ls : List Str) → all_of (is_bad ip clean canonical) ls ≡ true → all_of clean ls ≡ true
    unfolding is_bad
    bad-clean [] ok = refl
    bad-clean (l ∷ ls) ok = ground (arith, bad-clean ls)

    saved_lines-clean :
        (s : TrustStore P) → IsValid ip clean canonical s → all_of clean (saved_lines ip s) ≡ true
    unfolding saved_lines
    saved_lines-clean s v = ground (
      arith,
      laws.clean_header,
      all_of-append clean (format_entries ip s.entries) s.bad,
      format_entries-clean s.entries v.parsed,
      bad-clean s.bad v.damaged,
    )

    header_skipped : is_skipped ip (header ip) ≡ true
    unfolding cut_prefix
    header_skipped = refl

    read_lines-saved :
        (s : TrustStore P)
        → IsValid ip clean canonical s
        → s.read_only ≡ false
        → (read_lines ip 1 (saved_lines ip s) (empty_store s.path)).0 ≡ s
    unfolding saved_lines read_lines
    read_lines-saved s v w =
        let skip : is_skipped ip (ip.trim_space (header ip)) ≡ true =
          rw laws.trim_header (header_skipped) in
        let start = empty_store s.path in
        rw skip (
          ap (λ (r : TrustStore P × List LoadError). r.0)
            (read_lines-entries 2 s.entries s.bad start v.parsed v.distinct)
          ∙ read_lines-bad (2 + length s.entries) s.bad (record start { entries = s.entries })
              v.damaged
          ∙ ap (λ b. record s { read_only = b }) (sym w))

    -- A saved file is read back exactly: a valid store with a path whose file could be read is the store
    -- that is loaded after it was saved, with its entries in order and the lines it could not parse.
    pub load-save :
        (s : TrustStore P) (disk : Disk)
        → IsValid ip clean canonical s
        → s.path ≢ []
        → s.read_only ≡ false
        → (load ip s.path (save ip true s disk).0).0 ≡ s
    unfolding load save read
    load-save s disk v named w =
        let there : (s.path == []) ≡ false = ground (arith, ==_iff s.path []) in
        rw (there, w, read, laws.scan_unlines (saved_lines ip s) (saved_lines-clean s v))
          (read_lines-saved s v w ∙ ap (λ b. record s { read_only = b }) w)
