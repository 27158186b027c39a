-- ===== src/Trust/Runs.antt =====
-- The store through a load and any changes after it.
use statixagent.Prelude.{
  ℕ, ◌+◌, ◌≡◌, ◌≢◌, refl, sym, ◌∙◌, ap, inl, inr, Bool, true, false, List, [], ◌∷◌, ◌++◌, ◌==◌,
  ==_iff, Comparable, str_eq, mem?, Bool-cases, Option-cases, arith,
}
use statixagent.Prelude.Text.{Str}
use statixagent.Trust.{
  Netip, TrustStore, Disk, missing, unreadable, file, LoadError, is_skipped, save, with_entry,
  read_lines, ended, read, empty_store, load, add, delete_first, remove,
}
use statixagent.Trust.Reload.{
  all_of, all_of-append, Adds-append, Adds-delete_first, NetipLaws, is_bad, IsValid, load-save,
}

-- A change, with whether the file can be written then.
pub data TrustOp (P : Type 0) : Type 0 where
  adding removing : Bool → P → TrustOp P

module _ {P : Type 0} ⦃c : Comparable P⦄ (ip : Netip P) where
  abbrev pub apply : TrustOp P → TrustStore P × Disk → TrustStore P × Disk
  apply (adding writes p) (s, disk) = (add ip writes p s disk).0
  apply (removing writes p) (s, disk) = (remove ip writes p s disk).0

  unfoldable pub run : List (TrustOp P) → TrustStore P × Disk → TrustStore P × Disk
  run [] st = st
  run (o ∷ os) st = run os (apply o st)

  -- `LoadTrustStore` at the start
  abbrev pub start : Str → Disk → TrustStore P × Disk
  start path disk = ((load ip path disk).0, disk)

  apply-read_only :
      (o : TrustOp P) (s : TrustStore P) (disk : Disk)
      → s.read_only ≡ true
      → ((apply o (s, disk)).1 ≡ disk) × ((apply o (s, disk)).0.read_only ≡ true)
  unfolding add remove save
  apply-read_only (adding writes p) s disk h = ground arith
  apply-read_only (removing writes p) s disk h = ground arith

  run-unchanged :
      (os : List (TrustOp P)) (s : TrustStore P) (disk : Disk)
      → s.read_only ≡ true
      → (run os (s, disk)).1 ≡ disk
  unfolding run
  run-unchanged [] s disk h = refl
  run-unchanged (o ∷ os) s disk h =
      let (same, still) = apply-read_only o s disk h in
      run-unchanged os (apply o (s, disk)).0 (apply o (s, disk)).1 still ∙ same

  -- The lines of the file.
  abbrev pub lines_of : Disk → List Str
  lines_of (file data_) = (ip.scan data_).0
  lines_of _ = []

  -- The file is there and cannot be opened, or the scanner ends in an error.
  abbrev pub unread : Disk → Bool
  unread missing = false
  unread unreadable = true
  unread (file data_) = (ip.scan data_).1

  ended-read_only :
      (failed : Bool) (r : TrustStore P × List LoadError)
      → failed ≡ true
      → (ended failed r).0.read_only ≡ true
  ended-read_only true r h = refl
  ended-read_only false r h = absurd (ground arith)

  load-read_only :
      (path : Str) (disk : Disk)
      → path ≢ []
      → unread disk ≡ true
      → (load ip path disk).0.read_only ≡ true
  unfolding load read
  load-read_only path missing named h = absurd (ground arith)
  load-read_only path unreadable named h = ground (arith, ==_iff path [])
  load-read_only path (file data_) named h =
      let there : (path == []) ≡ false = ground (arith, ==_iff path []) in
      rw there
        (ended-read_only (ip.scan data_).1 (read_lines ip 1 (ip.scan data_).0 (empty_store path)) h)

  -- The file of a store that has one, where it cannot be opened or the scanner stops in it at an error, is
  -- never written: whatever is added or removed after the start, the disk stays as it is, whether it could
  -- be written or not.
  pub run-read_only :
      (path : Str) (disk : Disk) (os : List (TrustOp P))
      → path ≢ []
      → unread disk ≡ true
      → (run os (start path disk)).1 ≡ disk
  run-read_only path disk os named h =
      run-unchanged os (load ip path disk).0 disk (load-read_only path disk named h)

module _ {P : Type 0} ⦃c : Comparable P⦄ (canonical : P → Bool) where
  abbrev pub op_canonical : TrustOp P → Bool
  op_canonical (adding writes p) = canonical p
  op_canonical (removing writes p) = true

  module _ (ip : Netip P) (clean : Str → Bool) where
    delete_first-canonical :
        (p : P) (ps : List P)
        → all_of canonical ps ≡ true
        → all_of canonical (delete_first p ps) ≡ true
    unfolding delete_first
    delete_first-canonical p [] h = refl
    delete_first-canonical p (x ∷ ps) h = ground (arith, delete_first-canonical p ps)

    IsValid-with :
        (p : P) (s : TrustStore P)
        → canonical p ≡ true
        → mem? p s.entries ≡ false
        → IsValid ip clean canonical s
        → IsValid ip clean canonical (record s { entries = s.entries ++ p ∷ [] })
    IsValid-with p s is new v = record {
      distinct = Adds-append [] s.entries p v.distinct refl new;
      parsed = ground (arith, all_of-append canonical s.entries (p ∷ []), v.parsed);
      damaged = v.damaged;
    }

    apply-IsValid :
        (o : TrustOp P) (s : TrustStore P) (disk : Disk)
        → op_canonical o ≡ true
        → IsValid ip clean canonical s
        → IsValid ip clean canonical (apply ip o (s, disk)).0
    unfolding add remove
    apply-IsValid (adding writes p) s disk h v = elim (Bool-cases (mem? p s.entries)) [
      | inl old ↦ rw (apply, add, old) v
      | inr new ↦ rw (apply, add, new) (IsValid-with p s h new v)
    ]
    apply-IsValid (removing writes p) s disk h v = elim (Bool-cases (mem? p s.entries)) [
      | inl has ↦
          rw (apply, remove, has)
            (record {
              distinct = Adds-delete_first [] s.entries p v.distinct;
              parsed = delete_first-canonical p s.entries v.parsed;
              damaged = v.damaged;
            })
      | inr gone ↦ rw (apply, remove, gone) v
    ]

    apply-same :
        (o : TrustOp P) (s : TrustStore P) (disk : Disk)
        → ((apply ip o (s, disk)).0.path ≡ s.path)
          × ((apply ip o (s, disk)).0.read_only ≡ s.read_only)
    unfolding add remove
    apply-same (adding writes p) s disk = ground arith
    apply-same (removing writes p) s disk = ground arith

    run-IsValid :
        (os : List (TrustOp P)) (s : TrustStore P) (disk : Disk)
        → all_of op_canonical os ≡ true
        → IsValid ip clean canonical s
        → IsValid ip clean canonical (run ip os (s, disk)).0
          × ((run ip os (s, disk)).0.path ≡ s.path)
          × ((run ip os (s, disk)).0.read_only ≡ s.read_only)
    unfolding run
    run-IsValid [] s disk h v = (v, refl, refl)
    run-IsValid (o ∷ os) s disk h v =
        let (s', disk') = apply ip o (s, disk) in
        let (v', p', r') =
          run-IsValid os s' disk' (ground arith) (apply-IsValid o s disk (ground arith) v) in
        let (p, r) = apply-same o s disk in (v', p' ∙ p, r' ∙ r)

    empty-IsValid :
        (path : Str) (w : Bool)
        → IsValid ip clean canonical (record (empty_store path) { read_only = w })
    empty-IsValid path w = record { distinct = tt; parsed = refl; damaged = refl }

    module _ (laws : NetipLaws ip clean canonical) where
      read_lines-IsValid :
          (n : ℕ) (ls : List Str) (s : TrustStore P)
          → all_of clean ls ≡ true
          → IsValid ip clean canonical s
          → IsValid ip clean canonical (read_lines ip n ls s).0
      unfolding read_lines
      read_lines-IsValid n [] s h v = v
      read_lines-IsValid n (raw ∷ ls) s h v =
          elim (Bool-cases (is_skipped ip (ip.trim_space raw))) [
            | inl skip ↦ rw skip (read_lines-IsValid (n + 1) ls s (ground arith) v)
            | inr wanted ↦ elim (Option-cases (ip.parse (ip.trim_space raw))) [
              | inl lost ↦
                  rw (wanted, lost)
                    (read_lines-IsValid (n + 1) ls (record s { bad = s.bad ++ raw ∷ [] })
                      (ground arith)
                      (record {
                        distinct = v.distinct;
                        parsed = v.parsed;
                        damaged =
                            unfold is_bad in
                            ground (
                              arith,
                              all_of-append (is_bad ip clean canonical) s.bad (raw ∷ []),
                              v.damaged,
                            );
                      }))
              | inr (p, found) ↦
                  rw (wanted, found)
                    (read_lines-IsValid (n + 1) ls (with_entry p s) (ground arith)
                      (elim (Bool-cases (mem? p s.entries)) [
                        | inl old ↦ rw old v
                        | inr new ↦ rw new (
                            IsValid-with p s (laws.canonical_parse (ip.trim_space raw) p found) new
                              v)
                      ]))
            ]
          ]

      ended-IsValid :
          (failed : Bool) (r : TrustStore P × List LoadError)
          → IsValid ip clean canonical r.0
          → IsValid ip clean canonical (ended failed r).0
      ended-IsValid false r v = v
      ended-IsValid true r v = record {
        distinct = v.distinct;
        parsed = v.parsed;
        damaged = v.damaged;
      }

      load-IsValid :
          (path : Str) (disk : Disk)
          → all_of clean (lines_of ip disk) ≡ true
          → IsValid ip clean canonical (load ip path disk).0
      unfolding load read
      load-IsValid path missing whole = elim (Bool-cases (path == [])) [
        | inl none_ ↦ rw none_ (empty-IsValid path false)
        | inr there ↦ rw there (empty-IsValid path false)
      ]
      load-IsValid path unreadable whole = elim (Bool-cases (path == [])) [
        | inl none_ ↦ rw none_ (empty-IsValid path false)
        | inr there ↦ rw there (empty-IsValid path true)
      ]
      load-IsValid path (file data_) whole = elim (Bool-cases (path == [])) [
        | inl none_ ↦ rw none_ (empty-IsValid path false)
        | inr there ↦ rw there (
            ended-IsValid (ip.scan data_).1 (read_lines ip 1 (ip.scan data_).0 (empty_store path)) (
              read_lines-IsValid 1 (ip.scan data_).0 (empty_store path) whole
                (empty-IsValid path false)))
      ]

      read_lines-path :
          (n : ℕ) (ls : List Str) (s : TrustStore P) → (read_lines ip n ls s).0.path ≡ s.path
      unfolding read_lines
      read_lines-path n [] s = refl
      read_lines-path n (raw ∷ ls) s = elim (Bool-cases (is_skipped ip (ip.trim_space raw))) [
        | inl skip ↦ rw skip (read_lines-path (n + 1) ls s)
        | inr wanted ↦ elim (Option-cases (ip.parse (ip.trim_space raw))) [
          | inl lost ↦
              rw (wanted, lost) (read_lines-path (n + 1) ls (record s { bad = s.bad ++ raw ∷ [] }))
          | inr (p, found) ↦
              rw (wanted, found)
                (read_lines-path (n + 1) ls (with_entry p s)
                  ∙ elim (Bool-cases (mem? p s.entries)) [
                    | inl old ↦ rw old refl
                    | inr new ↦ rw new refl
                  ])
        ]
      ]

      load-path : (path : Str) (disk : Disk) → (load ip path disk).0.path ≡ path
      unfolding load read
      load-path path missing = ground arith
      load-path path unreadable = ground arith
      load-path path (file data_) =
          ground (arith, read_lines-path 1 (ip.scan data_).0 (empty_store path))

      -- After a start and any changes, of prefixes that the parser gives, a save that succeeds makes the
      -- next start load the store as it is, provided that it has a file, that the file could be read, and
      -- that its lines are such as the scanner gives back once they are written (`clean`: of `ScanLines`,
      -- those within its limit that do not end in a carriage return after it stripped one): no entry is
      -- lost, doubled or moved, and no line that could not be parsed is lost.
      pub load-run :
          (path : Str) (disk disk' : Disk) (os : List (TrustOp P))
          → path ≢ []
          → (load ip path disk).0.read_only ≡ false
          → all_of clean (lines_of ip disk) ≡ true
          → all_of op_canonical os ≡ true
          → let s = (run ip os (start ip path disk)).0 in
            (load ip path (save ip true s disk').0).0 ≡ s
      load-run path disk disk' os named readable whole ok =
          let (s, _) = run ip os (start ip path disk) in
          let (v, p, r) =
            run-IsValid os (load ip path disk).0 disk ok (load-IsValid path disk whole) in
          let same : s.path ≡ path = p ∙ load-path path disk in
          ap (λ x. (load ip x (save ip true s disk').0).0) (sym same)
          ∙ load-save ip clean canonical laws s disk' v (λ e. named (sym same ∙ e)) (r ∙ readable)
