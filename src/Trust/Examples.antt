-- ===== src/Trust/Examples.antt =====
-- The trust store at a concrete file, with prefixes of two kinds, `a` and `b`.
use statixagent.Prelude.{
  ℕ, ◌≡◌, ◌∙◌, refl, ap, Bool, true, false, not, ◌&&◌, Option, none, some, List, [], ◌∷◌, ◌++◌,
  ◌==◌, ltb, length, nat_eq, str_eq, bool_eq, if◌then◌else◌, arith,
}
use statixagent.Prelude.Text.{Str, codes, cut_prefix}
use statixagent.Trust.{Netip, is_skipped, Disk, missing, file, format_prefix, unlines, save, load}
use statixagent.Trust.Reload.{all_of, NetipLaws}
use statixagent.Trust.Runs.{
  TrustOp, adding, removing, start, lines_of, run, run-read_only, load-run,
}

abbrev parse_ab : Str → Option Bool
parse_ab s = if s == codes "a" then some true else if s == codes "b" then some false else none

abbrev text_ab : Bool → Str
text_ab true = codes "a"
text_ab false = codes "b"

abbrev onto_first : ℕ → List Str → List Str
onto_first x [] = (x ∷ []) ∷ []
onto_first x (l ∷ ls) = (x ∷ l) ∷ ls

unfoldable lines : Str → List Str
lines [] = []
lines (x ∷ s) = let rest = lines s in if x == 10 then [] ∷ rest else onto_first x rest

-- `dropCR` of `bufio.ScanLines`
abbrev drop_cr : Str → Str
drop_cr [] = []
drop_cr (x ∷ []) = if x == 13 then [] else x ∷ []
drop_cr (x ∷ y ∷ s) = x ∷ drop_cr (y ∷ s)

-- The scanner fails at a line that does not fit its buffer.
unfoldable within : ℕ → List Str → List Str × Bool
within limit [] = ([], false)
within limit (l ∷ ls) =
    let (rest, failed) = within limit ls in
    if ltb (length l) limit then (drop_cr l ∷ rest, failed) else ([], true)

abbrev ab : ℕ → Netip Bool
ab limit = record {
  parse = parse_ab;
  is_single_ip = λ p. true;
  addr_text = text_ab;
  prefix_text = text_ab;
  trim_space = λ s. s;
  scan = λ s. within limit (lines s);
}

-- `bufio.MaxScanTokenSize`
abbrev scan_limit : ℕ
scan_limit = 65536

abbrev one_line : Str → Bool
one_line [] = true
one_line (x ∷ s) = not (x == 10) && one_line s

abbrev ends_cr : Str → Bool
ends_cr [] = false
ends_cr (x ∷ []) = x == 13
ends_cr (x ∷ y ∷ s) = ends_cr (y ∷ s)

unfoldable is_clean : Str → Bool
is_clean l = one_line l && not (ends_cr l) && ltb (length l) scan_limit

drop_cr-same : (l : Str) → ends_cr l ≡ false → drop_cr l ≡ l
drop_cr-same [] h = refl
drop_cr-same (x ∷ []) h = ground arith
drop_cr-same (x ∷ y ∷ s) h = ap (λ t. x ∷ t) (drop_cr-same (y ∷ s) h)

within-clean : (ls : List Str) → all_of is_clean ls ≡ true → within scan_limit ls ≡ (ls, false)
unfolding within is_clean
within-clean [] h = refl
within-clean (l ∷ ls) h =
    let short : ltb (length l) scan_limit ≡ true = ground arith in
    let rest = within-clean ls (ground arith) in
    rw (short, rest, drop_cr-same l (ground arith)) refl

lines-line : (l t : Str) → one_line l ≡ true → lines ((l ++ 10 ∷ []) ++ t) ≡ l ∷ lines t
unfolding lines
lines-line [] t h = refl
lines-line (x ∷ l) t h =
    let more : (x == 10) ≡ false = ground arith in
    rw more (ap (onto_first x) (lines-line l t (ground arith)))

lines-unlines :
    (ls : List Str) → all_of is_clean ls ≡ true → lines (unlines (ab scan_limit) ls) ≡ ls
unfolding unlines lines is_clean
lines-unlines [] h = refl
lines-unlines (l ∷ ls) h =
    lines-line l (unlines (ab scan_limit) ls) (ground arith)
    ∙ ap (λ r. l ∷ r) (lines-unlines ls (ground arith))

abbrev any : Bool → Bool
any p = true

parse-text : (p : Bool) → parse_ab (format_prefix (ab scan_limit) p) ≡ some p
unfolding format_prefix
parse-text true = refl
parse-text false = refl

wanted-text : (p : Bool) → is_skipped (ab scan_limit) (format_prefix (ab scan_limit) p) ≡ false
unfolding format_prefix cut_prefix
wanted-text true = refl
wanted-text false = refl

clean-text : (p : Bool) → is_clean (format_prefix (ab scan_limit) p) ≡ true
unfolding format_prefix is_clean
clean-text true = refl
clean-text false = refl

ab-NetipLaws : NetipLaws (ab scan_limit) is_clean any
unfolding format_prefix cut_prefix is_clean
ab-NetipLaws = record {
  canonical_parse = λ l p h. refl;
  parse_format = λ p h. parse-text p;
  trim_format = λ p h. refl;
  format_not_skipped = λ p h. wanted-text p;
  clean_format = λ p h. clean-text p;
  trim_header = refl;
  clean_header = refl;
  scan_unlines = λ ls h. ap (within scan_limit) (lines-unlines ls h) ∙ within-clean ls h;
}

-- A prefix and a line that is none, both with a carriage return before the newline.
abbrev trusted : Disk
trusted = file (codes "b" ++ 13 ∷ 10 ∷ codes "junk" ++ 13 ∷ 10 ∷ [])

-- A line that is too long for a scanner of 5 bytes.
abbrev too_long : Disk
too_long = file (codes "b" ++ 10 ∷ codes "junkjunk" ++ 10 ∷ [])

abbrev changes : List (TrustOp Bool)
changes = adding true true ∷ removing false false ∷ []

run-read_only_example : (run (ab 5) changes (start (ab 5) (codes "t") too_long)).1 ≡ too_long
unfolding lines within
run-read_only_example = run-read_only (ab 5) (codes "t") too_long changes (λ e. ground arith) refl

trusted-readable : (load (ab scan_limit) (codes "t") trusted).0.read_only ≡ false
unfolding load lines cut_prefix within
trusted-readable = refl

trusted-whole : all_of is_clean (lines_of (ab scan_limit) trusted) ≡ true
unfolding lines within is_clean
trusted-whole = refl

load-run_example :
    (load
      (ab scan_limit)
      (codes "t")
      (save
        (ab scan_limit)
        true
        (run (ab scan_limit) changes (start (ab scan_limit) (codes "t") trusted)).0
        missing).0).0
    ≡ (run (ab scan_limit) changes (start (ab scan_limit) (codes "t") trusted)).0
load-run_example =
    load-run any (ab scan_limit) is_clean ab-NetipLaws (codes "t") trusted missing changes
      (λ e. ground arith) trusted-readable trusted-whole refl
