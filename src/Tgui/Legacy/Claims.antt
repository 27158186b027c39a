-- ===== src/Tgui/Legacy/Claims.antt =====
-- Which rule of a checked table takes which data.
use mathlib.Core.List.{append-nil, append_assoc}
use statixagent.Prelude.{
  ◌<◌, ◌≡◌, refl, sym, ◌∙◌, ap, ◌⊎◌, inl, inr, true, false, ◌||◌, some, List, [], ◌∷◌, ◌++◌, ◌==◌,
  nat_eq, str_eq, ==_iff, length, mem?, Bool-cases, arith,
}
use statixagent.Prelude.Text.{Str, cut_prefix}
use statixagent.Tgui.Codec.{is_call}
use statixagent.Tgui.Legacy.{
  LegacyRule, starts_with, has_prefix, claims, exact_free, prefixes_free, not_shadowed, rule_passes,
  rules_pass, new_legacy_table, lookup,
}

-- Of two prefixes of one text, one that the other does not start with is the longer.
pub longer_prefix :
    (d p q : Str)
    → starts_with d p ≡ true
    → starts_with d q ≡ true
    → starts_with p q ≡ false
    → length p < length q
unfolding cut_prefix
longer_prefix d [] [] h k n = absurd (ground arith)
longer_prefix d [] (y ∷ q) h k n = omega arith
longer_prefix [] (x ∷ p) q h k n = absurd (ground arith)
longer_prefix (c ∷ d) (x ∷ p) [] h k n = absurd (ground arith)
longer_prefix (c ∷ d) (x ∷ p) (y ∷ q) h k n =
    ground (arith, longer_prefix d p q, ==_iff c x, ==_iff c y, ==_iff x y)

pub is_call-prefix :
    (d p : Str) → starts_with d p ≡ true → is_call d ≡ true → (p == [] || is_call p) ≡ true
unfolding cut_prefix is_call
is_call-prefix d [] h k = refl
is_call-prefix [] (x ∷ p) h k = absurd (ground arith)
is_call-prefix (c ∷ d) (x ∷ p) h k = ground (arith, ==_iff c x, ==_iff x b'~', ==_iff c b'~')

-- The prefix that made `has_prefix` true.
pub has_prefix-found :
    (d : Str) (ps : List Str)
    → has_prefix d ps ≡ true
    → (p : Str) × (mem? p ps ≡ true) × (starts_with d p ≡ true)
unfolding has_prefix
has_prefix-found d [] h = absurd (ground arith)
has_prefix-found d (p ∷ ps) h = elim (Bool-cases (starts_with d p)) [
  | inl this ↦ (p, ground (arith, ==_iff p p), this)
  | inr other ↦ let (q, m, s) = has_prefix-found d ps (ground arith) in (q, ground arith, s)
]

pub has_prefix_of_mem :
    (d p : Str) (ps : List Str) → mem? p ps ≡ true → starts_with d p ≡ true → has_prefix d ps ≡ true
unfolding has_prefix
has_prefix_of_mem d p [] m s = absurd (ground arith)
has_prefix_of_mem d p (q ∷ ps) m s = elim (Bool-cases (q == p)) [
  | inl same ↦
      let e : q ≡ p = (==_iff q p).0 same in
      let t : starts_with d q ≡ true = ap (starts_with d) e ∙ s in ground arith
  | inr other ↦ ground (arith, has_prefix_of_mem d p ps (ground arith) s)
]

module _ {H : Type 0} where
  abbrev pub Among : LegacyRule H → List (LegacyRule H) → Type 0
  Among q [] = ⊥
  Among q (r ∷ rs) = (r ≡ q) ⊎ Among q rs

  pub not_shadowed-Among :
      (q r : LegacyRule H) (prevs : List (LegacyRule H))
      → not_shadowed prevs r ≡ true
      → Among q prevs
      → (exact_free q r.exact ≡ true) × (prefixes_free q r.prefixes ≡ true)
  unfolding not_shadowed
  not_shadowed-Among q r [] h a = absurd a
  not_shadowed-Among q r (p ∷ prevs) h (inl e) = (
    ap (λ (x : LegacyRule H). exact_free x r.exact) (sym e) ∙ ground arith,
    ap (λ (x : LegacyRule H). prefixes_free x r.prefixes) (sym e) ∙ ground arith,
  )
  not_shadowed-Among q r (p ∷ prevs) h (inr a) = not_shadowed-Among q r prevs (ground arith) a

  pub exact_free-claims :
      (q : LegacyRule H) (d : Str) (ds : List Str)
      → exact_free q ds ≡ true
      → mem? d ds ≡ true
      → claims q d ≡ false
  unfolding exact_free
  exact_free-claims q d [] h m = absurd (ground arith)
  exact_free-claims q d (x ∷ ds) h m = elim (Bool-cases (x == d)) [
    | inl same ↦
        let free : claims q x ≡ false = ground arith in
        ap (claims q) (sym ((==_iff x d).0 same)) ∙ free
    | inr other ↦ exact_free-claims q d ds (ground arith) (ground arith)
  ]

  pub prefixes_free-has_prefix :
      (q : LegacyRule H) (p : Str) (ps : List Str)
      → prefixes_free q ps ≡ true
      → mem? p ps ≡ true
      → has_prefix p q.prefixes ≡ false
  unfolding prefixes_free
  prefixes_free-has_prefix q p [] h m = absurd (ground arith)
  prefixes_free-has_prefix q p (x ∷ ps) h m = elim (Bool-cases (x == p)) [
    | inl same ↦
        let free : has_prefix x q.prefixes ≡ false = ground arith in
        ap (λ s. has_prefix s q.prefixes) (sym ((==_iff x p).0 same)) ∙ free
    | inr other ↦ prefixes_free-has_prefix q p ps (ground arith) (ground arith)
  ]

  pub rule_passes_at :
      (prevs before : List (LegacyRule H)) (r : LegacyRule H) (after : List (LegacyRule H))
      → rules_pass prevs (before ++ r ∷ after) ≡ true
      → rule_passes (prevs ++ before) r ≡ true
  unfolding rules_pass
  rule_passes_at prevs [] r after h = ap (λ l. rule_passes l r) (append-nil prevs) ∙ ground arith
  rule_passes_at prevs (x ∷ before) r after h =
      ap (λ l. rule_passes l r) (sym (append_assoc prevs (x ∷ []) before))
      ∙ rule_passes_at (prevs ++ x ∷ []) before r after (ground arith)

  -- The first rule that claims the data is `r` or stands before it.
  pub lookup_at :
      (before : List (LegacyRule H)) (r : LegacyRule H) (after : List (LegacyRule H)) (d : Str)
      → claims r d ≡ true
      → (lookup (before ++ r ∷ after) d ≡ some r)
        ⊎ ((q : LegacyRule H) × Among q before
            × (claims q d ≡ true)
            × (lookup (before ++ r ∷ after) d ≡ some q))
  unfolding lookup
  lookup_at [] r after d h = inl (ground arith)
  lookup_at (x ∷ before) r after d h = elim (Bool-cases (claims x d)) [
    | inl takes ↦ inr (x, inl refl, takes, ground arith)
    | inr leaves ↦ elim (lookup_at before r after d h) [
      | inl e ↦ inl (ground arith)
      | inr (q, a, c, e) ↦ inr (q, inr a, c, ground arith)
    ]
  ]

  pub table_rules :
      (rules t : List (LegacyRule H))
      → new_legacy_table rules ≡ some t
      → (rules_pass [] rules ≡ true) × (rules ≡ t)
  unfolding new_legacy_table
  table_rules rules t h = ground arith
