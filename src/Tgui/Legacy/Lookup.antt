-- ===== src/Tgui/Legacy/Lookup.antt =====
-- What `Lookup` answers on a table that `NewLegacyTable` accepted.
use statixagent.Prelude.{
  ◌<◌, ◌≡◌, refl, sym, ◌∙◌, ap, ◌⊎◌, inl, inr, true, false, none, some, List, [], ◌∷◌, ◌++◌, ◌==◌,
  nat_eq, str_eq, ==_iff, length, mem?, Bool-cases, arith,
}
use statixagent.Prelude.Text.{Str}
use statixagent.Tgui.Codec.{is_call}
use statixagent.Tgui.Legacy.{
  LegacyRule, starts_with, has_prefix, claims, old_claims, not_shadowed, rule_passes, rules_pass,
  new_legacy_table, lookup,
}
use statixagent.Tgui.Legacy.Claims.{
  longer_prefix, is_call-prefix, has_prefix-found, has_prefix_of_mem, Among, not_shadowed-Among,
  exact_free-claims, prefixes_free-has_prefix, rule_passes_at, lookup_at, table_rules,
}

old_claims-exact :
    (d : Str) (cs ps : List Str)
    → old_claims (cs ++ ps) ≡ true
    → is_call d ≡ true
    → mem? d cs ≡ false
unfolding old_claims
old_claims-exact d [] ps h k = refl
old_claims-exact d (c ∷ cs) ps h k = elim (Bool-cases (c == d)) [
  | inl same ↦ absurd (ground (arith, ap is_call ((==_iff c d).0 same)))
  | inr other ↦ ground (arith, old_claims-exact d cs ps (ground arith) k)
]

old_claims-prefixes :
    (d : Str) (cs ps : List Str)
    → old_claims (cs ++ ps) ≡ true
    → is_call d ≡ true
    → has_prefix d ps ≡ false
unfolding old_claims has_prefix
old_claims-prefixes d [] [] h k = refl
old_claims-prefixes d [] (p ∷ ps) h k =
    ground (arith, is_call-prefix d p, old_claims-prefixes d [] ps)
old_claims-prefixes d (c ∷ cs) ps h k = old_claims-prefixes d cs ps (ground arith) k

module _ {H : Type 0} where
  passes_not_shadowed :
      (before : List (LegacyRule H)) (r : LegacyRule H) (after t : List (LegacyRule H))
      → new_legacy_table (before ++ r ∷ after) ≡ some t
      → not_shadowed before r ≡ true
  passes_not_shadowed before r after t h =
      let passes = rule_passes_at [] before r after (table_rules (before ++ r ∷ after) t h).0 in
      unfold rule_passes in ground arith

  -- In an accepted table no rule hides what another claims whole: data that a rule lists is handled by
  -- that rule.
  pub lookup-exact :
      (before : List (LegacyRule H)) (r : LegacyRule H) (after t : List (LegacyRule H)) (d : Str)
      → new_legacy_table (before ++ r ∷ after) ≡ some t
      → mem? d r.exact ≡ true
      → lookup t d ≡ some r
  lookup-exact before r after t d h m =
      let takes : claims r d ≡ true = unfold claims in ground arith in
      ap (λ l. lookup l d) (sym (table_rules (before ++ r ∷ after) t h).1)
      ∙ elim (lookup_at before r after d takes) [
        | inl e ↦ e
        | inr (q, a, c, e) ↦
            let free =
              (not_shadowed-Among q r before (passes_not_shadowed before r after t h) a).0 in
            absurd (ground (arith, exact_free-claims q d r.exact free m))
      ]

  -- The rule `q` claims the data more closely than by the prefix `p`.
  abbrev pub IsCloser : LegacyRule H → Str → Str → Type 0
  IsCloser q p d =
      (mem? d q.exact ≡ true)
      ⊎ ((p' : Str) × (mem? p' q.prefixes ≡ true)
          × (starts_with d p' ≡ true)
          × (length p < length p'))

  closer :
      (q : LegacyRule H) (d p : Str)
      → claims q d ≡ true
      → has_prefix p q.prefixes ≡ false
      → starts_with d p ≡ true
      → IsCloser q p d
  closer q d p c n s = elim (Bool-cases (mem? d q.exact)) [
    | inl whole ↦ inl whole
    | inr not_whole ↦
        let (p', m, s') = has_prefix-found d q.prefixes (unfold claims in ground arith) in
        inr (
          p',
          m,
          s',
          longer_prefix d p p' s s' (elim (Bool-cases (starts_with p p')) [
            | inl t ↦ absurd (ground (arith, has_prefix_of_mem p p' q.prefixes m t))
            | inr f ↦ f
          ]),
        )
  ]

  -- In an accepted table data that starts with a rule's prefix is handled by that rule, or by an earlier
  -- one that lists the data or has a longer prefix of it.
  lookup-prefix :
      (before : List (LegacyRule H)) (r : LegacyRule H) (after t : List (LegacyRule H)) (d p : Str)
      → new_legacy_table (before ++ r ∷ after) ≡ some t
      → mem? p r.prefixes ≡ true
      → starts_with d p ≡ true
      → (lookup t d ≡ some r)
        ⊎ ((q : LegacyRule H) × Among q before × (lookup t d ≡ some q) × IsCloser q p d)
  lookup-prefix before r after t d p h m s =
      let takes : claims r d ≡ true =
        unfold claims in ground (arith, has_prefix_of_mem d p r.prefixes m s) in
      let is = ap (λ l. lookup l d) (sym (table_rules (before ++ r ∷ after) t h).1) in
      elim (lookup_at before r after d takes) [
        | inl e ↦ inl (is ∙ e)
        | inr (q, a, c, e) ↦
            let free =
              (not_shadowed-Among q r before (passes_not_shadowed before r after t h) a).1 in
            inr (q, a, is ∙ e, closer q d p c (prefixes_free-has_prefix q p r.prefixes free m) s)
      ]

  not_claimed :
      (prevs rules : List (LegacyRule H)) (d : Str)
      → rules_pass prevs rules ≡ true
      → is_call d ≡ true
      → lookup rules d ≡ none
  unfolding rules_pass lookup rule_passes claims
  not_claimed prevs [] d h k = refl
  not_claimed prevs (r ∷ rules) d h k =
      let old : old_claims (r.exact ++ r.prefixes) ≡ true = ground arith in
      ground (
        arith,
        old_claims-exact d r.exact r.prefixes old k,
        old_claims-prefixes d r.exact r.prefixes old k,
        not_claimed (prevs ++ r ∷ []) rules d,
      )

  -- The two formats do not meet: an accepted table claims no data of the new format.
  lookup-is_call :
      (rules t : List (LegacyRule H)) (d : Str)
      → new_legacy_table rules ≡ some t
      → is_call d ≡ true
      → lookup t d ≡ none
  lookup-is_call rules t d h k =
      let (passes, same) = table_rules rules t h in
      ap (λ l. lookup l d) (sym same) ∙ not_claimed [] rules d passes k
