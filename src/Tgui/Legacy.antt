-- ===== src/Tgui/Legacy.antt =====
-- internal/tgui/legacy.go: callback data that predates the `~1` format. A rule's handler is of any type
-- `H`, and a `nil` one is `none`; a panic of `NewLegacyTable` is `none`.
pub mod Claims
pub mod Lookup
use statixagent.Prelude.{
  Bool, true, false, not, ◌&&◌, ◌||◌, Option, none, some, List, [], ◌∷◌, ◌++◌, ◌+◌, ◌==◌, nat_eq,
  str_eq, length, mem?, if◌then◌else◌,
}
use statixagent.Prelude.Text.{Str, cut_prefix}
use statixagent.Prelude.Map.{is_some}
use statixagent.Tgui.Codec.{is_call}

pub record LegacyRule (H : Type 0) : Type 0 where
  pub name : Str
  pub exact : List Str
  pub prefixes : List Str
  pub slow : Bool
  pub ack : Str
  pub handle : Option H

-- `strings.HasPrefix`
abbrev pub starts_with : Str → Str → Bool
starts_with s p = is_some (cut_prefix s p)

unfoldable pub has_prefix : Str → List Str → Bool
has_prefix s [] = false
has_prefix s (p ∷ ps) = starts_with s p || has_prefix s ps

unfoldable pub claims : {H : Type 0} → LegacyRule H → Str → Bool
unfolding has_prefix
claims r data_ = mem? data_ r.exact || has_prefix data_ r.prefixes

-- no claim is empty or of the new format
unfoldable pub old_claims : List Str → Bool
old_claims [] = true
old_claims (c ∷ cs) = not (c == [] || is_call c) && old_claims cs

-- no datum is claimed by the earlier rule
unfoldable pub exact_free : {H : Type 0} → LegacyRule H → List Str → Bool
exact_free prev [] = true
exact_free prev (d ∷ ds) = not (claims prev d) && exact_free prev ds

-- no prefix starts with one of the earlier rule
unfoldable pub prefixes_free : {H : Type 0} → LegacyRule H → List Str → Bool
prefixes_free prev [] = true
prefixes_free prev (p ∷ ps) = not (has_prefix p prev.prefixes) && prefixes_free prev ps

-- the loop over `rules[:i]`
unfoldable pub not_shadowed : {H : Type 0} → List (LegacyRule H) → LegacyRule H → Bool
unfolding exact_free prefixes_free
not_shadowed [] r = true
not_shadowed (prev ∷ prevs) r =
    exact_free prev r.exact && prefixes_free prev r.prefixes && not_shadowed prevs r

-- one round of the loop over `rules`
unfoldable pub rule_passes : {H : Type 0} → List (LegacyRule H) → LegacyRule H → Bool
unfolding old_claims not_shadowed
rule_passes prevs r =
    is_some r.handle
    && not (length r.exact + length r.prefixes == 0)
    && old_claims (r.exact ++ r.prefixes)
    && not_shadowed prevs r

unfoldable pub rules_pass : {H : Type 0} → List (LegacyRule H) → List (LegacyRule H) → Bool
rules_pass prevs [] = true
rules_pass prevs (r ∷ rs) = rule_passes prevs r && rules_pass (prevs ++ r ∷ []) rs

-- A table is its rules in order.
unfoldable pub new_legacy_table : {H : Type 0} → List (LegacyRule H) → Option (List (LegacyRule H))
unfolding rules_pass
new_legacy_table rules = if rules_pass [] rules then some rules else none

unfoldable pub lookup : {H : Type 0} → List (LegacyRule H) → Str → Option (LegacyRule H)
lookup [] data_ = none
lookup (r ∷ rs) data_ = let rest = lookup rs data_ in if claims r data_ then some r else rest
