-- ===== src/Prelude/Strings.antt =====
-- Functions of packages `strings` and `slices`, on bytes. Letters and spaces are those of ASCII.
use Prim.Native.Nat.{ℕ, zero, suc, ◌+◌, ◌-◌}
use mathlib.Core.Bool.{Bool, true, false, ◌&&◌, ◌||◌}
use mathlib.Core.Option.{Option, none, some}
use mathlib.Core.List.{List, [], ◌∷◌, ◌++◌}
use statixagent.Prelude.Tests.{leb, if◌then◌else◌}
use statixagent.Prelude.Eq.{◌==◌, nat_eq, str_eq}
use statixagent.Prelude.Lists.{length}
use statixagent.Prelude.Text.{Str, cut_prefix}

-- `strings.HasPrefix`
abbrev pub starts : Str → Str → Bool
starts s p = elim (cut_prefix s p) [ none ↦ false | some rest ↦ true ]

abbrev pub is_space : ℕ → Bool
is_space c = leb 9 c && leb c 13 || c == 32

abbrev pub lower_byte : ℕ → ℕ
lower_byte c = if leb b'A' c && leb c b'Z' then c + 32 else c

abbrev pub upper_byte : ℕ → ℕ
upper_byte c = if leb b'a' c && leb c b'z' then c - 32 else c

unfoldable pub to_lower : Str → Str
to_lower [] = []
to_lower (c ∷ s) = lower_byte c ∷ to_lower s

unfoldable pub to_upper : Str → Str
to_upper [] = []
to_upper (c ∷ s) = upper_byte c ∷ to_upper s

-- `strings.EqualFold` with a text of lower case
abbrev pub equal_fold : Str → Str → Bool
unfolding to_lower
equal_fold s t = to_lower s == t

-- What stands before and after the first occurrence of `sub`, as `strings.Cut` and `strings.Index` find it.
unfoldable pub cut_text : Str → Str → Option (Str × Str)
cut_text [] sub = if sub == [] then some ([], []) else none
cut_text (c ∷ s) sub =
    let later = cut_text s sub in
    elim (cut_prefix (c ∷ s) sub) [
      | some rest ↦ some ([], rest)
      | none ↦ elim later [ none ↦ none | some (before, after) ↦ some (c ∷ before, after) ]
    ]

-- The same for the last occurrence of a byte.
unfoldable pub cut_last : Str → ℕ → Option (Str × Str)
cut_last [] b = none
cut_last (c ∷ s) b = elim (cut_last s b) [
  | some (before, after) ↦ some (c ∷ before, after)
  | none ↦ if c == b then some ([], s) else none
]

unfoldable pub contains : Str → Str → Bool
unfolding cut_text
contains s sub = elim (cut_text s sub) [ none ↦ false | some r ↦ true ]

abbrev pub push_word : Str → List Str → List Str
push_word [] ws = ws
push_word (c ∷ w) ws = (c ∷ w) ∷ ws

-- The word that the text begins with, which may be empty, and the words behind it.
unfoldable pub words : Str → Str × List Str
words [] = ([], [])
words (c ∷ s) = let (w, ws) = words s in if is_space c then ([], push_word w ws) else (c ∷ w, ws)

unfoldable pub fields : Str → List Str
unfolding words
fields s = let (w, ws) = words s in push_word w ws

unfoldable pub trim_left : Str → Str
trim_left [] = []
trim_left (c ∷ s) = let rest = trim_left s in if is_space c then rest else c ∷ s

unfoldable pub trim_right : Str → Str
trim_right [] = []
trim_right (c ∷ s) = let rest = trim_right s in if is_space c && rest == [] then [] else c ∷ rest

unfoldable pub trim_space : Str → Str
unfolding trim_left trim_right
trim_space s = trim_right (trim_left s)

unfoldable pub join : Str → List Str → Str
join sep [] = []
join sep (p ∷ []) = p
join sep (p ∷ q ∷ ps) = p ++ sep ++ join sep (q ∷ ps)

-- `strings.ReplaceAll(s, sub, by)`, where `k` bytes of an occurrence are still to be skipped
unfoldable pub replace_from : ℕ → Str → Str → Str → Str
replace_from k [] sub by = []
replace_from (suc k) (c ∷ s) sub by = replace_from k s sub by
replace_from zero (c ∷ s) sub by =
    let skipped = replace_from (length sub - 1) s sub by in
    let kept = replace_from zero s sub by in if starts (c ∷ s) sub then by ++ skipped else c ∷ kept

unfoldable pub replace_all : Str → Str → Str → Str
unfolding replace_from
replace_all s sub by = replace_from zero s sub by

module _ {ℓ} {A : Type ℓ} where
  -- `slices.ContainsFunc`
  unfoldable pub any : (A → Bool) → List A → Bool
  any f [] = false
  any f (x ∷ xs) = f x || any f xs

  -- `slices.DeleteFunc`
  unfoldable pub delete_where : (A → Bool) → List A → List A
  delete_where f [] = []
  delete_where f (x ∷ xs) = let rest = delete_where f xs in if f x then rest else x ∷ rest

  -- The first element that passes: what `slices.IndexFunc` finds.
  unfoldable pub find : (A → Bool) → List A → Option A
  find f [] = none
  find f (x ∷ xs) = let rest = find f xs in if f x then some x else rest

  -- An element in the place of the first that passes, and the list without that.
  unfoldable pub set_first : (A → Bool) → A → List A → List A
  set_first f a [] = []
  set_first f a (x ∷ xs) = let rest = set_first f a xs in if f x then a ∷ xs else x ∷ rest

  unfoldable pub delete_first_where : (A → Bool) → List A → List A
  delete_first_where f [] = []
  delete_first_where f (x ∷ xs) = let rest = delete_first_where f xs in if f x then xs else x ∷ rest

  -- An element inserted before the first that passes, or at the end.
  unfoldable pub insert_before : (A → Bool) → A → List A → List A
  insert_before f a [] = a ∷ []
  insert_before f a (x ∷ xs) =
      let rest = insert_before f a xs in if f x then a ∷ x ∷ xs else x ∷ rest
