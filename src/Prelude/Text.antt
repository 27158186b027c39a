-- ===== src/Prelude/Text.antt =====
-- Go strings as lists of bytes, with the functions of package `strings` that the agent calls.
use Prim.Native.Nat.{ℕ}
use Prim.Native.Char.{code}
use Prim.Native.String.{String}
use mathlib.Core.Bool.{Bool, true, false, ◌||◌}
use mathlib.Core.Option.{Option, none, some}
use mathlib.Core.List.{List, [], ◌∷◌}
use statixagent.Prelude.Tests.{if◌then◌else◌}
use statixagent.Prelude.Eq.{◌==◌, nat_eq}

abbrev pub Str : Type 0
Str = List ℕ

-- The bytes of an ASCII literal.
abbrev pub codes : String → Str
codes String.[] = []
codes (String.◌∷◌ c s) = code c ∷ codes s

-- `strings.CutPrefix(s, prefix)`: the rest, if the prefix is there
unfoldable pub cut_prefix : Str → Str → Option Str
cut_prefix s [] = some s
cut_prefix [] (p ∷ ps) = none
cut_prefix (c ∷ s) (p ∷ ps) = let rest = cut_prefix s ps in if c == p then rest else none

-- `strings.Cut(s, sep)` at a separator of one byte: before, after, found
unfoldable pub cut : Str → ℕ → Str × Str × Bool
cut [] sep = ([], [], false)
cut (c ∷ s) sep =
    let (before, after, found) = cut s sep in
    if c == sep then ([], s, true) else (c ∷ before, after, found)

-- `strings.Split(s, sep)` at a separator of one byte: the first part and the others
unfoldable pub split : Str → ℕ → Str × List Str
split [] sep = ([], [])
split (c ∷ s) sep =
    let (first, rest) = split s sep in if c == sep then ([], first ∷ rest) else (c ∷ first, rest)

-- `strings.IndexByte(s, c) >= 0`
unfoldable pub has_byte : Str → ℕ → Bool
has_byte [] c = false
has_byte (x ∷ s) c = x == c || has_byte s c
