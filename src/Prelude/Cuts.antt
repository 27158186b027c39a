-- ===== src/Prelude/Cuts.antt =====
-- What `strings.Cut` and `strings.Split` give, for a separator of one byte.
use Prim.Native.Nat.{ℕ}
use mathlib.Core.Path.{◌≡◌, refl}
use mathlib.Core.Bool.{Bool, true, false}
use mathlib.Core.List.{[], ◌∷◌, ◌++◌}
use native.Mathlib.Omega.{arith}
use statixagent.Prelude.Tests.{if◌then◌else◌}
use statixagent.Prelude.Eq.{◌==◌, nat_eq, ==_iff}
use statixagent.Prelude.Text.{Str, cut, split}

-- A byte does not occur.
abbrev pub Free : ℕ → Str → Type 0
Free sep [] = Unit
Free sep (c ∷ s) = ((c == sep) ≡ false) × Free sep s

pub cut-Free : (sep : ℕ) (s : Str) → Free sep s → cut s sep ≡ (s, [], false)
unfolding cut
cut-Free sep [] f = refl
cut-Free sep (c ∷ s) f = ground (arith, cut-Free sep s f.1)

pub cut_at : (sep : ℕ) (s t : Str) → Free sep s → cut (s ++ sep ∷ t) sep ≡ (s, t, true)
unfolding cut
cut_at sep [] t f = ground arith
cut_at sep (c ∷ s) t f = ground (arith, cut_at sep s t f.1)

pub Free-append : (sep : ℕ) (s t : Str) → Free sep s → Free sep t → Free sep (s ++ t)
Free-append sep [] t f g = g
Free-append sep (c ∷ s) t f g = (f.0, Free-append sep s t f.1 g)

pub split-Free :
    (sep : ℕ) (s t : Str)
    → Free sep s
    → split (s ++ t) sep ≡ (s ++ (split t sep).0, (split t sep).1)
unfolding split
split-Free sep [] t f = refl
split-Free sep (c ∷ s) t f = ground (arith, split-Free sep s t f.1)

-- What `cut` gave, put together again.
uncut : Str × Str × Bool → ℕ → Str
uncut (before, after, found) sep = if found then before ++ sep ∷ after else before

uncut-cut : (s : Str) (sep : ℕ) → uncut (cut s sep) sep ≡ s
unfolding cut uncut
uncut-cut [] sep = refl
uncut-cut (c ∷ s) sep = ground (arith, uncut-cut s sep, ==_iff c sep)

pub cut-after : (s : Str) (sep : ℕ) → (cut s sep).2 ≡ false → (cut s sep).1 ≡ []
unfolding cut
cut-after [] sep h = refl
cut-after (c ∷ s) sep h = ground (arith, cut-after s sep)

pub cut-whole :
    (s : Str) (sep : ℕ) → (cut s sep).2 ≡ true → (cut s sep).0 ++ sep ∷ (cut s sep).1 ≡ s
unfolding uncut
cut-whole s sep h = ground (arith, uncut-cut s sep)

pub cut-none : (s : Str) (sep : ℕ) → (cut s sep).2 ≡ false → (cut s sep).0 ≡ s
unfolding uncut
cut-none s sep h = ground (arith, uncut-cut s sep)
