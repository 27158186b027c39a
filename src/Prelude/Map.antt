-- ===== src/Prelude/Map.antt =====
-- Go maps as association lists. Clients use the laws; no result depends on the order of entries.
use mathlib.Core.Path.{◌≡◌, refl}
use mathlib.Core.Bool.{Bool, true, false}
use mathlib.Core.Option.{Option, none, some}
use mathlib.Core.List.{List, [], ◌∷◌}
use native.Mathlib.Omega.{arith}
use statixagent.Prelude.Tests.{if◌then◌else◌}
use statixagent.Prelude.Eq.{Comparable, ◌==◌, ==_iff, ==_refl}

abbrev pub Map {ℓ κ} : Type ℓ → Type κ → Type (ℓ ⊔ κ)
Map K V = List (K × V)

-- A value kept only if it passes a test.
abbrev pub keep_if {ℓ} : {V : Type ℓ} → (V → Bool) → Option V → Option V
keep_if p none = none
keep_if p (some v) = if p v then some v else none

abbrev pub or_else {ℓ} : {V : Type ℓ} → Option V → V → V
or_else none d = d
or_else (some v) d = v

abbrev pub is_some {ℓ} : {V : Type ℓ} → Option V → Bool
is_some none = false
is_some (some v) = true

module _ {ℓ κ} {K : Type ℓ} ⦃e : Comparable K⦄ {V : Type κ} where
  -- `v, ok := m[k]`
  unfoldable pub get : Map K V → K → Option V
  get [] k = none
  get ((j, v) ∷ m) k = if j == k then some v else get m k

  -- `delete(m, k)`
  unfoldable pub del : Map K V → K → Map K V
  del [] k = []
  del ((j, v) ∷ m) k = let rest = del m k in if j == k then rest else (j, v) ∷ rest

  -- `m[k] = v`
  unfoldable pub put : Map K V → K → V → Map K V
  unfolding del
  put m k v = (k, v) ∷ del m k

  -- `for k, v := range m { if !p(v) { delete(m, k) } }`
  unfoldable pub retain : (V → Bool) → Map K V → Map K V
  unfolding del
  retain p [] = []
  retain p ((k, v) ∷ m) = let rest = del (retain p m) k in if p v then (k, v) ∷ rest else rest

  pub get-nil : (k : K) → get [] k ≡ none
  unfolding get
  get-nil k = refl

  pub get-del : (m : Map K V) (k j : K) → get (del m k) j ≡ (if k == j then none else get m j)
  unfolding get del
  get-del [] k j = ground arith
  get-del ((i, v) ∷ m) k j = ground (arith, get-del m k j, ==_iff i k, ==_iff i j, ==_iff k j)

  pub get-put :
      (m : Map K V) (k j : K) (v : V) → get (put m k v) j ≡ (if k == j then some v else get m j)
  unfolding get put
  get-put m k j v = ground (arith, get-del m k j)

  pub get-put_self : (m : Map K V) (k : K) (v : V) → get (put m k v) k ≡ some v
  get-put_self m k v = ground (arith, get-put m k k v, ==_refl k)

  pub get-retain : (p : V → Bool) (m : Map K V) (j : K) → get (retain p m) j ≡ keep_if p (get m j)
  unfolding get retain
  get-retain p [] j = refl
  get-retain p ((k, v) ∷ m) j =
      ground (arith, get-retain p m j, get-del (retain p m) k j, ==_iff k j)

pub ruleset map_laws = (get-nil, get-del, get-put, get-retain)
