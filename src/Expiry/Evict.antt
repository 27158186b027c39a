-- ===== src/Expiry/Evict.antt =====
-- What the eviction leaves: it never meets a nil pointer, it makes room, and it only takes entries away.
use statixagent.Prelude.{
  ℕ, ◌≤◌, ◌<◌, ◌≡◌, refl, ◌⊎◌, inl, inr, Bool, true, false, not, ◌&&◌, Option, none, some, List, [],
  ◌∷◌, ==_iff, ==_refl, str_eq, length, mem?, leb, if◌then◌else◌, Bool-cases, Option-cases, arith,
}
use statixagent.Prelude.Text.{Str}
use statixagent.Prelude.Time.{Time, before}
use statixagent.Prelude.Map.{is_some, Map, get, del, get-del}
use statixagent.Expiry.{drop_expired, drop_oldest}

abbrev pub Distinct : List Str → Type 0
Distinct [] = Unit
Distinct (n ∷ ns) = (mem? n ns ≡ false) × Distinct ns

-- The keys in order are those of the map.
abbrev pub Matched : {V : Type 0} → List Str → Map Str V → Type 0
Matched ns m = (n : Str) → is_some (get m n) ≡ mem? n ns

-- A map that lost entries, and nothing else.
abbrev pub Shrinks : {V : Type 0} → Map Str V → Map Str V → Type 0
Shrinks m m' = (n : Str) → (get m' n ≡ get m n) ⊎ (get m' n ≡ none)

abbrev over : {V : Type 0} → (V → Time) → Time → Option V → Bool
over expires now none = false
over expires now (some v) = not (before now (expires v))

-- Every listed key is in the map.
abbrev Stored : {V : Type 0} → List Str → Map Str V → Type 0
Stored ns m = (n : Str) → mem? n ns ≡ true → is_some (get m n) ≡ true

pub record Dropped {V : Type 0} (expires : V → Time) (now : Time) (ns : List Str) (m : Map Str V)
    : Type 0 where
  pub left : List Str
  pub store : Map Str V
  pub returns : drop_expired expires now ns m ≡ some (left, store)
  pub left_mem : (j : Str) → mem? j left ≡ (mem? j ns && not (over expires now (get m j)))
  pub store_get :
      (j : Str) → get store j ≡ (if mem? j ns && over expires now (get m j) then none else get m j)
  pub distinct : Distinct left
  pub shorter : length left ≤ length ns

module _ {V : Type 0} (expires : V → Time) (now : Time) (n : Str) (ns : List Str) (m : Map Str V)
    (tok : V) (d : Distinct (n ∷ ns)) (here : get m n ≡ some tok) where
  keep_first :
      before now (expires tok) ≡ true → Dropped expires now ns m → Dropped expires now (n ∷ ns) m
  keep_first fresh r = record {
    left = n ∷ r.left;
    store = r.store;
    returns = unfold drop_expired in ground (arith, r.returns);
    left_mem = λ j. ground (arith, ==_iff n j, r.left_mem j);
    store_get = λ j. ground (arith, ==_iff n j, r.store_get j);
    distinct = (ground (arith, r.left_mem n), r.distinct);
    shorter = omega (arith, r.shorter);
  }

  drop_first :
      before now (expires tok) ≡ false
      → Dropped expires now ns (del m n)
      → Dropped expires now (n ∷ ns) m
  drop_first old r = record {
    left = r.left;
    store = r.store;
    returns = unfold drop_expired in ground (arith, r.returns);
    left_mem = λ j. ground (arith, ==_iff n j, r.left_mem j, get-del m n j);
    store_get = λ j. ground (arith, ==_iff n j, r.store_get j, get-del m n j);
    distinct = r.distinct;
    shorter = omega (arith, r.shorter);
  }

pub drop_expired_lem :
    {V : Type 0} (expires : V → Time) (now : Time) (ns : List Str) (m : Map Str V)
    → Distinct ns
    → Stored ns m
    → Dropped expires now ns m
drop_expired_lem expires now [] m d st = record {
  left = [];
  store = m;
  returns = unfold drop_expired in refl;
  left_mem = λ j. refl;
  store_get = λ j. refl;
  distinct = tt;
  shorter = omega arith;
}
drop_expired_lem expires now (n ∷ ns) m d st = elim (Option-cases (get m n)) [
  | inl absent ↦ absurd (ground (arith, st n, ==_refl n))
  | inr (tok, here) ↦ elim (Bool-cases (before now (expires tok))) [
    | inl fresh ↦
        keep_first expires now n ns m tok d here fresh
          (drop_expired_lem expires now ns m d.1 (λ j h. ground (arith, st j)))
    | inr old ↦ drop_first expires now n ns m tok d here old (
        drop_expired_lem expires now ns (del m n) d.1
          (λ j h. ground (arith, st j, get-del m n j, ==_iff n j)))
  ]
]

pub drop_oldest_room :
    {V : Type 0} (cap : ℕ) (ns : List Str) (m : Map Str V)
    → 0 < cap
    → length (drop_oldest cap ns m).0 < cap
unfolding drop_oldest
drop_oldest_room cap [] m h = omega arith
drop_oldest_room cap (n ∷ ns) m h = ground (arith, drop_oldest_room cap ns (del m n) h)

Matched-tail :
    {V : Type 0} (n : Str) (ns : List Str) (m : Map Str V)
    → Distinct (n ∷ ns)
    → Matched (n ∷ ns) m
    → Matched ns (del m n)
Matched-tail n ns m d h = λ j. ground (arith, get-del m n j, h j, ==_iff n j)

pub drop_oldest-Matched :
    {V : Type 0} (cap : ℕ) (ns : List Str) (m : Map Str V)
    → Distinct ns
    → Matched ns m
    → Distinct (drop_oldest cap ns m).0 × Matched (drop_oldest cap ns m).0 (drop_oldest cap ns m).1
unfolding drop_oldest
drop_oldest-Matched cap [] m d h = (tt, h)
drop_oldest-Matched cap (n ∷ ns) m d h = elim (Bool-cases (leb cap (length (n ∷ ns)))) [
  | inl full ↦ rw full (drop_oldest-Matched cap ns (del m n) d.1 (Matched-tail n ns m d h))
  | inr room ↦ rw room (d, h)
]

pub drop_oldest-Shrinks :
    {V : Type 0} (cap : ℕ) (ns : List Str) (m : Map Str V) → Shrinks m (drop_oldest cap ns m).1
unfolding drop_oldest
drop_oldest-Shrinks cap [] m = λ j. inl refl
drop_oldest-Shrinks cap (n ∷ ns) m =
    λ j. ground (arith, drop_oldest-Shrinks cap ns (del m n) j, get-del m n j)

module _ {V : Type 0} (expires : V → Time) (now : Time) (ns : List Str) (m : Map Str V)
    (h : Matched ns m) (r : Dropped expires now ns m) where
  pub Matched-left : Matched r.left r.store
  Matched-left = λ j. ground (arith, h j, r.left_mem j, r.store_get j)

  pub Shrinks-left : Shrinks m r.store
  Shrinks-left = λ j. ground (arith, r.store_get j)

pub Shrinks-trans : {V : Type 0} (a b c : Map Str V) → Shrinks a b → Shrinks b c → Shrinks a c
Shrinks-trans a b c h k = λ j. ground (arith, h j, k j)
