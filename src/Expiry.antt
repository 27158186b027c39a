-- ===== src/Expiry.antt =====
-- Maps whose entries expire, with their keys in the order they were put, oldest first: the eviction that
-- the token store and the pending firewall plans share.
pub mod Evict
pub mod Keys
use statixagent.Prelude.{
  ℕ, ◌≤◌, ◌<◌, ◌≡◌, refl, ◌⊎◌, inl, inr, Bool, true, false, not, ◌&&◌, Option, none, some, List, [],
  ◌∷◌, ==_iff, ==_refl, str_eq, length, mem?, leb, if◌then◌else◌, Bool-cases, Option-cases, arith,
}
use statixagent.Prelude.Text.{Str}
use statixagent.Prelude.Time.{Time, before}
use statixagent.Prelude.Map.{is_some, Map, get, del, get-del}

module _ {V : Type 0} (expires : V → Time) where
  -- Expired entries leave the order and the map. A key that the map has not is a nil pointer: the program
  -- panics.
  unfoldable pub drop_expired : Time → List Str → Map Str V → Option (List Str × Map Str V)
  drop_expired now [] m = some ([], m)
  drop_expired now (n ∷ ns) m = elim (get m n) [
    | none ↦ none
    | some v ↦
        if not (before now (expires v))
        then drop_expired now ns (del m n)
        else elim (drop_expired now ns m) [ none ↦ none | some (ns', m') ↦ some (n ∷ ns', m') ]
  ]

module _ {V : Type 0} (cap : ℕ) where
  -- The oldest go while there are `cap` or more.
  unfoldable pub drop_oldest : List Str → Map Str V → List Str × Map Str V
  drop_oldest [] m = ([], m)
  drop_oldest (n ∷ ns) m =
      let rest = drop_oldest ns (del m n) in if leb cap (length (n ∷ ns)) then rest else (n ∷ ns, m)
