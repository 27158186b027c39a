-- ===== src/Expiry/Keys.antt =====
-- Lists of keys without repeats.
use statixagent.Prelude.{
  ◌≤◌, ◌≡◌, refl, inl, inr, false, not, ◌&&◌, ◌||◌, List, [], ◌∷◌, ◌++◌, ◌==◌, ==_iff, str_eq,
  length, mem?, without, Bool-cases, arith,
}
use statixagent.Prelude.Text.{Str}
use statixagent.Expiry.Evict.{Distinct}

pub mem?-append : (ns : List Str) (n j : Str) → mem? j (ns ++ n ∷ []) ≡ (mem? j ns || n == j)
mem?-append [] n j = ground arith
mem?-append (x ∷ ns) n j = ground (arith, mem?-append ns n j)

pub Distinct-append :
    (ns : List Str) (n : Str) → Distinct ns → mem? n ns ≡ false → Distinct (ns ++ n ∷ [])
Distinct-append [] n d h = (refl, tt)
Distinct-append (x ∷ ns) n d h = (
  ground (arith, mem?-append ns n x, ==_iff x n, ==_iff n x),
  Distinct-append ns n d.1 (ground arith),
)

pub mem?-without : (ns : List Str) (n j : Str) → mem? j (without n ns) ≡ (mem? j ns && not (n == j))
mem?-without [] n j = refl
mem?-without (x ∷ ns) n j = ground (arith, mem?-without ns n j, ==_iff x n, ==_iff x j, ==_iff n j)

pub Distinct-without : (ns : List Str) (n : Str) → Distinct ns → Distinct (without n ns)
Distinct-without [] n d = tt
Distinct-without (x ∷ ns) n d = elim (Bool-cases (x == n)) [
  | inl same ↦ rw same (Distinct-without ns n d.1)
  | inr other ↦ rw other (ground (arith, mem?-without ns n x), Distinct-without ns n d.1)
]

pub length-without : (ns : List Str) (n : Str) → length (without n ns) ≤ length ns
length-without [] n = omega arith
length-without (x ∷ ns) n = ground (arith, length-without ns n)
