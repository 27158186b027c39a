-- ===== src/Firewall/Simulate/Order.antt =====
-- The order and the numbers of simulated rows.
use statixagent.Prelude.{
  ℕ, ◌+◌, ◌≡◌, refl, ◌∙◌, inl, inr, Bool, true, false, not, ◌&&◌, ◌||◌, List, [], ◌∷◌, ◌++◌, ◌==◌,
  bool_eq, ==_iff, Bool-cases, Option-cases, arith, if◌then◌else◌, str_eq,
}
use statixagent.Prelude.Strings.{find, delete_where, set_first, delete_first_where, insert_before}
use statixagent.Netip.{NetText}
use statixagent.Firewall.Rules.{Rule, Status}
use statixagent.Firewall.Specs.{spec_rule}
use statixagent.Firewall.Simulate.{
  ChangeOp, Change, is_add, is_delete, row_of, families, put_row, is_same, place, number, listed_as,
  place_all, change_rules, change_all, simulate,
}

abbrev pub all_v6 : List Rule → Bool
all_v6 [] = true
all_v6 (r ∷ rs) = r.v6 && all_v6 rs

-- The IPv4 rows stand before the IPv6 rows.
abbrev pub v4_first : List Rule → Bool
v4_first [] = true
v4_first (r ∷ rs) = (not r.v6 || all_v6 rs) && v4_first rs

-- The rows are numbered one by one from `n`.
abbrev pub Numbered : ℕ → List Rule → Type 0
Numbered n [] = Unit
Numbered n (r ∷ rs) = (r.num ≡ n) × Numbered (n + 1) rs

all_v6-delete_where :
    (f : Rule → Bool) (rs : List Rule) → all_v6 rs ≡ true → all_v6 (delete_where f rs) ≡ true
unfolding delete_where
all_v6-delete_where f [] h = refl
all_v6-delete_where f (r ∷ rs) h = ground (arith, all_v6-delete_where f rs)

v4_first-delete_where :
    (f : Rule → Bool) (rs : List Rule) → v4_first rs ≡ true → v4_first (delete_where f rs) ≡ true
unfolding delete_where
v4_first-delete_where f [] h = refl
v4_first-delete_where f (r ∷ rs) h =
    ground (arith, v4_first-delete_where f rs, all_v6-delete_where f rs)

all_v6-delete_first_where :
    (f : Rule → Bool) (rs : List Rule) → all_v6 rs ≡ true → all_v6 (delete_first_where f rs) ≡ true
unfolding delete_first_where
all_v6-delete_first_where f [] h = refl
all_v6-delete_first_where f (r ∷ rs) h = ground (arith, all_v6-delete_first_where f rs)

v4_first-delete_first_where :
    (f : Rule → Bool) (rs : List Rule)
    → v4_first rs ≡ true
    → v4_first (delete_first_where f rs) ≡ true
unfolding delete_first_where
v4_first-delete_first_where f [] h = refl
v4_first-delete_first_where f (r ∷ rs) h =
    ground (arith, v4_first-delete_first_where f rs, all_v6-delete_first_where f rs)

-- A row in the place of one of its family.
all_v6-set_first :
    (row : Rule) (rs : List Rule)
    → all_v6 rs ≡ true
    → all_v6 (set_first (is_same row) row rs) ≡ true
unfolding set_first
all_v6-set_first row [] h = refl
all_v6-set_first row (r ∷ rs) h = ground (arith, all_v6-set_first row rs, ==_iff r.v6 row.v6)

v4_first-set_first :
    (row : Rule) (rs : List Rule)
    → v4_first rs ≡ true
    → v4_first (set_first (is_same row) row rs) ≡ true
unfolding set_first
v4_first-set_first row [] h = refl
v4_first-set_first row (r ∷ rs) h =
    ground (arith, v4_first-set_first row rs, all_v6-set_first row rs, ==_iff r.v6 row.v6)

all_v6-append : (rs : List Rule) (row : Rule) → all_v6 (rs ++ row ∷ []) ≡ (all_v6 rs && row.v6)
all_v6-append [] row = ground arith
all_v6-append (r ∷ rs) row = ground (arith, all_v6-append rs row)

v4_first-append :
    (rs : List Rule) (row : Rule)
    → row.v6 ≡ true
    → v4_first rs ≡ true
    → v4_first (rs ++ row ∷ []) ≡ true
v4_first-append [] row six h = ground arith
v4_first-append (r ∷ rs) row six h =
    ground (arith, v4_first-append rs row six, all_v6-append rs row)

v4_first-insert_before :
    (rs : List Rule) (row : Rule)
    → v4_first rs ≡ true
    → v4_first (insert_before (λ (x : Rule). x.v6) row rs) ≡ true
unfolding insert_before
v4_first-insert_before [] row h = ground arith
v4_first-insert_before (r ∷ rs) row h = ground (arith, v4_first-insert_before rs row)

v4_first-put_row :
    (op : ChangeOp) (row : Rule) (rs : List Rule)
    → v4_first rs ≡ true
    → v4_first (put_row op row rs) ≡ true
unfolding put_row
v4_first-put_row op row rs h =
    ground (arith, v4_first-insert_before rs row h, v4_first-append rs row)

v4_first-if :
    (b : Bool) (olds rs : List Rule)
    → v4_first olds ≡ true
    → v4_first rs ≡ true
    → v4_first (if b then olds else rs) ≡ true
v4_first-if true olds rs p q = p
v4_first-if false olds rs p q = q

v4_first-place :
    (op : ChangeOp) (row : Rule) (rs : List Rule)
    → v4_first rs ≡ true
    → v4_first (place op row rs) ≡ true
unfolding place
v4_first-place op row rs h = elim (Option-cases (find (is_same row) rs)) [
  | inl fresh ↦ rw (place, fresh) (v4_first-put_row op row rs h)
  | inr (x, found) ↦
      let others = delete_first_where (is_same row) rs in
      rw (place, found)
        (v4_first-if (x.action == row.action) rs
          (if is_add op then set_first (is_same row) row rs else put_row op row others) h
          (v4_first-if (is_add op) (set_first (is_same row) row rs) (put_row op row others)
            (v4_first-set_first row rs h)
            (v4_first-put_row op row others (v4_first-delete_first_where (is_same row) rs h))))
]

Numbered-number : (n : ℕ) (rs : List Rule) → Numbered n (number n rs)
unfolding number
Numbered-number n [] = tt
Numbered-number n (r ∷ rs) = (refl, Numbered-number (n + 1) rs)

all_v6-number : (n : ℕ) (rs : List Rule) → all_v6 (number n rs) ≡ all_v6 rs
unfolding number
all_v6-number n [] = refl
all_v6-number n (r ∷ rs) = ground (arith, all_v6-number (n + 1) rs)

v4_first-number : (n : ℕ) (rs : List Rule) → v4_first (number n rs) ≡ v4_first rs
unfolding number
v4_first-number n [] = refl
v4_first-number n (r ∷ rs) = ground (arith, v4_first-number (n + 1) rs, all_v6-number (n + 1) rs)

module _ (net : NetText) where
  v4_first-place_all :
      (op : ChangeOp) (r : Rule) (sixes : List Bool) (rs : List Rule)
      → v4_first rs ≡ true
      → v4_first (place_all net op r sixes rs) ≡ true
  unfolding place_all
  v4_first-place_all op r [] rs h = h
  v4_first-place_all op r (six ∷ sixes) rs h =
      v4_first-place_all op r sixes (place op (listed_as net r six) rs)
        (v4_first-place op (listed_as net r six) rs h)

  v4_first-change_rules :
      (v6 : Bool) (c : Change) (rs : List Rule)
      → v4_first rs ≡ true
      → v4_first (change_rules net v6 c rs) ≡ true
  unfolding change_rules
  v4_first-change_rules v6 c rs h = elim (Option-cases (spec_rule net c.spec)) [
    | inl unread ↦ rw (change_rules, unread) h
    | inr ((r, fam), read) ↦ elim (Bool-cases (is_delete c.op)) [
      | inl del ↦
          rw (change_rules, read, del) (v4_first-delete_where (λ row. row_of row r fam) rs h)
      | inr put ↦ rw (change_rules, read, put) (v4_first-place_all c.op r (families fam v6) rs h)
    ]
  ]

  v4_first-change_all :
      (v6 : Bool) (cs : List Change) (rs : List Rule)
      → v4_first rs ≡ true
      → v4_first (change_all net v6 cs rs) ≡ true
  unfolding change_all
  v4_first-change_all v6 [] rs h = h
  v4_first-change_all v6 (c ∷ cs) rs h =
      v4_first-change_all v6 cs (change_rules net v6 c rs) (v4_first-change_rules v6 c rs h)

  -- A plan that is simulated on rows as ufw lists them, IPv4 before IPv6, gives rows in that order,
  -- numbered from 1 without a gap.
  pub simulate-Numbered :
      (st : Status) (plan : List Change) (v6 : Bool)
      → v4_first st.rules ≡ true
      → (v4_first (simulate net st plan v6).rules ≡ true)
        × Numbered 1 (simulate net st plan v6).rules
  unfolding simulate
  simulate-Numbered st plan v6 h =
      let rs = change_all net v6 plan st.rules in
      (v4_first-number 1 rs ∙ v4_first-change_all v6 plan st.rules h, Numbered-number 1 rs)
