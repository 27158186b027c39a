-- ===== src/Firewall/Simulate.antt =====
-- internal/agent/fwplan.go: a plan applied to the parsed rules in memory.
pub mod Order
use statixagent.Prelude.{
  ℕ, suc, ◌+◌, Bool, true, false, not, ◌&&◌, ◌||◌, Option, none, some, List, [], ◌∷◌, ◌++◌, ◌==◌,
  nat_eq, bool_eq, str_eq, if◌then◌else◌,
}
use statixagent.Prelude.Text.{Str, codes}
use statixagent.Prelude.Strings.{
  any, find, delete_where, set_first, delete_first_where, insert_before,
}
use statixagent.Netip.{NetText, source_eq}
use statixagent.Firewall.Rules.{Rule, Status, ranges_eq}
use statixagent.Firewall.Specs.{Family, both, only_v4, only_v6, is_v6_only, spec_rule}
use statixagent.Firewall.Labels.{row_raw}

-- The operations of a change, by the source's constants.
pub data ChangeOp : Type 0 where
  op_insert op_prepend op_add op_delete : ChangeOp

-- `fwChange`; a plan is a list of changes.
pub record Change : Type 0 where
  pub op : ChangeOp
  pub spec : List Str

abbrev pub is_add : ChangeOp → Bool
is_add op_add = true
is_add _ = false

abbrev pub is_delete : ChangeOp → Bool
is_delete op_delete = true
is_delete _ = false

unfoldable pub same_match : Rule → Rule → Bool
same_match a b =
    if not (a.dir == b.dir)
      || not (a.from == b.from)
      || not (a.dst == b.dst)
      || not (a.iface == b.iface)
      || not (a.partial == b.partial)
    then false
    else if not (a.app == []) || not (b.app == [])
    then a.app == b.app
    else a.proto == b.proto && a.ports == b.ports

unfoldable pub row_of : Rule → Rule → Family → Bool
unfolding same_match
row_of row r both = row.action == r.action && same_match row r
row_of row r only_v4 = row.action == r.action && same_match row r && not row.v6
row_of row r only_v6 = row.action == r.action && same_match row r && row.v6

unfoldable pub families : Family → Bool → List Bool
families only_v4 v6 = false ∷ []
families only_v6 v6 = true ∷ []
families both v6 = if v6 then false ∷ true ∷ [] else false ∷ []

-- Where ufw puts a new row: first of its family, or for `add` last of it.
unfoldable pub put_row : ChangeOp → Rule → List Rule → List Rule
put_row op row rules =
    if not (is_add op)
    then (if row.v6 then insert_before (λ (x : Rule). x.v6) row rules else row ∷ rules)
    else if row.v6
    then rules ++ row ∷ []
    else insert_before (λ (x : Rule). x.v6) row rules

abbrev pub is_same : Rule → Rule → Bool
is_same row x = x.v6 == row.v6 && same_match x row

-- The row of one family.
unfoldable pub place : ChangeOp → Rule → List Rule → List Rule
unfolding same_match put_row
place op row rules = elim (find (is_same row) rules) [
  | none ↦ put_row op row rules
  | some x ↦
      if x.action == row.action
      then rules
      else if is_add op
      then set_first (is_same row) row rules
      else put_row op row (delete_first_where (is_same row) rules)
]

unfoldable pub number : ℕ → List Rule → List Rule
number n [] = []
number n (r ∷ rs) = record r { num = n } ∷ number (n + 1) rs

module _ (net : NetText) where
  abbrev pub listed_as : Rule → Bool → Rule
  listed_as r six = let row = record r { v6 = six } in record row { raw = row_raw net row }

  -- the loop over the families
  unfoldable pub place_all : ChangeOp → Rule → List Bool → List Rule → List Rule
  unfolding place
  place_all op r [] rules = rules
  place_all op r (six ∷ sixes) rules = place_all op r sixes (place op (listed_as r six) rules)

  unfoldable pub change_rules : Bool → Change → List Rule → List Rule
  unfolding row_of place_all families
  change_rules v6 c rules = elim (spec_rule net c.spec) [
    | none ↦ rules
    | some (r, fam) ↦
        if is_delete c.op
        then delete_where (λ row. row_of row r fam) rules
        else place_all c.op r (families fam v6) rules
  ]

  unfoldable pub change_all : Bool → List Change → List Rule → List Rule
  unfolding change_rules
  change_all v6 [] rules = rules
  change_all v6 (c ∷ cs) rules = change_all v6 cs (change_rules v6 c rules)

  unfoldable pub simulate : Status → List Change → Bool → Status
  unfolding change_all number
  simulate st plan v6 = record st { rules = number 1 (change_all v6 plan st.rules) }
