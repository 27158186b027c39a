-- ===== src/Firewall/Listed.antt =====
-- internal/agent/fwplan.go, fwrules.go: rows of a status with the specs they are listed for, and the
-- difference of two lists of rows.
use statixagent.Prelude.{
  ℕ, zero, suc, ◌-◌, Bool, not, ◌||◌, Option, none, some, List, [], ◌∷◌, ◌++◌, ◌==◌, nat_eq, str_eq,
  ltb, length, get_elem?, take, if◌then◌else◌,
}
use statixagent.Prelude.Text.{Str, codes, has_byte}
use statixagent.Prelude.Decimal.{itoa}
use statixagent.Prelude.Strings.{any, join, replace_all}
use statixagent.Netip.{NetText}
use statixagent.Firewall.Rules.{Rule, Status}
use statixagent.Firewall.Specs.{spec_rule}
use statixagent.Firewall.Simulate.{Change, row_of, simulate}
use statixagent.Firewall.Plan.{delete_spec}
use statixagent.Firewall.Labels.{action_label, port_label, from_label}
use statixagent.Firewall.Guard.{same_row, max_diff}

-- A line of the difference: a row that is only in the list before, only in the list after, or how many
-- more there are.
pub data DiffLine : Type 0 where
  removed appeared : Rule → DiffLine
  more_changes : ℕ → DiffLine

-- The rows that the other list has not.
unfoldable pub rows_only : (Rule → DiffLine) → List Rule → List Rule → List DiffLine
unfolding same_row
rows_only line [] others = []
rows_only line (r ∷ rules) others =
    let rest = rows_only line rules others in
    if any (same_row r) others then rest else line r ∷ rest

abbrev pub cut_diff : List DiffLine → List DiffLine
cut_diff lines =
    if ltb max_diff (length lines)
    then take max_diff lines ++ more_changes (length lines - max_diff) ∷ []
    else lines

unfoldable pub diff_rows : Status → Status → List DiffLine
unfolding rows_only
diff_rows before after =
    cut_diff
      (rows_only removed before.rules after.rules ++ rows_only appeared after.rules before.rules)

abbrev pub needs_quotes : Str → Bool
needs_quotes a = a == [] || has_byte a 32 || has_byte a 9 || has_byte a 39 || has_byte a b'"'

unfoldable pub quoted : Str → Str
unfolding replace_all
quoted a =
    if needs_quotes a then 39 ∷ replace_all a (39 ∷ []) (39 ∷ 92 ∷ 39 ∷ 39 ∷ []) ++ 39 ∷ [] else a

unfoldable pub quote_all : List Str → List Str
unfolding quoted
quote_all [] = []
quote_all (a ∷ args) = quoted a ∷ quote_all args

unfoldable pub spec_text : List Str → Str
unfolding quote_all
spec_text args = join (codes " ") (quote_all args)

-- The hash function is the parameter `digest`.
module _ (digest : Str → Str) where
  unfoldable pub signed_rows : List Rule → Str
  signed_rows [] = []
  signed_rows (r ∷ rules) = r.action ++ codes " " ++ r.raw ++ codes "|" ++ signed_rows rules

  unfoldable pub fw_gen : Status → Str
  unfolding signed_rows
  fw_gen st = digest (signed_rows st.rules)

  unfoldable pub rule_id : Rule → Option (List Str) → Str
  rule_id row none = digest (codes "row|" ++ row.action ++ codes " " ++ row.raw)
  rule_id row (some spec) =
      digest (join (codes " ") spec ++ codes "|" ++ (if row.v6 then codes "v6" else codes "v4"))

module _ (net : NetText) where
  unfoldable pub row_spec : Rule → List (List Str) → Option (List Str)
  unfolding spec_rule row_of
  row_spec row [] = none
  row_spec row (spec ∷ added) =
      let rest = row_spec row added in
      elim (spec_rule net spec) [
        | none ↦ rest
        | some (r, fam) ↦ if row_of row r fam then some spec else rest
      ]

  unfoldable pub row_specs : List Rule → List (List Str) → List (Option (List Str))
  unfolding row_spec
  row_specs [] added = []
  row_specs (row ∷ rows) added = row_spec row added ∷ row_specs rows added

-- `fwBuilt`
pub record BuiltPlan : Type 0 where
  pub title : Str
  pub plan : List Change
  pub restore : Str
  pub after : Status

-- Why nothing was built; `outgoing_rule` is a refusal, the others are texts for the user.
pub data Unbuilt : Type 0 where
  outgoing_rule rule_is_gone no_spec unread_spec cannot_plan : Unbuilt

pub data BuildResult : Type 0 where
  built : BuiltPlan → BuildResult
  unbuilt : Unbuilt → BuildResult

-- The row that an id names with its spec; a row whose number is not its place panics.
pub data Named : Type 0 where
  named : Rule → Option (List Str) → Named
  no_row out_of_range : Named

-- `specs[r.Num-1]`
abbrev pub spec_at : List (Option (List Str)) → ℕ → Option (Option (List Str))
spec_at specs zero = none
spec_at specs (suc i) = get_elem? specs i

module _ (net : NetText) (digest : Str → Str) where
  -- The rows from one on, with the specs from the same place on.
  unfoldable pub find_row :
      Str → List (Option (List Str)) → List Rule → List (Option (List Str)) → Named
  unfolding rule_id
  find_row id specs (r ∷ rows) (here ∷ rest) =
      let later = find_row id specs rows rest in
      elim (spec_at specs r.num) [
        | none ↦ out_of_range
        | some spec ↦ if rule_id digest r spec == id then named r here else later
      ]
  find_row id specs _ _ = no_row

  abbrev pub delete_title : Rule → Str
  unfolding action_label port_label from_label
  delete_title row =
      codes "Delete rule "
      ++ itoa row.num
      ++ codes ": "
      ++ action_label row
      ++ codes " "
      ++ port_label row
      ++ codes " from "
      ++ from_label net row

  unfoldable pub delete_listed : Status → Bool → Rule → Option (List Str) → BuildResult
  unfolding spec_rule simulate
  delete_listed st v6 row spec =
      if not (row.dir == codes "in") then unbuilt outgoing_rule else elim spec [
        | none ↦ unbuilt no_spec
        | some ws ↦ elim (spec_rule net ws) [
          | none ↦ unbuilt unread_spec
          | some r ↦
              let plan = delete_spec ws ∷ [] in
              built (record {
                title = delete_title row;
                plan = plan;
                restore = [];
                after = simulate net st plan v6;
              })
        ]
      ]

  -- `deleteBuild`, where `none` is a panic
  unfoldable pub delete_build : Str → Status → List (List Str) → Bool → Option BuildResult
  unfolding row_specs find_row delete_listed
  delete_build id st added v6 =
      let specs = row_specs net st.rules added in
      elim (find_row id specs st.rules specs) [
        | out_of_range ↦ none
        | no_row ↦ some (unbuilt rule_is_gone)
        | named row spec ↦ some (delete_listed st v6 row spec)
      ]
