-- ===== src/Firewall/SshPlan.antt =====
-- internal/agent/fwbackend.go: the plan that opens or closes the SSH port.
use statixagent.Prelude.{
  Bool, true, false, not, ◌&&◌, ◌||◌, Option, none, some, List, [], ◌∷◌, ◌++◌, ◌==◌, nat_eq, str_eq,
  mem?, if◌then◌else◌,
}
use statixagent.Prelude.Text.{Str, codes}
use statixagent.Prelude.Map.{is_some}
use statixagent.Prelude.Strings.{any}
use statixagent.Firewall.Rules.{Rule, Status, ranges_eq}
use statixagent.Firewall.Rows.{parse_port_spec}
use statixagent.Firewall.Specs.{drop_notes, is_spec_action}
use statixagent.Firewall.Simulate.{op_insert, op_prepend, op_add, op_delete, Change}
use statixagent.Firewall.Plan.{delete_spec}

-- `ruleSpec`
pub record RuleSpec : Type 0 where
  pub action : Str
  pub port : Str
  pub app : Str
  pub plain : Bool

-- The ufw arguments of a change.
unfoldable pub argv : Change → List Str
argv c = elim c.op [
  | op_insert ↦ codes "insert" ∷ codes "1" ∷ c.spec
  | op_prepend ↦ codes "prepend" ∷ c.spec
  | op_delete ↦ codes "--force" ∷ codes "delete" ∷ c.spec
  | op_add ↦ c.spec
]

-- A pair of words, with the protocol that was named so far.
unfoldable pub take_pair : RuleSpec × Str → Str → Str → RuleSpec × Str
take_pair (r, proto) k v =
    if k == codes "from" || k == codes "to"
    then (record r { plain = r.plain && v == codes "any" }, proto)
    else if k == codes "port"
    then (record r { port = v }, proto)
    else if k == codes "proto"
    then (r, v)
    else if k == codes "app"
    then (record r { app = v }, proto)
    else (record r { plain = false }, proto)

unfoldable pub take_pairs : List Str → RuleSpec × Str → Option (RuleSpec × Str)
unfolding take_pair
take_pairs [] s = some s
take_pairs (w ∷ []) s = none
take_pairs (k ∷ v ∷ ws) s = take_pairs ws (take_pair s k v)

abbrev pub with_port_proto : Option (RuleSpec × Str) → Option RuleSpec
with_port_proto none = none
with_port_proto (some (r, proto)) = some (
    if not (proto == []) && not (r.port == [])
    then record r { port = r.port ++ b'/' ∷ proto }
    else r)

unfoldable pub rule_body : RuleSpec → List Str → Option RuleSpec
unfolding take_pairs parse_port_spec
rule_body r (w ∷ []) =
    if w == codes "from" || w == codes "to"
    then none
    else if is_some (parse_port_spec w)
    then some (record r { port = w })
    else some (record r { app = w })
rule_body r ws = with_port_proto (take_pairs ws (r, []))

abbrev pub of_action : Str → RuleSpec
of_action action = record { action = action; port = []; app = []; plain = true }

unfoldable pub parse_rule_spec : List Str → Option RuleSpec
unfolding drop_notes rule_body
parse_rule_spec spec = elim (drop_notes spec) [
  | [] ↦ none
  | action ∷ rest ↦ elim rest [
    | [] ↦ none
    | w ∷ ws ↦
        let r = of_action action in
        if not (is_spec_action action)
        then none
        else if w == codes "in"
        then rule_body r ws
        else if w == codes "out"
        then none
        else rule_body r (w ∷ ws)
  ]
]

-- The rows of an app profile: some, and each of port 22 alone.
unfoldable pub app_rows : Str → List Rule → Bool → Bool
app_rows app [] seen = seen
app_rows app (row ∷ rows) seen =
    let same = app_rows app rows seen in
    let next = app_rows app rows true in
    if not (row.app == app)
    then same
    else if row.unresolved
        || not (row.ports == record { lo = 22; hi = 22 } ∷ [])
        || row.proto == codes "udp"
    then false
    else next

unfoldable pub ssh_only : RuleSpec → Status → Bool
unfolding app_rows
ssh_only r st =
    if not r.plain
    then false
    else if not (r.app == [])
    then app_rows r.app st.rules false
    else r.port == codes "22" || r.port == codes "22/tcp"

unfoldable pub matches_row : RuleSpec → Rule → Bool
unfolding parse_port_spec
matches_row r row =
    if not (row.action == r.action)
      || not (row.dir == codes "in")
      || is_some row.from
      || is_some row.dst
      || not (row.iface == [])
      || row.partial
    then false
    else if not (r.app == [])
    then row.app == r.app
    else if not (row.app == [])
    then false
    else elim (parse_port_spec r.port) [
      | none ↦ false
      | some (ports, proto) ↦ proto == row.proto && ports == row.ports
    ]

-- `sshPort`
abbrev pub ssh_port : Str
ssh_port = codes "22/tcp"

abbrev pub wanted_action : Bool → Str
wanted_action open_it = if open_it then codes "allow" else codes "deny"

abbrev pub against_actions : Bool → List Str
against_actions open_it =
    if open_it then codes "deny" ∷ codes "reject" ∷ [] else codes "allow" ∷ codes "limit" ∷ []

-- A rule that the plan deletes: the wanted one itself, or one that says the opposite.
unfoldable pub is_gone : Bool → RuleSpec → Bool
is_gone open_it r =
    r.action == wanted_action open_it && r.app == [] && r.port == ssh_port
    || mem? r.action (against_actions open_it)

-- The loop over the added rules: the specs that are deleted, with what they were read as.
unfoldable pub gone_specs : Bool → Status → List (List Str) → List (List Str × RuleSpec)
unfolding parse_rule_spec ssh_only is_gone
gone_specs open_it st [] = []
gone_specs open_it st (spec ∷ added) =
    let rest = gone_specs open_it st added in
    elim (parse_rule_spec spec) [
      | none ↦ rest
      | some r ↦ if ssh_only r st && is_gone open_it r then (spec, r) ∷ rest else rest
    ]

abbrev pub deletions : List (List Str × RuleSpec) → List Change
deletions [] = []
deletions ((spec, r) ∷ gone) = delete_spec spec ∷ deletions gone

abbrev pub covers_row : Rule → List (List Str × RuleSpec) → Bool
unfolding matches_row
covers_row row [] = false
covers_row row ((spec, r) ∷ gone) = matches_row r row || covers_row row gone

-- An IPv4 row that no deleted rule stands for.
unfoldable pub is_left : List (List Str × RuleSpec) → Rule → Bool
unfolding matches_row
is_left gone row = not row.v6 && not (covers_row row gone)

unfoldable pub ssh_port_plan : List (List Str) → Status → Bool → List Change
unfolding gone_specs is_left
ssh_port_plan added st open_it =
    let gone = gone_specs open_it st added in
    let op = if any (is_left gone) st.rules then op_insert else op_add in
    deletions gone ++ record { op = op; spec = wanted_action open_it ∷ ssh_port ∷ [] } ∷ []
