-- ===== src/Firewall/Specs.antt =====
-- internal/agent/fwplan.go: rule specs as words, written for a rule that the bot adds and read from the
-- lists that ufw prints.
pub mod RoundTrip
pub mod Ports
pub mod Notes
use statixagent.Prelude.{
  Bool, true, false, ◌||◌, Option, none, some, List, [], ◌∷◌, ◌++◌, ◌==◌, nat_eq, bool_eq, str_eq,
  if◌then◌else◌,
}
use statixagent.Prelude.Text.{Str, codes}
use statixagent.Netip.{Prefix, NetText, is_single_ip}
use statixagent.Firewall.Rules.{PortRange, Rule}
use statixagent.Firewall.Rows.{blank_rule, parse_port_spec, parse_fw_addr, with_ports}
use statixagent.Firewall.Ports.{port_text, with_slash}

-- `fwSpec`; no ports are the range from 0 to 0.
pub record FwSpec : Type 0 where
  pub action : Str
  pub ports : PortRange
  pub proto : Str
  pub from : Option Prefix

abbrev pub every_port : PortRange
every_port = record { lo = 0; hi = 0 }

-- "", "v4" or "v6"
pub data Family : Type 0 where
  both only_v4 only_v6 : Family

-- Without the logging and comment words of a spec.
unfoldable pub drop_notes : List Str → List Str
drop_notes [] = []
drop_notes (w ∷ []) =
    if w == codes "log" || w == codes "log-all" || w == codes "comment" then [] else w ∷ []
drop_notes (w ∷ x ∷ ws) =
    let next = drop_notes (x ∷ ws) in
    let behind_text = drop_notes ws in
    if w == codes "log" || w == codes "log-all"
    then next
    else if w == codes "comment"
    then behind_text
    else w ∷ next

-- The variables of the loop over the pairs of words.
pub record Pairs : Type 0 where
  pub rule : Rule
  pub side : Str
  pub port : Str
  pub proto : Str

abbrev pub read_app : Pairs → Str → Str → Pairs
read_app s k v =
    if s.side == codes "from"
    then record s { rule = record s.rule { partial = true } }
    else if k == codes "port"
    then record s { port = v }
    else record s { rule = record s.rule { app = v } }

abbrev pub is_spec_action : Str → Bool
is_spec_action w =
    w == codes "allow" || w == codes "deny" || w == codes "reject" || w == codes "limit"

abbrev pub take_side : Rule × List Str → Rule × List Str
take_side (r, []) = (r, [])
take_side (r, w ∷ ws) =
    if w == codes "in" || w == codes "out" then (record r { dir = w }, ws) else (r, w ∷ ws)

abbrev pub take_on : Rule × List Str → Rule × List Str
take_on (r, w ∷ x ∷ ws) = if w == codes "on" then (record r { iface = x }, ws) else (r, w ∷ x ∷ ws)
take_on (r, ws) = (r, ws)

-- The ports and the protocol at the end.
unfoldable pub with_words : Pairs → Option Rule
unfolding parse_port_spec
with_words s =
    if s.port == []
    then some (record s.rule { proto = s.proto })
    else elim (parse_port_spec (with_slash s.port s.proto)) [
      | none ↦ none
      | some ps ↦ some (with_ports s.rule ps)
    ]

abbrev pub family_in : Family → Option Prefix → Family
family_in f none = f
family_in f (some p) = if p.addr.is6 then only_v6 else only_v4

abbrev pub is_v6_only : Family → Bool
is_v6_only only_v6 = true
is_v6_only _ = false

abbrev pub with_family : Rule → Rule × Family
with_family r =
    let f = family_in (family_in both r.from) r.dst in (record r { v6 = is_v6_only f }, f)

abbrev pub finish_spec : Option Rule → Option (Rule × Family)
finish_spec none = none
finish_spec (some r) = some (with_family r)

module _ (net : NetText) where
  unfoldable pub prefix_arg : Prefix → Str
  prefix_arg p = if is_single_ip p then net.addr_text p.addr else net.prefix_text p

  -- `args`
  unfoldable pub spec_args : FwSpec → List Str
  unfolding prefix_arg port_text
  spec_args s = elim s.from [
    | none ↦ s.action ∷ with_slash (port_text s.ports) s.proto ∷ []
    | some p ↦
        s.action
          ∷ codes "from"
          ∷ prefix_arg p
          ∷ (if s.ports.lo == 0
              then []
              else codes "to" ∷ codes "any" ∷ codes "port" ∷ port_text s.ports ∷ [])
        ++ (if s.proto == [] then [] else codes "proto" ∷ s.proto ∷ [])
  ]

  unfoldable pub read_side : Pairs → Str → Str → Option Pairs
  unfolding parse_fw_addr
  read_side s k v =
      if v == codes "any" then some (record s { side = k }) else elim (parse_fw_addr net v) [
        | none ↦ none
        | some p ↦ some (record s {
          side = k;
          rule =
              if k == codes "from"
              then record s.rule { from = some p }
              else record s.rule { dst = some p };
        })
      ]

  unfoldable pub read_pair : Pairs → Str → Str → Option Pairs
  unfolding read_side
  read_pair s k v =
      if k == codes "from" || k == codes "to"
      then read_side s k v
      else if k == codes "port" || k == codes "app"
      then some (read_app s k v)
      else if k == codes "proto"
      then some (record s { proto = v })
      else none

  -- The loop over the pairs; a word without a second one is refused.
  unfoldable pub read_pairs : List Str → Pairs → Option Pairs
  unfolding read_pair
  read_pairs [] s = some s
  read_pairs (w ∷ []) s = none
  read_pairs (k ∷ v ∷ ws) s = elim (read_pair s k v) [ none ↦ none | some s' ↦ read_pairs ws s' ]

  abbrev pub end_pairs : Option Pairs → Option Rule
  unfolding with_words
  end_pairs none = none
  end_pairs (some s) = with_words s

  unfoldable pub spec_words : Rule → List Str → Option Rule
  unfolding read_pairs with_words parse_port_spec
  spec_words r [] = none
  spec_words r (w ∷ []) = elim (parse_port_spec w) [
    | some ps ↦ some (with_ports r ps)
    | none ↦ if w == codes "from" || w == codes "to" then none else some (record r { app = w })
  ]
  spec_words r (w ∷ x ∷ ws) =
      end_pairs (read_pairs (w ∷ x ∷ ws) (record { rule = r; side = []; port = []; proto = [] }))

  abbrev pub action_words : Str → Rule × List Str → Option Rule
  unfolding spec_words
  action_words action (r, rest) = if is_spec_action action then spec_words r rest else none

  abbrev pub rule_words : List Str → Option Rule
  unfolding action_words
  rule_words (action ∷ w ∷ ws) =
      action_words action (take_on (take_side (record blank_rule { action = action }, w ∷ ws)))
  rule_words _ = none

  unfoldable pub spec_rule : List Str → Option (Rule × Family)
  unfolding drop_notes spec_words
  spec_rule spec = finish_spec (rule_words (drop_notes spec))
