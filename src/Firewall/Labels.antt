-- ===== src/Firewall/Labels.antt =====
-- internal/agent/fwplan.go: rules as texts.
use statixagent.Prelude.{
  not, ◌&&◌, none, some, List, [], ◌∷◌, ◌++◌, ◌==◌, nat_eq, str_eq, if◌then◌else◌,
}
use statixagent.Prelude.Text.{Str, codes}
use statixagent.Prelude.Map.{is_some}
use statixagent.Prelude.Strings.{to_upper, upper_byte, join}
use statixagent.Netip.{NetText}
use statixagent.Firewall.Rules.{PortRange, Rule, no_ports}
use statixagent.Firewall.Ports.{port_text, with_slash}
use statixagent.Firewall.Specs.{prefix_arg}

unfoldable pub port_texts : List PortRange → List Str
unfolding port_text
port_texts [] = []
port_texts (p ∷ ps) = port_text p ∷ port_texts ps

unfoldable pub port_label : Rule → Str
unfolding port_texts
port_label r =
    let s = join (codes ",") (port_texts r.ports) in
    if not (r.app == []) && no_ports r.ports
    then r.app
    else with_slash (if s == [] then codes "any" else s) r.proto

unfoldable pub action_label : Rule → Str
action_label r =
    if not (r.dir == codes "in")
    then to_upper (r.action ++ codes " " ++ r.dir)
    else to_upper r.action

-- internal/agent: the first letter in upper case
abbrev pub upper_first : Str → Str
upper_first [] = []
upper_first (c ∷ s) = upper_byte c ∷ s

module _ (net : NetText) where
  unfoldable pub from_label : Rule → Str
  from_label r = elim r.from [
    | some p ↦ prefix_arg net p
    | none ↦ if r.v6 then codes "Anywhere (v6)" else codes "Anywhere"
  ]

  unfoldable pub row_raw : Rule → Str
  unfolding port_label from_label
  row_raw r =
      let to = port_label r in
      (if to == codes "any" then codes "Anywhere" else to)
      ++ (if r.v6 && not (is_some r.dst) then codes " (v6)" else [])
      ++ codes " "
      ++ to_upper r.action
      ++ codes " "
      ++ to_upper r.dir
      ++ codes " "
      ++ from_label r
