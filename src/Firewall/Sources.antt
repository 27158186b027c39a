-- ===== src/Firewall/Sources.antt =====
-- internal/agent/fwplan.go, fwrules.go: the typed commands that add a rule.
use statixagent.Prelude.{
  ℕ, ◌-◌, Bool, not, ◌&&◌, ◌||◌, Option, none, some, List, [], ◌∷◌, ◌++◌, ◌==◌, nat_eq, str_eq, ltb,
  leb, if◌then◌else◌,
}
use statixagent.Prelude.Text.{Str, codes}
use statixagent.Prelude.Strings.{contains}
use statixagent.Netip.{Prefix, NetText, unmap, masked, single, is_single_ip, is_4in6, is_special}
use statixagent.Firewall.Rules.{PortRange}
use statixagent.Firewall.Rows.{blank_rule}
use statixagent.Firewall.Ports.{
  whole_internet, special_source, v6_is_off, not_a_source, not_canonical, database_to_anywhere,
  bad_usage, Parsed, parsed, refused, parse_port_arg,
}
use statixagent.Firewall.Specs.{FwSpec, every_port, prefix_arg}
use statixagent.Firewall.Labels.{port_label, upper_first}

-- The checks on a source and its canonical form.
unfoldable pub check_source : Str → Bool → Prefix × Str → Parsed Prefix
check_source s v6_ok (p, canon) =
    if not (canon == s)
    then refused not_canonical
    else if p.bits == 0
    then refused whole_internet
    else if is_special p.addr
    then refused special_source
    else if p.addr.is6 && not v6_ok
    then refused v6_is_off
    else parsed p

-- An IPv4-mapped range as the IPv4 range that it is.
abbrev pub unmap_range : Prefix → Option Prefix
unmap_range q =
    if not (is_4in6 q.addr)
    then some q
    else if ltb q.bits 96
    then none
    else some (record { addr = unmap q.addr; bits = q.bits - 96 })

module _ (net : NetText) where
  unfoldable pub range_source : Str → Option (Prefix × Str)
  unfolding masked
  range_source s = elim (net.parse_prefix s) [
    | none ↦ none
    | some q ↦ elim (unmap_range q) [
      | none ↦ none
      | some q' ↦
          let p = masked q' in
          some (p, (if is_single_ip p then net.addr_text p.addr else net.prefix_text p))
    ]
  ]

  unfoldable pub host_source : Str → Option (Prefix × Str)
  unfolding unmap
  host_source s = elim (net.parse_addr s) [
    | none ↦ none
    | some a ↦ if not (a.zone == []) then none else some (single (unmap a), net.addr_text (unmap a))
  ]

  unfoldable pub parse_source_arg : Str → Bool → Parsed Prefix
  unfolding check_source range_source host_source contains
  parse_source_arg s v6_ok =
      elim (if contains s (codes "/") then range_source s else host_source s) [
        | none ↦ refused not_a_source
        | some q ↦ check_source s v6_ok q
      ]

-- `fwDBPorts`, sorted
abbrev pub db_ports : List (ℕ × Str)
db_ports = (5432, codes "Postgres") ∷ (6379, codes "Redis") ∷ []

unfoldable pub first_db : PortRange → List (ℕ × Str) → Option (ℕ × Str)
first_db r [] = none
first_db r ((port, name) ∷ dbs) =
    let rest = first_db r dbs in if leb r.lo port && leb port r.hi then some (port, name) else rest

unfoldable pub db_port : PortRange → Option (ℕ × Str)
unfolding first_db
db_port r = first_db r db_ports

unfoldable pub open_spec : Parsed (PortRange × Str) → Parsed (FwSpec × Str)
unfolding db_port
open_spec (refused why) = refused why
open_spec (parsed (r, proto)) = elim (db_port r) [
  | some db ↦ refused database_to_anywhere
  | none ↦ parsed (
    record { action = codes "allow"; ports = r; proto = proto; from = none },
    codes "Open " ++ port_label (record blank_rule { ports = r ∷ []; proto = proto }),
  )
]

module _ (net : NetText) where
  abbrev pub spec_title : Prefix → FwSpec → Str
  spec_title p s =
      upper_first s.action
      ++ codes " "
      ++ (if not (s.ports.lo == 0)
          then port_label (record blank_rule { ports = s.ports ∷ []; proto = s.proto })
          else codes "all ports")
      ++ codes " from "
      ++ prefix_arg net p

  abbrev pub with_title : Prefix → FwSpec → FwSpec × Str
  with_title p s = (s, spec_title p s)

  abbrev pub with_port_arg : FwSpec → Prefix → List Str → Parsed (FwSpec × Str)
  unfolding parse_port_arg
  with_port_arg s p [] = parsed (with_title p s)
  with_port_arg s p (arg ∷ args) = elim (parse_port_arg arg) [
    | refused why ↦ refused why
    | parsed (r, proto) ↦ parsed (with_title p (record s { ports = r; proto = proto }))
  ]

  unfoldable pub source_spec : Str → List Str → Parsed Prefix → Parsed (FwSpec × Str)
  unfolding parse_port_arg
  source_spec cmd args (refused why) = refused why
  source_spec cmd args (parsed p) =
      let action = if cmd == codes "fw_deny" then codes "deny" else codes "allow" in
      with_port_arg (record { action = action; ports = every_port; proto = []; from = some p }) p
        args

  -- `parseFwCommand`: the spec that a command adds, and its title
  unfoldable pub parse_fw_command : Str → List Str → Bool → Parsed (FwSpec × Str)
  unfolding open_spec source_spec parse_source_arg parse_port_arg
  parse_fw_command cmd (a ∷ []) v6_ok =
      if cmd == codes "fw_open"
      then open_spec (parse_port_arg a)
      else if cmd == codes "fw_deny"
      then source_spec cmd [] (parse_source_arg net a v6_ok)
      else refused bad_usage
  parse_fw_command cmd (a ∷ b ∷ []) v6_ok =
      if cmd == codes "fw_allow" || cmd == codes "fw_deny"
      then source_spec cmd (b ∷ []) (parse_source_arg net a v6_ok)
      else refused bad_usage
  parse_fw_command cmd args v6_ok = refused bad_usage
