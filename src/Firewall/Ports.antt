-- ===== src/Firewall/Ports.antt =====
-- internal/agent/fwplan.go: the port argument of a typed command.
pub mod Canonical
use statixagent.Prelude.{
  ℕ, suc, ◌+◌, ◌-◌, ◌≤◌, ◌<◌, ◌≡◌, ◌≢◌, refl, ◌∙◌, sym, ap, ◌⊎◌, inl, inr, Bool, true, false, not,
  ◌&&◌, ◌||◌, Option, none, some, List, [], ◌∷◌, ◌++◌, ◌==◌, nat_eq, str_eq, ==_iff, Bool-cases,
  Option-cases, arith, leb, ltb, if◌then◌else◌,
}
use statixagent.Prelude.Int.{ℤ, pos, negsuc}
use statixagent.Prelude.Text.{Str, codes, cut}
use statixagent.Prelude.Decimal.{itoa, atoi}
use statixagent.Firewall.Rules.{PortRange}
use statixagent.Firewall.Rows.{max_port}

-- What a typed argument is refused for; the texts are left out.
pub data Usage : Type 0 where
  not_a_protocol not_a_port range_needs_protocol range_backwards range_too_wide : Usage
  not_a_source not_canonical whole_internet special_source v6_is_off : Usage
  database_to_anywhere bad_usage : Usage

pub data Parsed {ℓ} (A : Type ℓ) : Type ℓ where
  parsed : A → Parsed A
  refused : Usage → Parsed A

-- `fwMaxSpan`
abbrev pub max_span : ℕ
max_span = 1000

abbrev pub port_of : Str → Option ℤ → Option ℕ
port_of s (some (pos n)) = if ltb n 1 || ltb max_port n || not (itoa n == s) then none else some n
port_of s _ = none

-- the function `port` inside
unfoldable pub parse_port : Str → Option ℕ
parse_port s = port_of s (atoi s)

-- The checks on a range.
unfoldable pub parse_range : ℕ → Str → Option ℕ → Parsed (PortRange × Str)
parse_range a proto none = refused not_a_port
parse_range a proto (some b) =
    if proto == []
    then refused range_needs_protocol
    else if leb b a
    then refused range_backwards
    else if ltb max_span (b - a + 1)
    then refused range_too_wide
    else parsed (record { lo = a; hi = b }, proto)

unfoldable pub parse_ports : Str → Str → Parsed (PortRange × Str)
unfolding parse_port parse_range
parse_ports list proto =
    let (lo, hi, is_range) = cut list b':' in
    elim (parse_port lo) [
      | none ↦ refused not_a_port
      | some a ↦
          if not is_range
          then parsed (record { lo = a; hi = a }, proto)
          else parse_range a proto (parse_port hi)
    ]

unfoldable pub parse_port_arg : Str → Parsed (PortRange × Str)
unfolding parse_ports
parse_port_arg s =
    let (list, proto, has_proto) = cut s b'/' in
    if has_proto && not (proto == codes "tcp") && not (proto == codes "udp")
    then refused not_a_protocol
    else parse_ports list proto

-- `portArg` of a spec with these ports
unfoldable pub port_text : PortRange → Str
port_text p = if not (p.hi == p.lo) then itoa p.lo ++ b':' ∷ itoa p.hi else itoa p.lo

abbrev pub with_slash : Str → Str → Str
with_slash s proto = if not (proto == []) then s ++ b'/' ∷ proto else s
