-- ===== src/Firewall/Ports/Canonical.antt =====
-- What port arguments are accepted.
use mathlib.Core.Path.{subst}
use statixagent.Prelude.{
  ℕ, ◌-◌, ◌≤◌, ◌<◌, ◌≡◌, ◌≢◌, refl, ◌∙◌, sym, ap, ◌⊎◌, inl, inr, false, not, ◌&&◌, Option, none,
  some, [], ◌∷◌, ◌++◌, ◌==◌, nat_eq, str_eq, ==_iff, Bool-cases, Option-cases, arith,
}
use statixagent.Prelude.Int.{ℤ, pos, negsuc}
use statixagent.Prelude.Text.{Str, codes, cut}
use statixagent.Prelude.Cuts.{cut-after, cut-whole, cut-none}
use statixagent.Prelude.Decimal.{itoa, atoi}
use statixagent.Firewall.Rules.{PortRange}
use statixagent.Firewall.Rows.{max_port}
use statixagent.Firewall.Ports.{
  parsed, max_span, port_of, parse_port, parse_range, parse_ports, parse_port_arg, port_text,
  with_slash,
}

-- The protocol behind the slash, if there is one.
abbrev pub IsProto : Str → Type 0
IsProto proto = (proto ≡ []) ⊎ (proto ≡ codes "tcp") ⊎ (proto ≡ codes "udp")

IsProto-cut :
    (s : Str)
    → let (list, given, has) = cut s b'/' in
      has && not (given == codes "tcp") && not (given == codes "udp") ≡ false
      → IsProto given × (with_slash list given ≡ s)
IsProto-cut s h = elim (Bool-cases (cut s b'/').2) [
  | inr no_slash ↦
      let empty = cut-after s b'/' no_slash in (inl empty, rw empty (cut-none s b'/' no_slash))
  | inl slash ↦ elim (Bool-cases ((cut s b'/').1 == codes "tcp")) [
    | inl t ↦
        let is = (==_iff (cut s b'/').1 (codes "tcp")).0 t in
        (
          inr (inl is),
          ap (with_slash (cut s b'/').0) is
              ∙ ap (λ x. (cut s b'/').0 ++ b'/' ∷ x) (sym is)
              ∙ cut-whole s b'/' slash,
        )
    | inr n ↦
        let is = (==_iff (cut s b'/').1 (codes "udp")).0 (ground arith) in
        (
          inr (inr is),
          ap (with_slash (cut s b'/').0) is
              ∙ ap (λ x. (cut s b'/').0 ++ b'/' ∷ x) (sym is)
              ∙ cut-whole s b'/' slash,
        )
  ]
]

pub record IsPort (s : Str) (n : ℕ) : Type 0 where
  pub at_least : 1 ≤ n
  pub at_most : n ≤ max_port
  pub printed : itoa n ≡ s

port_of-IsPort : (s : Str) (o : Option ℤ) (n : ℕ) → port_of s o ≡ some n → IsPort s n
port_of-IsPort s none n h = absurd (ground arith)
port_of-IsPort s (some (negsuc m)) n h = absurd (ground arith)
port_of-IsPort s (some (pos m)) n h = record {
  at_least = ground arith;
  at_most = ground arith;
  printed = ground (arith, ==_iff (itoa m) s);
}

parse_port-IsPort : (s : Str) (n : ℕ) → parse_port s ≡ some n → IsPort s n
unfolding parse_port
parse_port-IsPort s n h = port_of-IsPort s (atoi s) n h

-- The ports that the argument names, and how it is written.
pub record IsPortArg (s : Str) (p : PortRange) (proto : Str) : Type 0 where
  pub from_one : 1 ≤ p.lo
  pub in_order : p.lo ≤ p.hi
  pub to_last : p.hi ≤ max_port
  pub narrow : p.hi - p.lo < max_span
  pub range_proto : (p.lo ≡ p.hi) ⊎ (proto ≢ [])
  pub known_proto : IsProto proto
  pub canonical : with_slash (port_text p) proto ≡ s

-- The part of it before the protocol.
record IsPorts (list proto : Str) (p : PortRange) : Type 0 where
  from_one : 1 ≤ p.lo
  in_order : p.lo ≤ p.hi
  to_last : p.hi ≤ max_port
  narrow : p.hi - p.lo < max_span
  range_proto : (p.lo ≡ p.hi) ⊎ (proto ≢ [])
  written : port_text p ≡ list

parse_range-IsPorts :
    (a : ℕ) (lo hi proto proto' : Str) (p : PortRange)
    → IsPort lo a
    → parse_range a proto (parse_port hi) ≡ parsed (p, proto')
    → (proto' ≡ proto) × IsPorts (lo ++ b':' ∷ hi) proto p
unfolding parse_range
parse_range-IsPorts a lo hi proto proto' p is_lo h = elim (Option-cases (parse_port hi)) [
  | inl bad ↦ absurd (ground arith)
  | inr (b, good) ↦
      let is_hi = parse_port-IsPort hi b good in
      let is : record { lo = a; hi = b } ≡ p = ground arith in
      (
        ground arith,
        subst (λ (x : PortRange). IsPorts (lo ++ b':' ∷ hi) proto x) is
            (record {
              from_one = is_lo.at_least;
              in_order = ground arith;
              to_last = is_hi.at_most;
              narrow = ground arith;
              range_proto = inr (ground (arith, ==_iff proto []));
              written = unfold port_text in ground (arith, is_lo.printed, is_hi.printed);
            }),
      )
]

parse_ports-IsPorts :
    (list proto proto' : Str) (p : PortRange)
    → parse_ports list proto ≡ parsed (p, proto')
    → (proto' ≡ proto) × IsPorts list proto p
unfolding parse_ports
parse_ports-IsPorts list proto proto' p h = elim (Option-cases (parse_port (cut list b':').0)) [
  | inl bad ↦ absurd (ground arith)
  | inr (a, good) ↦
      let is_lo = parse_port-IsPort (cut list b':').0 a good in
      elim (Bool-cases (cut list b':').2) [
        | inl range ↦
            let whole : (cut list b':').0 ++ b':' ∷ (cut list b':').1 ≡ list =
              cut-whole list b':' range in
            let (same, is) =
              parse_range-IsPorts a (cut list b':').0 (cut list b':').1 proto proto' p is_lo
                (ground arith) in
            (same, subst (λ l. IsPorts l proto p) whole is)
        | inr one ↦
            let whole : (cut list b':').0 ≡ list = cut-none list b':' one in
            let is : record { lo = a; hi = a } ≡ p = ground arith in
            (
              ground arith,
              subst (λ (x : PortRange). IsPorts list proto x) is
                  (record {
                    from_one = is_lo.at_least;
                    in_order = omega arith;
                    to_last = is_lo.at_most;
                    narrow = omega arith;
                    range_proto = inl refl;
                    written = unfold port_text in ground (arith, is_lo.printed);
                  }),
            )
      ]
]

-- A typed port argument that is accepted names ports from 1 to 65535 in order, at most 1000 of them, and
-- more than one only with a protocol, which is tcp or udp; and it is the one way to write them: printed
-- again, they give the argument.
pub parse_port_arg-IsPortArg :
    (s : Str) (p : PortRange) (proto : Str)
    → parse_port_arg s ≡ parsed (p, proto)
    → IsPortArg s p proto
unfolding parse_port_arg
parse_port_arg-IsPortArg s p proto h =
    let (list, given, has) = cut s b'/' in
    elim (Bool-cases (has && not (given == codes "tcp") && not (given == codes "udp"))) [
      | inl bad ↦ absurd (ground arith)
      | inr good ↦
          let (same, is) = parse_ports-IsPorts list given proto p (ground arith) in
          record {
            from_one = is.from_one;
            in_order = is.in_order;
            to_last = is.to_last;
            narrow = is.narrow;
            range_proto = subst (λ x. (p.lo ≡ p.hi) ⊎ (x ≢ [])) (sym same) is.range_proto;
            known_proto = subst IsProto (sym same) (IsProto-cut s good).0;
            canonical =
                ap (λ x. with_slash x proto) is.written
                ∙ ap (with_slash list) same
                ∙ (IsProto-cut s good).1;
          }
    ]
