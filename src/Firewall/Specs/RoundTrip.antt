-- ===== src/Firewall/Specs/RoundTrip.antt =====
-- The words of a spec that the bot writes are read as the rule that it means.
use statixagent.Prelude.{
  ◌≡◌, refl, ◌∙◌, ap, ◌⊎◌, inl, inr, true, false, Option, none, some, List, [], ◌∷◌, ◌++◌, ◌==◌,
  nat_eq, str_eq, ==_iff, Bool-cases, arith, if◌then◌else◌,
}
use statixagent.Prelude.Text.{Str, codes}
use statixagent.Netip.{Prefix, NetText}
use statixagent.Firewall.Rules.{PortRange, Rule}
use statixagent.Firewall.Rows.{blank_rule, parse_port_spec, parse_fw_addr, with_ports}
use statixagent.Firewall.Ports.{port_text, with_slash}
use statixagent.Firewall.Ports.Canonical.{IsProto}
use statixagent.Firewall.Specs.{
  Pairs, read_pair, read_pairs, read_side, with_words, end_pairs, FwSpec, both, is_spec_action,
  family_in, is_v6_only, with_family, prefix_arg, spec_args, spec_words, action_words, rule_words,
  spec_rule,
}
use statixagent.Firewall.Specs.Ports.{
  InPorts, port_text-StartsWithDigit, with_slash-StartsWithDigit, parse_port_spec-with_slash,
}
use statixagent.Firewall.Specs.Notes.{
  is_note, is_reserved, IsNumber-note, IsNumber-reserved, is_spec_action-IsAction, IsAction-note,
  drop_notes-single, drop_notes-keep, take_words, all_clean, drop_notes-clean, digit-nil,
}

abbrev ported : Str → PortRange → Str → Rule
ported a p proto = record blank_rule { action = a; ports = p ∷ []; proto = proto }

module _ (net : NetText) where
  rule_words-single :
      (a w : Str) (ps : List PortRange) (proto : Str)
      → is_spec_action a ≡ true
      → is_reserved w ≡ false
      → parse_port_spec w ≡ some (ps, proto)
      → rule_words net (a ∷ w ∷ [])
        ≡ some (record blank_rule { action = a; ports = ps; proto = proto })
  unfolding rule_words action_words spec_words
  rule_words-single a w ps proto h k e =
      ap (action_words net a) (take_words (record blank_rule { action = a }) w k)
      ∙ (rw (action_words, h, spec_words, e) refl)

  spec_rule-ports :
      (a : Str) (p : PortRange) (proto : Str)
      → is_spec_action a ≡ true
      → InPorts p
      → IsProto proto
      → spec_rule net (a ∷ with_slash (port_text p) proto ∷ []) ≡ some (ported a p proto, both)
  unfolding spec_rule
  spec_rule-ports a p proto h i j =
      let w = with_slash (port_text p) proto in
      let digit = with_slash-StartsWithDigit (port_text p) proto (port_text-StartsWithDigit p) in
      rw
        (
          spec_rule,
          drop_notes-keep a w [] (IsAction-note a (is_spec_action-IsAction a h)),
          drop_notes-single w (IsNumber-note w digit),
          rule_words-single a w (p ∷ []) proto h (IsNumber-reserved w digit)
              (parse_port_spec-with_slash p proto i j),
        )
        refl

-- What the words behind the source say of the ports and the protocol.
abbrev port_part : Str → List Str
port_part w = codes "to" ∷ codes "any" ∷ codes "port" ∷ w ∷ []

abbrev proto_part : Str → List Str
proto_part proto = if proto == [] then [] else codes "proto" ∷ proto ∷ []

module _ (net : NetText) (p : Prefix) (reads : parse_fw_addr net (prefix_arg net p) ≡ some p)
    (word : is_note (prefix_arg net p) ≡ false)
    (other : (prefix_arg net p == codes "any") ≡ false) where
  read_from :
      (s : Pairs)
      → read_pair net s (codes "from") (prefix_arg net p)
        ≡ some (record s { side = codes "from"; rule = record s.rule { from = some p } })
  unfolding read_pair read_side
  read_from s = rw (read_pair, read_side, other, reads) refl

  read_ports :
      (s : Pairs) (w : Str) (rest : List Str)
      → read_pairs net (port_part w ++ rest) s
        ≡ read_pairs net rest (record s { side = codes "to"; port = w })
  unfolding read_pairs read_pair read_side
  read_ports s w rest = refl

  read_proto :
      (s : Pairs) (proto : Str)
      → s.proto ≡ []
      → read_pairs net (proto_part proto) s ≡ some (record s { proto = proto })
  unfolding read_pairs read_pair
  read_proto s proto h = elim (Bool-cases (proto == [])) [
    | inl bare ↦ rw (bare, (==_iff proto []).0 bare) (ap (λ x. some (record s { proto = x })) h)
    | inr given ↦ rw given refl
  ]

  abbrev first_pairs : Rule → Pairs
  first_pairs r = record {
    rule = record r { from = some p };
    side = codes "from";
    port = [];
    proto = [];
  }

  abbrev source_rule : Str → List PortRange → Str → Rule
  source_rule a ps proto = record blank_rule {
    action = a;
    ports = ps;
    proto = proto;
    from = some p;
  }

  spec_words-from :
      (r : Rule) (rest : List Str)
      → spec_words net r (codes "from" ∷ prefix_arg net p ∷ rest)
        ≡ end_pairs net (read_pairs net rest (first_pairs r))
  unfolding spec_words read_pairs
  spec_words-from r rest =
      rw (spec_words, read_pairs, read_from (record { rule = r; side = []; port = []; proto = [] }))
        refl

  words-proto :
      (a proto : Str)
      → spec_words net
          (record blank_rule { action = a })
          (codes "from" ∷ prefix_arg net p ∷ proto_part proto)
        ≡ some (source_rule a [] proto)
  unfolding end_pairs with_words
  words-proto a proto =
      spec_words-from (record blank_rule { action = a }) (proto_part proto)
      ∙ ap (end_pairs net) (read_proto (first_pairs (record blank_rule { action = a })) proto refl)

  with_words-ports :
      (s : Pairs) (w : Str) (ps : List PortRange × Str)
      → (s.port == []) ≡ false
      → parse_port_spec (with_slash s.port s.proto) ≡ some ps
      → with_words s ≡ some (with_ports s.rule ps)
  unfolding with_words
  with_words-ports s w ps h e = rw (with_words, h, e) refl

  words-ports :
      (a proto : Str) (ports : PortRange)
      → InPorts ports
      → IsProto proto
      → spec_words net
          (record blank_rule { action = a })
          (codes "from" ∷ prefix_arg net p ∷ port_part (port_text ports) ++ proto_part proto)
        ≡ some (source_rule a (ports ∷ []) proto)
  unfolding end_pairs
  words-ports a proto ports i j =
      let r = first_pairs (record blank_rule { action = a }) in
      let s = record r { side = codes "to"; port = port_text ports } in
      spec_words-from (record blank_rule { action = a })
        (port_part (port_text ports) ++ proto_part proto)
      ∙ ap (end_pairs net)
          (read_ports r (port_text ports) (proto_part proto) ∙ read_proto s proto refl)
      ∙ with_words-ports (record s { proto = proto }) [] (ports ∷ [], proto)
          (digit-nil (port_text ports) (port_text-StartsWithDigit ports))
          (parse_port_spec-with_slash ports proto i j)

  rule_words-from :
      (a : Str) (rest : List Str)
      → is_spec_action a ≡ true
      → rule_words net (a ∷ codes "from" ∷ prefix_arg net p ∷ rest)
        ≡ spec_words net (record blank_rule { action = a }) (codes "from" ∷ prefix_arg net p ∷ rest)
  unfolding rule_words action_words
  rule_words-from a rest h = rw (rule_words, action_words, h) refl

-- A source whose text is read back, and is none of ufw's words; without a source there are ports.
abbrev pub IsSource : NetText → Option Prefix → PortRange → Type 0
IsSource net none ports = InPorts ports
IsSource net (some p) ports =
    (parse_fw_addr net (prefix_arg net p) ≡ some p)
    × (is_note (prefix_arg net p) ≡ false)
    × ((prefix_arg net p == codes "any") ≡ false)

-- Every port, or ports from 1 to 65535.
abbrev pub IsPorts : PortRange → Type 0
IsPorts ports = (ports.lo ≡ 0) ⊎ InPorts ports

abbrev listed_ports : PortRange → List PortRange
listed_ports ports = if ports.lo == 0 then [] else ports ∷ []

-- The rule that a spec means.
abbrev pub meant : FwSpec → Rule
meant s = record blank_rule {
  action = s.action;
  ports = listed_ports s.ports;
  proto = s.proto;
  from = s.from;
  v6 = is_v6_only (family_in both s.from);
}

listed-InPorts : (ports : PortRange) → InPorts ports → (ports.lo == 0) ≡ false
listed-InPorts ports h = ground (arith, ==_iff ports.lo 0, h.at_least)

IsProto-clean : (proto : Str) → IsProto proto → all_clean (proto_part proto) ≡ true
unfolding all_clean
IsProto-clean proto (inl e) = rw e refl
IsProto-clean proto (inr (inl e)) = rw e refl
IsProto-clean proto (inr (inr e)) = rw e refl

clean-ports :
    (ports : PortRange) (proto : Str)
    → IsProto proto
    → all_clean (port_part (port_text ports) ++ proto_part proto) ≡ true
unfolding all_clean
clean-ports ports proto j =
    rw
      (
        all_clean,
        IsNumber-note (port_text ports) (port_text-StartsWithDigit ports),
        IsProto-clean proto j,
      )
      refl

module _ (net : NetText) where
  clean-from :
      (a : Str) (p : Prefix) (rest : List Str)
      → is_spec_action a ≡ true
      → is_note (prefix_arg net p) ≡ false
      → all_clean rest ≡ true
      → all_clean (a ∷ codes "from" ∷ prefix_arg net p ∷ rest) ≡ true
  unfolding all_clean
  clean-from a p rest h k l =
      rw (all_clean, IsAction-note a (is_spec_action-IsAction a h), k, l) refl

  spec_rule-from :
      (a : Str) (p : Prefix) (rest : List Str) (r : Rule)
      → is_spec_action a ≡ true
      → is_note (prefix_arg net p) ≡ false
      → all_clean rest ≡ true
      → rule_words net (a ∷ codes "from" ∷ prefix_arg net p ∷ rest) ≡ some r
      → spec_rule net (a ∷ codes "from" ∷ prefix_arg net p ∷ rest) ≡ some (with_family r)
  unfolding spec_rule
  spec_rule-from a p rest r h k l e =
      rw
        (
          spec_rule,
          drop_notes-clean (a ∷ codes "from" ∷ prefix_arg net p ∷ rest) (clean-from a p rest h k l),
          e,
        )
        refl

  written :
      (a : Str) (ports : PortRange) (proto : Str) (from : Option Prefix)
      → is_spec_action a ≡ true
      → IsProto proto
      → IsPorts ports
      → IsSource net from ports
      → spec_rule net
          (spec_args net (record { action = a; ports = ports; proto = proto; from = from }))
        ≡ some (
          meant (record { action = a; ports = ports; proto = proto; from = from }),
          family_in both from,
        )
  unfolding spec_args
  written a ports proto none h j i src =
      rw (spec_args, listed-InPorts ports src) (spec_rule-ports net a ports proto h src j)
  written a ports proto (some p) h j (inl every) (reads, word, other) =
      rw (spec_args, every)
        (spec_rule-from a p (proto_part proto) (source_rule net p reads word other a [] proto) h
          word (IsProto-clean proto j)
          (rule_words-from net p reads word other a (proto_part proto) h
            ∙ words-proto net p reads word other a proto))
  written a ports proto (some p) h j (inr some_ports) (reads, word, other) =
      rw (spec_args, listed-InPorts ports some_ports)
        (spec_rule-from a p (port_part (port_text ports) ++ proto_part proto)
          (source_rule net p reads word other a (ports ∷ []) proto) h word
          (clean-ports ports proto j)
          (rule_words-from net p reads word other a
              (port_part (port_text ports) ++ proto_part proto) h
            ∙ words-ports net p reads word other a proto ports some_ports j))

  -- The words of a spec are read as the rule that it means, in its family, if the action is one of ufw's
  -- four, the protocol is tcp, udp or none, the ports are in order from 1 to 65535 or are every port of a
  -- source, and a source's text is read back and is none of ufw's words.
  pub spec_rule-spec_args :
      (s : FwSpec)
      → is_spec_action s.action ≡ true
      → IsProto s.proto
      → IsPorts s.ports
      → IsSource net s.from s.ports
      → spec_rule net (spec_args net s) ≡ some (meant s, family_in both s.from)
  spec_rule-spec_args s h j i src = written s.action s.ports s.proto s.from h j i src
