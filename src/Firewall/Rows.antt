-- ===== src/Firewall/Rows.antt =====
-- internal/agent/fwufw.go: reading the rules that ufw lists.
use statixagent.Prelude.{
  ℕ, ◌+◌, Bool, true, false, not, ◌&&◌, ◌||◌, Option, none, some, List, [], ◌∷◌, ◌++◌, ◌==◌, nat_eq,
  str_eq, length, mem?, without, ltb, if◌then◌else◌,
}
use statixagent.Prelude.Int.{ℤ, pos}
use statixagent.Prelude.Text.{Str, codes, cut_prefix, cut, split}
use statixagent.Prelude.Decimal.{atoi}
use statixagent.Prelude.Strings.{
  to_lower, cut_text, cut_last, contains, fields, trim_space, join, replace_all, starts,
}
use statixagent.Netip.{Addr, Prefix, NetText, unmap, single, masked}
use statixagent.Firewall.Rules.{PortRange, Rule, Status}

abbrev pub max_port : ℕ
max_port = 65535

-- `a < 1 || b > 65535 || a > b`, on what `Atoi` gave for both
abbrev pub range_of : Option ℤ → Option ℤ → Option PortRange
range_of (some (pos a)) (some (pos b)) =
    if ltb a 1 || ltb max_port b || ltb b a then none else some (record { lo = a; hi = b })
range_of _ _ = none

unfoldable pub port_item : Str → Option PortRange
port_item item =
    let (lo, hi, is_range) = cut item b':' in
    range_of (atoi lo) (atoi (if is_range then hi else lo))

-- the loop over the list's items
unfoldable pub port_items : List Str → Option (List PortRange)
unfolding port_item
port_items [] = some []
port_items (item ∷ items) =
    let rest = port_items items in
    elim (port_item item) [
      | none ↦ none
      | some p ↦ elim rest [ none ↦ none | some ps ↦ some (p ∷ ps) ]
    ]

abbrev pub with_proto : Str → Option (List PortRange) → Option (List PortRange × Str)
with_proto proto none = none
with_proto proto (some ports) = some (ports, proto)

-- `parsePortSpec`: the ports and protocol that it writes to the rule, if it does
unfoldable pub parse_port_spec : Str → Option (List PortRange × Str)
unfolding port_items
parse_port_spec s =
    let (list, proto, _) = cut s b'/' in
    let (item, items) = split list b',' in
    if not (proto == []) && not (proto == codes "tcp") && not (proto == codes "udp")
    then none
    else with_proto proto (port_items (item ∷ items))

unfoldable pub parse_any_proto : Str → Option Str
parse_any_proto s = cut_prefix s (codes "Anywhere/")

abbrev pub is_action : Str → Bool
is_action w = w == codes "ALLOW" || w == codes "DENY" || w == codes "REJECT" || w == codes "LIMIT"

-- The words before the first action, the action, and the words after it.
unfoldable pub split_action : List Str → Option (List Str × Str × List Str)
split_action [] = none
split_action (w ∷ ws) =
    let later = split_action ws in
    if is_action w
    then some ([], w, ws)
    else elim later [ none ↦ none | some (before, act, after) ↦ some (w ∷ before, act, after) ]

-- The incoming policy in "deny (incoming), allow (outgoing)".
abbrev pub incoming : List Str → Option Str
incoming (w ∷ v ∷ []) = if v == codes "(incoming)" then some (to_lower w) else none
incoming _ = none

unfoldable pub first_policy : List Str → Str
unfolding fields
first_policy [] = []
first_policy (part ∷ parts) =
    let rest = first_policy parts in elim (incoming (fields part)) [ none ↦ rest | some p ↦ p ]

unfoldable pub parse_default_policy : Str → Str
unfolding first_policy
parse_default_policy s = let (part, parts) = split s b',' in first_policy (part ∷ parts)

abbrev pub single_unmapped : Option Addr → Option Prefix
single_unmapped none = none
single_unmapped (some a) = some (single (unmap a))

abbrev pub with_dst : Rule → Prefix → Rule
with_dst r p = record r { dst = some p; v6 = r.v6 || p.addr.is6 }

abbrev pub with_ports : Rule → List PortRange × Str → Rule
with_ports r (ports, proto) = record r { ports = ports; proto = proto }

-- an app profile whose ports are not shown
abbrev pub as_app : Rule → List Str → Rule
as_app r f = record r { app = trim_space (join (codes " ") f); unresolved = true }

-- "(v6)", then "(App)", then " on eth0" leave the column before its words are read.
unfoldable pub take_v6 : Rule × Str → Rule × Str
unfolding contains replace_all
take_v6 (r, s) =
    if contains s (codes "(v6)")
    then (record r { v6 = true }, replace_all s (codes "(v6)") [])
    else (r, s)

unfoldable pub take_app : Rule × Str → Rule × Str
take_app (r, s) = elim (cut_text s (codes "(")) [
  | none ↦ (r, s)
  | some (before, after) ↦ elim (cut_last after b')') [
    | none ↦ (r, s)
    | some (app, rest) ↦ (record r { app = trim_space app }, before ++ codes " " ++ rest)
  ]
]

unfoldable pub take_iface : Rule × Str → Rule × Str
take_iface (r, s) = elim (cut_text s (codes " on ")) [
  | none ↦ (r, s)
  | some (before, iface) ↦ (record r { iface = trim_space iface }, before)
]

abbrev pub partial_if : Bool → Rule → Rule
partial_if b r = if b then record r { partial = true } else r

abbrev pub blank_rule : Rule
blank_rule = record {
  num = 0;
  action = [];
  dir = codes "in";
  proto = [];
  ports = [];
  from = none;
  dst = none;
  iface = [];
  app = [];
  v6 = false;
  raw = [];
  unresolved = false;
  partial = false;
}

-- "IN", "OUT" or "FWD" behind the action.
unfoldable pub take_dir : Rule → List Str → Rule × List Str
take_dir r [] = (r, [])
take_dir r (w ∷ ws) =
    if w == codes "IN" || w == codes "OUT" || w == codes "FWD"
    then (record r { dir = to_lower w }, ws)
    else (r, w ∷ ws)

abbrev pub no_words : List Str → Bool
no_words [] = true
no_words (w ∷ ws) = false

abbrev pub text_before : Option (Str × Str) → Str → Str
text_before none s = s
text_before (some (before, after)) s = trim_space before

abbrev pub text_after : Option (Str × Str) → Str → Str
text_after none s = s
text_after (some (before, after)) s = trim_space after

-- Without a comment and the index of `status numbered`.
unfoldable pub row_text : Str → Str
row_text line =
    let line' = trim_space line in
    let rule = text_before (cut_text line' (codes " # ")) line' in
    if starts rule (codes "[") then text_after (cut_text rule (codes "]")) rule else rule

abbrev pub no_status : Status
no_status = record { found = false; active = false; policy = []; rules = [] }

module _ (net : NetText) where
  unfoldable pub parse_fw_addr : Str → Option Prefix
  parse_fw_addr s = elim (net.parse_prefix s) [
    | some p ↦ some (masked p)
    | none ↦ single_unmapped (net.parse_addr s)
  ]

  -- The `switch` on the words of the "To" column.
  unfoldable pub to_words : Rule → List Str → Rule
  unfolding parse_port_spec parse_any_proto parse_fw_addr
  to_words r (w ∷ []) = if w == codes "Anywhere" then r else elim (parse_port_spec w) [
    | some ps ↦ with_ports r ps
    | none ↦ elim (parse_any_proto w) [
      | some proto ↦ record r { proto = proto }
      | none ↦ elim (parse_fw_addr w) [ some p ↦ with_dst r p | none ↦ as_app r (w ∷ []) ]
    ]
  ]
  to_words r (w ∷ v ∷ []) = elim (parse_fw_addr w) [
    | none ↦ as_app r (w ∷ v ∷ [])
    | some p ↦ elim (parse_port_spec v) [
      | none ↦ as_app r (w ∷ v ∷ [])
      | some ps ↦ with_dst (with_ports r ps) p
    ]
  ]
  to_words r f = as_app r f

  unfoldable pub parse_rule_to : Rule → Str → Rule
  unfolding take_v6 take_app take_iface to_words fields
  parse_rule_to r s =
      let (r', s') = take_iface (take_app (take_v6 (r, s))) in to_words r' (fields s')

  unfoldable pub from_words : Rule → List Str → Rule
  unfolding parse_fw_addr
  from_words r [] = r
  from_words r (w ∷ ws) =
      let r' = partial_if (ltb 0 (length ws)) r in
      if w == codes "Anywhere" then r' else elim (parse_fw_addr w) [
        | none ↦ record r' { partial = true }
        | some p ↦ record r' { from = some p; v6 = r'.v6 || p.addr.is6 }
      ]

  unfoldable pub parse_rule_from : Rule → List Str → Rule
  unfolding from_words
  parse_rule_from r f =
      let r' = if mem? (codes "(v6)") f then record r { v6 = true } else r in
      from_words r' (without (codes "(v6)") f)

  unfoldable pub row_words : List Str → Option Rule
  unfolding split_action take_dir parse_rule_to parse_rule_from
  row_words f = elim (split_action f) [
    | none ↦ none
    | some (before, act, after) ↦
        let (r, from) =
          take_dir (record blank_rule { action = to_lower act; raw = join (codes " ") f }) after in
        if no_words before || no_words from
        then none
        else some (parse_rule_from (parse_rule_to r (join (codes " ") before)) from)
  ]

  unfoldable pub parse_ufw_row : Str → Option Rule
  unfolding row_words row_text fields
  parse_ufw_row line = row_words (fields (row_text line))

  -- The rows, numbered on from `n`, and the policy of the last "Default:" line.
  unfoldable pub read_rows : ℕ → List Str → Status → Status
  unfolding parse_ufw_row parse_default_policy
  read_rows n [] s = s
  read_rows n (line ∷ lines) s = elim (cut_prefix (trim_space line) (codes "Default:")) [
    | some rest ↦ read_rows n lines (record s { policy = parse_default_policy rest })
    | none ↦ elim (parse_ufw_row line) [
      | none ↦ read_rows n lines s
      | some r ↦
          read_rows (n + 1) lines (record s { rules = s.rules ++ record r { num = n + 1 } ∷ [] })
    ]
  ]

  -- From the first line that has "status:" on.
  unfoldable pub read_status : List Str → Status
  unfolding read_rows
  read_status [] = no_status
  read_status (line ∷ lines) =
      let later = read_status lines in
      let here = to_lower line in
      if contains here (codes "status:")
      then (if contains here (codes "status: active")
          then read_rows 0 lines (record no_status { found = true; active = true })
          else record no_status { found = true })
      else later

  unfoldable pub parse_ufw_output : Str → Status
  unfolding read_status
  parse_ufw_output out = let (line, lines) = split out 10 in read_status (line ∷ lines)
