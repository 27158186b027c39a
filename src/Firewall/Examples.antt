-- ===== src/Firewall/Examples.antt =====
-- The firewall model at a small list of rules: SSH is allowed from one address and denied to the others.
use statixagent.Prelude.{
  inl, inr, ◌+◌, ◌*◌, ◌^◌, ◌≡◌, ◌≢◌, ◌⊎◌, refl, true, false, none, some, List, [], ◌∷◌, ◌==◌,
  nat_eq, str_eq, if◌then◌else◌, arith,
}
use statixagent.Prelude.Int.{pos}
use statixagent.Prelude.Strings.{insert_before, any, find, contains, to_upper, join}
use statixagent.Prelude.Map.{get}
use statixagent.Prelude.Text.{Str, codes, cut, split}
use statixagent.Prelude.Decimal.{atoi, itoa}
use statixagent.Netip.{holds_addr, unmap, Addr, NetText, single, addr_eq}
use statixagent.Firewall.Rules.{PortRange, Rule, Status, verdict, reachable}
use statixagent.Firewall.Rows.{blank_rule, parse_fw_addr}
use statixagent.Firewall.Specs.{FwSpec, only_v4, prefix_arg, spec_args, spec_rule}
use statixagent.Firewall.Specs.RoundTrip.{meant, spec_rule-spec_args}
use statixagent.Firewall.Simulate.{Change, op_add, simulate}
use statixagent.Firewall.Simulate.Order.{v4_first, Numbered, simulate-Numbered}
use statixagent.Firewall.Ports.{parse_port_arg}
use statixagent.Firewall.Guard.{verdict_sig}
use statixagent.Firewall.Ports.Canonical.{IsPortArg, parse_port_arg-IsPortArg}
use statixagent.Firewall.Pending.{PlanReq, Plans, put_plan, take_plan}
use statixagent.Firewall.Pending.Valid.{IsValid, Stored, put_plan-IsValid}
use statixagent.Firewall.Pending.Once.{take_plan-Once}
use statixagent.Firewall.Listed.{fw_gen}
use statixagent.Firewall.Flow.{Reading, after_plan, prepare}
use statixagent.Firewall.Flow.Keeps.{prepare-Keeps}
use statixagent.Firewall.SshPorts.{Probes, output, failed, no_program, ssh_ports}
use statixagent.Firewall.SshPorts.Bounds.{all_in_bounds, ascending, ssh_ports-InBounds}

-- 10.0.0.7
abbrev admin : Addr
admin = record { is6 = false; value = 10 * 2 ^ 24 + 7; zone = [] }

abbrev one_host : NetText
one_host = record {
  parse_addr = λ s. if s == codes "10.0.0.7" then some admin else none;
  parse_prefix = λ s. none;
  addr_text = λ a. codes "10.0.0.7";
  prefix_text = λ p. codes "10.0.0.7/32";
}

abbrev port_22 : PortRange
port_22 = record { lo = 22; hi = 22 }

abbrev allow_admin : Rule
allow_admin = record blank_rule {
  num = 1;
  action = codes "allow";
  ports = port_22 ∷ [];
  proto = codes "tcp";
  from = some (single admin);
  raw = codes "22/tcp ALLOW IN 10.0.0.7";
}

abbrev deny_all : Rule
deny_all = record blank_rule {
  num = 2;
  action = codes "deny";
  ports = port_22 ∷ [];
  raw = codes "22 DENY IN Anywhere";
}

abbrev office : Status
office = record {
  found = true;
  active = true;
  policy = codes "deny";
  rules = allow_admin ∷ deny_all ∷ [];
}

parse_port_arg-IsPortArg_example :
    IsPortArg (codes "6000:6007/tcp") (record { lo = 6000; hi = 6007 }) (codes "tcp")
unfolding parse_port_arg cut atoi itoa
parse_port_arg-IsPortArg_example =
    parse_port_arg-IsPortArg (codes "6000:6007/tcp") (record { lo = 6000; hi = 6007 }) (codes "tcp")
      refl

-- Postgres for the administrator.
abbrev postgres : FwSpec
postgres = record {
  action = codes "allow";
  ports = record { lo = 5432; hi = 5432 };
  proto = codes "tcp";
  from = some (single admin);
}

spec_rule-spec_args_example :
    spec_rule one_host (spec_args one_host postgres) ≡ some (meant postgres, only_v4)
unfolding parse_fw_addr prefix_arg unmap
spec_rule-spec_args_example =
    spec_rule-spec_args one_host postgres refl (inr (inl refl))
      (inr (record { at_least = omega arith; ordered = omega arith; at_most = omega arith }))
      (refl, refl, refl)

-- Web for everyone, last in both families.
abbrev open_web : List Change
open_web = record { op = op_add; spec = codes "allow" ∷ codes "80/tcp" ∷ [] } ∷ []

simulate-Numbered_example :
    (v4_first (simulate one_host office open_web true).rules ≡ true)
    × Numbered 1 (simulate one_host office open_web true).rules
simulate-Numbered_example = simulate-Numbered one_host office open_web true refl

abbrev web_plan : PlanReq
web_plan = record {
  id = codes "a1";
  title = codes "Open 80/tcp";
  backend = codes "ufw";
  plan = open_web;
  cmds = [];
  restore = [];
  base = codes "g";
  after = office;
  diff = [];
  check = record { still_open = 22 ∷ []; named = admin ∷ []; more = 0; losing = [] };
  actor = pos 1;
  nonce = codes "n";
  expires = 600;
}

abbrev one_plan : Plans
one_plan = record { m = (codes "a1", web_plan) ∷ []; order = codes "a1" ∷ [] }

take_plan-Once_example : (take_plan (take_plan one_plan (codes "a1") 5).1 (codes "a1") 6).0 ≡ none
take_plan-Once_example = take_plan-Once one_plan (codes "a1") 5 6 (omega arith)

abbrev no_plans : Plans
no_plans = record { m = []; order = [] }

no_plans-IsValid : IsValid no_plans
unfolding get
no_plans-IsValid = record { distinct = tt; matched = λ j. refl; bounded = omega arith }

put_plan-IsValid_example :
    (s' : Plans) × (put_plan no_plans web_plan 5 ≡ some s') × Stored no_plans web_plan s'
unfolding get
put_plan-IsValid_example = put_plan-IsValid no_plans web_plan 5 no_plans-IsValid refl

abbrev reading : Reading
reading = record {
  unread = false;
  conflict = false;
  backend = codes "ufw";
  fw = office;
  added = [];
  v6 = false;
}

abbrev digest_g : Str → Str
digest_g s = codes "g"

prepare-Keeps_example :
    let after = after_plan one_host digest_g web_plan office false in
    (fw_gen digest_g office ≡ codes "g")
    × ((reachable (verdict after 22 false (some admin)) ≡ true)
        ⊎ (reachable (verdict office 22 false (some admin)) ≡ false)
          × (verdict_sig (verdict office 22 false (some admin))
              ≡ verdict_sig (verdict after 22 false (some admin))))
unfolding prepare after_plan cut split atoi contains to_upper join itoa spec_rule find insert_before
    holds_addr unmap any
prepare-Keeps_example =
    prepare-Keeps one_host digest_g web_plan reading true (22 ∷ []) (admin ∷ []) open_web 22 admin
      refl refl refl

abbrev some_probes : Probes
some_probes = record {
  sshd = no_program;
  usr_sbin_sshd = output (codes "port 2222");
  systemctl = failed;
  ss = failed;
}

ssh_ports-InBounds_example :
    (ssh_ports (some some_probes) (some (codes "Port 22")) ≢ [])
    × (all_in_bounds (ssh_ports (some some_probes) (some (codes "Port 22"))) ≡ true)
    × (ascending (ssh_ports (some some_probes) (some (codes "Port 22"))) ≡ true)
ssh_ports-InBounds_example = ssh_ports-InBounds (some some_probes) (some (codes "Port 22"))

-- A rule for an app profile, with a comment.
abbrev nginx : List Str
nginx = codes "allow" ∷ codes "Nginx Full" ∷ codes "comment" ∷ [] ∷ []
