-- ===== src/Firewall/Guard.antt =====
-- internal/agent/fwplan.go, fwrules.go: what a planned change may not do to SSH.
pub mod Keeps
use statixagent.Prelude.{
  ℕ, take, mem?, ◌+◌, ◌-◌, Bool, true, false, not, ◌&&◌, ◌||◌, Option, none, some, List, [], ◌∷◌,
  ◌++◌, ◌==◌, nat_eq, bool_eq, str_eq, ltb, length, if◌then◌else◌,
}
use statixagent.Prelude.Text.{Str, codes}
use statixagent.Prelude.Map.{is_some}
use statixagent.Prelude.Decimal.{itoa}
use statixagent.Prelude.Strings.{any, find}
use statixagent.Netip.{Addr, Prefix, addr_eq, is_single_ip, NetText, holds_addr}
use statixagent.Firewall.Rules.{
  Rule, Status, PortState, fw_open, fw_closed, fw_unmanaged, PortVerdict, covers_port, verdict,
  has_v6, reachable,
}
use statixagent.Firewall.Simulate.{same_match, row_of}
use statixagent.Firewall.Specs.{spec_rule}
use statixagent.Firewall.Labels.{action_label, port_label, from_label}

-- The number of a state; the four before them are of probes without rules.
abbrev pub state_number : PortState → ℕ
state_number fw_open = 4
state_number fw_closed = 5
state_number fw_unmanaged = 6

unfoldable pub signed : List Rule → Str
signed [] = []
signed (r ∷ rs) = r.action ++ codes " " ++ r.raw ++ codes ";" ++ signed rs

abbrev pub decided_by : Option Rule → Str
decided_by none = []
decided_by (some r) = r.action ++ codes " " ++ r.raw

unfoldable pub verdict_sig : PortVerdict → Str
unfolding signed
verdict_sig v =
    itoa (state_number v.state)
    ++ codes "|"
    ++ v.policy
    ++ codes "|"
    ++ decided_by v.rule
    ++ codes "|"
    ++ signed v.except
    ++ codes "|"
    ++ signed v.unsure

-- Why a change is refused: a session that it would block, a port that it would close.
pub data Refusal : Type 0 where
  blocks_session : ℕ → Addr → Refusal
  closes_port : ℕ → Bool → Refusal

unfoldable pub blocks : Status → Status → ℕ → Addr → Bool
unfolding reachable verdict verdict_sig
blocks before after port peer =
    let vb = verdict before port peer.is6 (some peer) in
    let va = verdict after port peer.is6 (some peer) in
    not (reachable va) && (reachable vb || not (verdict_sig vb == verdict_sig va))

unfoldable pub closes : Status → Status → ℕ → Bool → Bool
unfolding reachable verdict has_v6
closes before after port v6 =
    if v6 && not (has_v6 before) && not (has_v6 after)
    then false
    else reachable (verdict before port v6 none) && not (reachable (verdict after port v6 none))

unfoldable pub guard_peers : Status → Status → ℕ → List Addr → Option Refusal
unfolding blocks
guard_peers before after port [] = none
guard_peers before after port (peer ∷ peers) =
    let rest = guard_peers before after port peers in
    if blocks before after port peer then some (blocks_session port peer) else rest

unfoldable pub guard_families : Status → Status → ℕ → List Bool → Option Refusal
unfolding closes
guard_families before after port [] = none
guard_families before after port (v6 ∷ families) =
    let rest = guard_families before after port families in
    if closes before after port v6 then some (closes_port port v6) else rest

abbrev pub first_of : Option Refusal → Option Refusal → Option Refusal
first_of none later = later
first_of (some why) later = some why

-- `sshGuard`, the reason as data
unfoldable pub ssh_guard : Status → Status → List ℕ → List Addr → Option Refusal
unfolding guard_peers guard_families
ssh_guard before after [] peers = none
ssh_guard before after (port ∷ ports) peers = first_of (guard_peers before after port peers) (
    first_of (guard_families before after port (false ∷ true ∷ []))
      (ssh_guard before after ports peers))

-- What the confirm screen says of SSH: the ports still open, for whom, and the trusted sources that would
-- lose it.
pub record SshCheck : Type 0 where
  pub still_open : List ℕ
  pub named : List Addr
  pub more : ℕ
  pub losing : List Addr

unfoldable pub losing_hosts : Status → Status → List ℕ → List Addr → List Addr
unfolding ssh_guard
losing_hosts before after ports [] = []
losing_hosts before after ports (t ∷ trusted) =
    let rest = losing_hosts before after ports trusted in
    elim (ssh_guard before after ports (t ∷ [])) [ none ↦ rest | some why ↦ t ∷ rest ]

abbrev pub ssh_check : Status → Status → List ℕ → List Addr → List Addr → SshCheck
unfolding losing_hosts
ssh_check before after ports peers trusted = record {
  still_open = ports;
  named = take 2 peers;
  more = length peers - 2;
  losing = losing_hosts before after ports trusted;
}

-- `trustedHosts`, from the hosts taken so far
unfoldable pub trusted_hosts : List Addr → List Prefix → List Addr → List Addr
trusted_hosts peers [] hosts = hosts
trusted_hosts peers (p ∷ entries) hosts = trusted_hosts peers entries (
    if is_single_ip p && not (mem? p.addr peers) && not (mem? p.addr hosts)
    then hosts ++ p.addr ∷ []
    else hosts)

-- `sameRow`
unfoldable pub same_row : Rule → Rule → Bool
unfolding same_match
same_row a b = a.action == b.action && a.v6 == b.v6 && same_match a b

-- `fwDiffMax`
abbrev pub max_diff : ℕ
max_diff = 24

-- the peers that a row matches, `peersMatching`
unfoldable pub is_matched : Rule → List ℕ → Addr → Bool
unfolding covers_port
is_matched row ports p =
    if not (row.dir == codes "in")
      || not (row.v6 == p.is6)
      || not (row.proto == []) && not (row.proto == codes "tcp")
      || elim row.from [ none ↦ false | some q ↦ not (holds_addr q p) ]
    then false
    else any (covers_port row) ports || row.unresolved

unfoldable pub peers_matching : Rule → List ℕ → List Addr → ℕ
unfolding is_matched
peers_matching row ports [] = 0
peers_matching row ports (p ∷ peers) =
    let rest = peers_matching row ports peers in if is_matched row ports p then rest + 1 else rest
