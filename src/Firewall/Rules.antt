-- ===== src/Firewall/Rules.antt =====
-- internal/agent/fwufw.go: the rule model and its first-match evaluation.
pub mod Deciding
use statixagent.Prelude.{
  ℕ, ◌≡◌, ◌↔◌, refl, Bool, true, false, not, ◌&&◌, ◌||◌, Option, none, some, List, [], ◌∷◌, ◌++◌,
  Comparable, ◌==◌, nat_eq, bool_eq, str_eq, ==_iff, arith, leb, ltb, if◌then◌else◌,
}
use statixagent.Prelude.Text.{Str, codes}
use statixagent.Prelude.Map.{is_some}
use statixagent.Prelude.Strings.{any}
use statixagent.Netip.{Addr, Prefix, unmap, holds_addr}

pub record PortRange : Type 0 where
  pub lo : ℕ
  pub hi : ℕ

abbrev pub ranges_beq : List PortRange → List PortRange → Bool
ranges_beq [] [] = true
ranges_beq [] (q ∷ qs) = false
ranges_beq (p ∷ ps) [] = false
ranges_beq (p ∷ ps) (q ∷ qs) = p.lo == q.lo && p.hi == q.hi && ranges_beq ps qs

pub ranges_beq_iff : (ps qs : List PortRange) → (ranges_beq ps qs ≡ true) ↔ (ps ≡ qs)
ranges_beq_iff [] [] = ground arith
ranges_beq_iff [] (q ∷ qs) = ground arith
ranges_beq_iff (p ∷ ps) [] = ground arith
ranges_beq_iff (p ∷ ps) (q ∷ qs) =
    ground (arith, ==_iff p.lo q.lo, ==_iff p.hi q.hi, ranges_beq_iff ps qs)

instance abbrev pub ranges_eq : Comparable (List PortRange)
ranges_eq = record { same = ranges_beq; same_iff = ranges_beq_iff }

-- `fwRule`. `from`, `to` and a `Prefix` that is zero are `none`.
pub record Rule : Type 0 where
  pub num : ℕ
  pub action : Str
  pub dir : Str
  pub proto : Str
  pub ports : List PortRange
  pub from : Option Prefix
  pub dst : Option Prefix
  pub iface : Str
  pub app : Str
  pub v6 : Bool
  pub raw : Str
  pub unresolved : Bool
  pub partial : Bool

-- `ufwStatus`
pub record Status : Type 0 where
  pub found : Bool
  pub active : Bool
  pub policy : Str
  pub rules : List Rule

-- The states of `sshPortState` that a verdict has.
pub data PortState : Type 0 where
  fw_open fw_closed fw_unmanaged : PortState

pub record PortVerdict : Type 0 where
  pub state : PortState
  pub rule : Option Rule
  pub policy : Str
  pub except : List Rule
  pub unsure : List Rule

unfoldable pub in_ports : ℕ → List PortRange → Bool
in_ports port [] = false
in_ports port (p ∷ ps) = leb p.lo port && leb port p.hi || in_ports port ps

-- `coversPort`
abbrev pub no_ports : List PortRange → Bool
no_ports [] = true
no_ports (p ∷ ps) = false

unfoldable pub covers_port : Rule → ℕ → Bool
unfolding in_ports
covers_port r port = no_ports r.ports || in_ports port r.ports

-- the rule is of another direction, family or protocol
unfoldable pub is_aside : Rule → Bool → Bool
is_aside r v6 =
    not (r.dir == codes "in")
    || not (r.v6 == v6)
    || not (r.proto == []) && not (r.proto == codes "tcp")

-- the rule's source does not hold the peer
unfoldable pub is_other_source : Option Prefix → Option Addr → Bool
is_other_source (some p) (some a) = not (holds_addr p a)
is_other_source _ _ = false

unfoldable pub is_restricted : Rule → Option Addr → Bool
is_restricted r peer =
    r.partial || not (r.iface == []) || is_some r.dst || is_some r.from && not (is_some peer)

unfoldable pub lets_in : Rule → Bool
lets_in r = r.action == codes "allow" || r.action == codes "limit"

-- What a round of the loop of `verdict` does with a rule.
pub data Look : Type 0 where
  passes doubts narrows settles : Look

unfoldable pub look : ℕ → Bool → Option Addr → Rule → Look
unfolding covers_port is_aside is_other_source is_restricted lets_in
look port v6 peer r =
    if is_aside r v6
    then passes
    else if r.unresolved
    then doubts
    else if not (covers_port r port)
    then passes
    else if is_other_source r.from peer
    then passes
    else if is_restricted r peer
    then (if lets_in r then narrows else passes)
    else settles

-- The loop, with the verdict so far.
unfoldable pub judge : ℕ → Bool → Option Addr → List Rule → PortVerdict → PortVerdict
unfolding look lets_in
judge port v6 peer [] v = v
judge port v6 peer (r ∷ rs) v = elim (look port v6 peer r) [
  | passes ↦ judge port v6 peer rs v
  | doubts ↦ judge port v6 peer rs (record v { unsure = v.unsure ++ r ∷ [] })
  | narrows ↦ judge port v6 peer rs (record v { except = v.except ++ r ∷ [] })
  | settles ↦ record v { rule = some r; state = if lets_in r then fw_open else fw_closed }
]

abbrev pub unmapped : Option Addr → Option Addr
unmapped none = none
unmapped (some a) = some (unmap a)

abbrev pub no_verdict : Str → PortVerdict
no_verdict policy = record {
  state = fw_unmanaged;
  rule = none;
  policy = policy;
  except = [];
  unsure = [];
}

unfoldable pub verdict : Status → ℕ → Bool → Option Addr → PortVerdict
unfolding judge
verdict s port v6 peer = judge port v6 (unmapped peer) s.rules (no_verdict s.policy)

unfoldable pub has_v6 : Status → Bool
has_v6 s = any (λ (r : Rule). r.v6) s.rules

-- internal/agent/fwdeadman.go
unfoldable pub reachable : PortVerdict → Bool
reachable v = elim v.state [
  | fw_open ↦ true
  | fw_closed ↦ false
  | fw_unmanaged ↦ v.policy == codes "allow"
]
