-- ===== src/Firewall/Guard/Keeps.antt =====
-- What a change that passes the guard leaves open.
use statixagent.Prelude.{
  ℕ, ◌≡◌, refl, ◌⊎◌, inl, inr, Bool, true, false, not, ◌&&◌, Option, none, some, List, [], ◌∷◌,
  ◌==◌, nat_eq, str_eq, ==_iff, Bool-cases, mem?, arith,
}
use mathlib.Core.Path.{subst}
use statixagent.Netip.{Addr, addr_eq}
use statixagent.Firewall.Rules.{Status, verdict, has_v6, reachable}
use statixagent.Firewall.Guard.{
  verdict_sig, Refusal, blocks, closes, guard_peers, guard_families, first_of, ssh_guard,
}

guard_peers-none :
    (before after : Status) (port : ℕ) (peers : List Addr) (peer : Addr)
    → guard_peers before after port peers ≡ none
    → mem? peer peers ≡ true
    → blocks before after port peer ≡ false
unfolding guard_peers
guard_peers-none before after port [] peer g m = ground arith
guard_peers-none before after port (p ∷ peers) peer g m =
    ground (arith, guard_peers-none before after port peers peer, ==_iff p peer, ==_iff peer p)

guard_families-none :
    (before after : Status) (port : ℕ) (v6 : Bool)
    → guard_families before after port (false ∷ true ∷ []) ≡ none
    → closes before after port v6 ≡ false
unfolding guard_families
guard_families-none before after port true g = ground arith
guard_families-none before after port false g = ground arith

first_of-none : (a b : Option Refusal) → first_of a b ≡ none → (a ≡ none) × (b ≡ none)
first_of-none none b h = (refl, h)
first_of-none (some why) b h = absurd (ground arith)

mem-tail :
    (p : ℕ) (ports : List ℕ) (port : ℕ)
    → mem? port (p ∷ ports) ≡ true
    → (p == port) ≡ false
    → mem? port ports ≡ true
mem-tail p ports port m other = ground (arith, ==_iff p port, ==_iff port p)

ssh_guard-none :
    (before after : Status) (ports : List ℕ) (peers : List Addr) (port : ℕ)
    → ssh_guard before after ports peers ≡ none
    → mem? port ports ≡ true
    → (guard_peers before after port peers ≡ none)
      × (guard_families before after port (false ∷ true ∷ []) ≡ none)
unfolding ssh_guard
ssh_guard-none before after [] peers port g m = absurd (ground arith)
ssh_guard-none before after (p ∷ ports) peers port g m =
    let families = guard_families before after p (false ∷ true ∷ []) in
    let rest = ssh_guard before after ports peers in
    let (here, later) =
      first_of-none (guard_peers before after p peers) (first_of families rest) g in
    let (family, others) = first_of-none families rest later in
    elim (Bool-cases (p == port)) [
      | inl same ↦
          let e = (==_iff p port).0 same in
          (
            subst (λ q. guard_peers before after q peers ≡ none) e here,
            subst (λ q. guard_families before after q (false ∷ true ∷ []) ≡ none) e family,
          )
      | inr other ↦
          ssh_guard-none before after ports peers port others (mem-tail p ports port m other)
    ]

blocks-false :
    (before after : Status) (port : ℕ) (peer : Addr)
    → blocks before after port peer ≡ false
    → (reachable (verdict after port peer.is6 (some peer)) ≡ true)
      ⊎ (reachable (verdict before port peer.is6 (some peer)) ≡ false)
        × (verdict_sig (verdict before port peer.is6 (some peer))
            ≡ verdict_sig (verdict after port peer.is6 (some peer)))
unfolding blocks
blocks-false before after port peer b = ground (
  arith,
  ==_iff (verdict_sig (verdict before port peer.is6 (some peer)))
      (verdict_sig (verdict after port peer.is6 (some peer))),
)

-- A change that passes the guard leaves each SSH port reachable for each peer, or the port was not
-- reachable for that peer and what decides on it reads the same after the change.
pub ssh_guard-peer :
    (before after : Status) (ports : List ℕ) (peers : List Addr) (port : ℕ) (peer : Addr)
    → ssh_guard before after ports peers ≡ none
    → mem? port ports ≡ true
    → mem? peer peers ≡ true
    → (reachable (verdict after port peer.is6 (some peer)) ≡ true)
      ⊎ (reachable (verdict before port peer.is6 (some peer)) ≡ false)
        × (verdict_sig (verdict before port peer.is6 (some peer))
            ≡ verdict_sig (verdict after port peer.is6 (some peer)))
ssh_guard-peer before after ports peers port peer g m n = blocks-false before after port peer (
    guard_peers-none before after port peers peer
      (ssh_guard-none before after ports peers port g m).0 n)

-- A change that passes the guard leaves each SSH port that was open to any address open, in each family;
-- IPv6 counts when a list has IPv6 rows.
pub ssh_guard-family :
    (before after : Status) (ports : List ℕ) (peers : List Addr) (port : ℕ) (v6 : Bool)
    → ssh_guard before after ports peers ≡ none
    → mem? port ports ≡ true
    → (v6 && not (has_v6 before) && not (has_v6 after)) ≡ false
    → reachable (verdict before port v6 none) ≡ true
    → reachable (verdict after port v6 none) ≡ true
unfolding closes
ssh_guard-family before after ports peers port v6 g m six r = ground (
  arith,
  guard_families-none before after port v6 (ssh_guard-none before after ports peers port g m).1,
)
