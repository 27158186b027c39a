-- ===== src/Firewall/Flow/Keeps.antt =====
-- A trial starts only for a change that leaves SSH as it is.
use statixagent.Prelude.{
  ℕ, ◌≡◌, ◌≢◌, refl, ◌⊎◌, Bool, true, false, not, ◌&&◌, ◌||◌, Option, none, some, List, [], ◌==◌,
  nat_eq, str_eq, ==_iff, mem?, arith, if◌then◌else◌,
}
use statixagent.Prelude.Text.{Str}
use statixagent.Netip.{Addr, NetText, addr_eq}
use statixagent.Firewall.Rules.{verdict, reachable}
use statixagent.Firewall.Simulate.{Change}
use statixagent.Firewall.Guard.{Refusal, verdict_sig, ssh_guard}
use statixagent.Firewall.Guard.Keeps.{ssh_guard-peer}
use statixagent.Firewall.Pending.{PlanReq}
use statixagent.Firewall.Listed.{fw_gen}
use statixagent.Firewall.Flow.{
  Reading, Prep, rules_changed, snapshot_unread, prepared, guarded, after_plan, prepare,
}

guarded-prepared :
    (why : Option Refusal) (p q : List Change) → guarded why p ≡ prepared q → why ≡ none
guarded-prepared none p q h = refl
guarded-prepared (some why) p q h = absurd (ground arith)

if_prepared :
    (b : Bool) (prep other : Prep) (q : List Change)
    → other ≢ prepared q
    → (if b then other else prep) ≡ prepared q
    → (b ≡ false) × (prep ≡ prepared q)
if_prepared true prep other q n h = absurd (n h)
if_prepared false prep other q n h = (refl, h)

same_base : (b : Bool) (x y : Str) → (not b || not (x == y)) ≡ false → x ≡ y
same_base b x y h = ground (arith, ==_iff x y)

module _ (net : NetText) (digest : Str → Str) where
  prepare-guarded :
      (req : PlanReq) (n : Reading) (loads : Bool) (ports : List ℕ) (peers : List Addr)
      (plan : List Change)
      → prepare net digest req n loads ports peers ≡ prepared plan
      → (fw_gen digest n.fw ≡ req.base)
        × (ssh_guard n.fw (after_plan net digest req n.fw n.v6) ports peers ≡ none)
  unfolding prepare
  prepare-guarded req n loads ports peers plan h =
      let checked =
        guarded (ssh_guard n.fw (after_plan net digest req n.fw n.v6) ports peers) req.plan in
      let loaded = if not (req.restore == []) && not loads then snapshot_unread else checked in
      let (same, h1) =
        if_prepared (not (n.backend == req.backend) || not (fw_gen digest n.fw == req.base)) loaded
          rules_changed plan (λ e. ground arith) h in
      let (read, h2) =
        if_prepared (not (req.restore == []) && not loads) checked snapshot_unread plan
          (λ e. ground arith) h1 in
      (
        same_base (n.backend == req.backend) (fw_gen digest n.fw) req.base same,
        guarded-prepared (ssh_guard n.fw (after_plan net digest req n.fw n.v6) ports peers) req.plan
            plan h2,
      )

  -- A trial that starts finds the rules with the fingerprint that its plan was made for. With the rules
  -- that are expected after it, each SSH port is reachable for each peer of that moment, or it was not
  -- reachable for the peer before and what decides on it reads the same.
  pub prepare-Keeps :
      (req : PlanReq) (n : Reading) (loads : Bool) (ports : List ℕ) (peers : List Addr)
      (plan : List Change)
      → (port : ℕ) (peer : Addr) → prepare net digest req n loads ports peers ≡ prepared plan
      → mem? port ports ≡ true
      → mem? peer peers ≡ true
      → (fw_gen digest n.fw ≡ req.base)
        × ((reachable (verdict (after_plan net digest req n.fw n.v6) port peer.is6 (some peer))
              ≡ true)
            ⊎ (reachable (verdict n.fw port peer.is6 (some peer)) ≡ false)
              × (verdict_sig (verdict n.fw port peer.is6 (some peer))
                  ≡ verdict_sig
                      (verdict (after_plan net digest req n.fw n.v6) port peer.is6 (some peer))))
  prepare-Keeps req n loads ports peers plan port peer h m k =
      let (base, guard) = prepare-guarded req n loads ports peers plan h in
      (
        base,
        ssh_guard-peer n.fw (after_plan net digest req n.fw n.v6) ports peers port peer guard m k,
      )
