-- ===== src/Firewall/Trial/Rollback/Risks.antt =====
-- What `lockoutRisk` finds: whether the rules can be read, and who is let in.
use statixagent.Prelude.{
  zero, suc, get_elem?, mem?, nat_eq, ==_refl, ℕ, ◌≡◌, refl, ◌∙◌, sym, ap, ◌⊎◌, inl, inr, Bool,
  true, false, not, ◌&&◌, ◌||◌, Option, none, some, List, [], ◌∷◌, str_eq, Bool-cases, arith,
  if◌then◌else◌, if-split,
}
use statixagent.Prelude.Map.{or_else}
use statixagent.Firewall.Rules.{Status, verdict, has_v6, reachable}
use statixagent.Firewall.Trial.{Probe, manageable, Snap, SshConn, Host}
use statixagent.Firewall.Trial.Rollback.{
  Risk, undo_failed, blocks_peer, stays_closed, unread_rules, blocked_conn, is_shut, shut_port,
  first_risk, lockout_risk,
}

-- Every peer that has an SSH connection is let in.
abbrev ConnsIn : Status → List SshConn → Type 0
ConnsIn fw [] = Unit
ConnsIn fw (c ∷ conns) =
    (reachable (verdict fw c.near.port c.peer.addr.is6 (some c.peer.addr)) ≡ true)
    × ConnsIn fw conns

-- A port is let in where it was.
abbrev StaysIn : Status → Status → ℕ → Bool → Type 0
StaysIn pre fw port v6 =
    (reachable (verdict fw port v6 none) ≡ true)
    ⊎ ((reachable (verdict pre port v6 none) ≡ false) ⊎ (v6 ≡ true) × (has_v6 pre ≡ false))

abbrev PortsStayIn : Status → Status → List ℕ → Type 0
PortsStayIn pre fw [] = Unit
PortsStayIn pre fw (port ∷ ports) =
    StaysIn pre fw port false × StaysIn pre fw port true × PortsStayIn pre fw ports

if-none :
    {A : Type 0} (b : Bool) (why : A) (x : Option A)
    → (if b then some why else x) ≡ none
    → (b ≡ false) × (x ≡ none)
if-none b why x e = ground (arith, e)

blocked_conn-none :
    (fw : Status) (conns : List SshConn) → blocked_conn fw conns ≡ none → ConnsIn fw conns
unfolding blocked_conn
blocked_conn-none fw [] e = tt
blocked_conn-none fw (c ∷ conns) e =
    let in_ = reachable (verdict fw c.near.port c.peer.addr.is6 (some c.peer.addr)) in
    elim (Bool-cases in_) [
      | inl fits ↦ (
        fits,
        blocked_conn-none fw conns (
            sym (
              ap
                (λ b.
                  if b then blocked_conn fw conns else some (blocks_peer c.near.port c.peer.addr))
                fits)
            ∙ e),
      )
      | inr out ↦ ground (arith, e, out)
    ]

is_shut-StaysIn :
    (pre fw : Status) (port : ℕ) (v6 : Bool)
    → is_shut pre fw port v6 ≡ false
    → StaysIn pre fw port v6
unfolding is_shut
is_shut-StaysIn pre fw port v6 e = ground (arith, e)

or-false : (a b : Bool) → (a || b) ≡ false → (a ≡ false) × (b ≡ false)
or-false a b e = ground (arith, e)

shut_port-none :
    (pre fw : Status) (ports : List ℕ) → shut_port pre fw ports ≡ none → PortsStayIn pre fw ports
unfolding shut_port
shut_port-none pre fw [] e = tt
shut_port-none pre fw (port ∷ ports) e =
    let shut4 = is_shut pre fw port false in
    let shut6 = is_shut pre fw port true in
    let (shut, rest) = if-none (shut4 || shut6) (stays_closed port) (shut_port pre fw ports) e in
    let (no4, no6) = or-false shut4 shut6 shut in
    (
      is_shut-StaysIn pre fw port false no4,
      is_shut-StaysIn pre fw port true no6,
      shut_port-none pre fw ports rest,
    )

-- A peer that has an SSH connection is not let in.
abbrev BlocksOne : Status → List SshConn → Risk → Type 0
BlocksOne fw conns why =
    (i : ℕ) × (c : SshConn) × (get_elem? conns i ≡ some c)
    × (why ≡ blocks_peer c.near.port c.peer.addr)
    × (reachable (verdict fw c.near.port c.peer.addr.is6 (some c.peer.addr)) ≡ false)

-- A port is not let in where it was.
abbrev ShutsOne : Status → Status → List ℕ → Risk → Type 0
ShutsOne pre fw ports why =
    (port : ℕ) × (v6 : Bool) × (mem? port ports ≡ true)
    × (why ≡ stays_closed port)
    × (v6 && not (has_v6 pre) ≡ false)
    × (reachable (verdict pre port v6 none) ≡ true)
    × (reachable (verdict fw port v6 none) ≡ false)

some_risk : (a b : Risk) → some a ≡ some b → b ≡ a
some_risk a b e = sym (ap (λ o. or_else o a) e)

blocked_conn-some :
    (fw : Status) (conns : List SshConn) (why : Risk)
    → blocked_conn fw conns ≡ some why
    → BlocksOne fw conns why
unfolding blocked_conn
blocked_conn-some fw [] why = λ e. ground (arith, e)
blocked_conn-some fw (c ∷ conns) why =
    if-split (λ (o : Option Risk). o ≡ some why → BlocksOne fw (c ∷ conns) why)
      (reachable (verdict fw c.near.port c.peer.addr.is6 (some c.peer.addr)))
      (blocked_conn fw conns) (some (blocks_peer c.near.port c.peer.addr))
      (λ _ e.
        let (i, c', at, is, out) = blocked_conn-some fw conns why e in (suc i, c', at, is, out))
      (λ out e. (zero, c, refl, some_risk (blocks_peer c.near.port c.peer.addr) why e, out))

is_shut-shut :
    (pre fw : Status) (port : ℕ) (v6 : Bool)
    → is_shut pre fw port v6 ≡ true
    → (v6 && not (has_v6 pre) ≡ false)
      × (reachable (verdict pre port v6 none) ≡ true)
      × (reachable (verdict fw port v6 none) ≡ false)
unfolding is_shut
is_shut-shut pre fw port v6 e = ground (arith, e)

or-true : (a b : Bool) → (a || b) ≡ true → (a ≡ true) ⊎ (b ≡ true)
or-true a b e = ground (arith, e)

shuts_first :
    (pre fw : Status) (port : ℕ) (ports : List ℕ) (v6 : Bool) (why : Risk)
    → is_shut pre fw port v6 ≡ true
    → why ≡ stays_closed port
    → ShutsOne pre fw (port ∷ ports) why
shuts_first pre fw port ports v6 why e is =
    let (there, was, now) = is_shut-shut pre fw port v6 e in
    (port, v6, ground (arith, ==_refl port), is, there, was, now)

shut_port-some :
    (pre fw : Status) (ports : List ℕ) (why : Risk)
    → shut_port pre fw ports ≡ some why
    → ShutsOne pre fw ports why
unfolding shut_port
shut_port-some pre fw [] why = λ e. ground (arith, e)
shut_port-some pre fw (port ∷ ports) why =
    let shut4 = is_shut pre fw port false in
    let shut6 = is_shut pre fw port true in
    if-split (λ (o : Option Risk). o ≡ some why → ShutsOne pre fw (port ∷ ports) why)
      (shut4 || shut6) (some (stays_closed port)) (shut_port pre fw ports)
      (λ shut e.
        let is = some_risk (stays_closed port) why e in
        elim (or-true shut4 shut6 shut) [
          | inl in4 ↦ shuts_first pre fw port ports false why in4 is
          | inr in6 ↦ shuts_first pre fw port ports true why in6 is
        ])
      (λ _ e.
        let (p, v6, among, is, there, was, now) = shut_port-some pre fw ports why e in
        (p, v6, ground (arith, among), is, there, was, now))

first_risk-some :
    (a b : Option Risk) (why : Risk) → first_risk a b ≡ some why → (a ≡ some why) ⊎ (b ≡ some why)
first_risk-some none b why e = inr e
first_risk-some (some w) b why e = inl e

first_risk-none : (a b : Option Risk) → first_risk a b ≡ none → (a ≡ none) × (b ≡ none)
first_risk-none none b e = (refl, e)
first_risk-none (some why) b e = ground (arith, e)

module _ {W : Type 0} (h : Host W) where
  -- The rules can be read, every connected peer is let in, and so is every SSH port that was.
  abbrev pub Reaches : Probe → Snap → W → Type 0
  Reaches p snap w =
      let (w1, ports) = h.read_ports w in
      (manageable p ≡ true) × ConnsIn p.fw (h.conns ports w1).1 × PortsStayIn snap.fw p.fw ports

  pub lockout_risk-none :
      (p : Probe) (snap : Snap) (undone : Bool) (w : W)
      → (lockout_risk h p snap undone w).1 ≡ none
      → (undone ≡ true) × Reaches p snap w
  unfolding lockout_risk
  lockout_risk-none p snap false w = λ e. ground (arith, e)
  lockout_risk-none p snap true w =
      let (w1, ports) = h.read_ports w in
      let conns = (h.conns ports w1).1 in
      if-split (λ (r : W × Option Risk). r.1 ≡ none → (true ≡ true) × Reaches p snap w)
        (not (manageable p)) (w, some unread_rules) _ (λ _ e. ground (arith, e))
        (λ fits e.
          let (a, b) = first_risk-none (blocked_conn p.fw conns) (shut_port snap.fw p.fw ports) e in
          (
            refl,
            (
              ground (arith, fits),
              blocked_conn-none p.fw conns a,
              shut_port-none snap.fw p.fw ports b,
            ),
          ))

  -- Undoing the changes failed, the rules cannot be read, a connected peer is shut out, or a port is.
  abbrev pub AtRisk : Probe → Snap → Bool → W → Risk → Type 0
  AtRisk p snap undone w why =
      let (w1, ports) = h.read_ports w in
      ((why ≡ undo_failed) × (undone ≡ false))
      ⊎ ((why ≡ unread_rules) × (manageable p ≡ false)
          ⊎ (BlocksOne p.fw (h.conns ports w1).1 why ⊎ ShutsOne snap.fw p.fw ports why))

  pub lockout_risk-some :
      (p : Probe) (snap : Snap) (undone : Bool) (w : W) (why : Risk)
      → (lockout_risk h p snap undone w).1 ≡ some why
      → AtRisk p snap undone w why
  unfolding lockout_risk
  lockout_risk-some p snap false w why = λ e. inl (some_risk undo_failed why e, refl)
  lockout_risk-some p snap true w why =
      let (w1, ports) = h.read_ports w in
      let conns = (h.conns ports w1).1 in
      if-split (λ (r : W × Option Risk). r.1 ≡ some why → AtRisk p snap true w why)
        (not (manageable p)) (w, some unread_rules) _
        (λ unread e. inr (inl (some_risk unread_rules why e, ground (arith, unread))))
        (λ _ e.
          elim (first_risk-some (blocked_conn p.fw conns) (shut_port snap.fw p.fw ports) why e) [
            | inl blocks ↦ inr (inr (inl (blocked_conn-some p.fw conns why blocks)))
            | inr shuts ↦ inr (inr (inr (shut_port-some snap.fw p.fw ports why shuts)))
          ])
