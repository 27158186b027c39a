-- ===== src/Firewall/Rules/Deciding.antt =====
-- The first rule that decides, and what it decides.
use statixagent.Prelude.{
  ℕ, ◌≡◌, refl, ◌⊎◌, inl, inr, Bool, true, false, not, ◌&&◌, Option, none, some, nat_eq, bool_eq,
  str_eq, arith, if◌then◌else◌,
}
use statixagent.Netip.{Addr}
use statixagent.Firewall.Rules.{
  Rule, PortState, fw_open, fw_closed, fw_unmanaged, covers_port, is_aside, is_other_source,
  is_restricted, lets_in, Look, passes, doubts, narrows, settles, look,
}

-- The rule is about new incoming TCP connections to the port in the family, and leaves open neither
-- what its ports are nor, for this peer, whether it matches.
unfoldable pub decides : ℕ → Bool → Option Addr → Rule → Bool
decides port v6 peer r =
    not (is_aside r v6)
    && not r.unresolved
    && covers_port r port
    && not (is_other_source r.from peer)
    && not (is_restricted r peer)

abbrev pub decision : Option Rule → PortState
decision none = fw_unmanaged
decision (some r) = if lets_in r then fw_open else fw_closed

abbrev pub is_settles : Look → Bool
is_settles settles = true
is_settles _ = false

pub Look-cases : (l : Look) → (l ≡ passes) ⊎ (l ≡ doubts) ⊎ (l ≡ narrows) ⊎ (l ≡ settles)
Look-cases passes = inl refl
Look-cases doubts = inr (inl refl)
Look-cases narrows = inr (inr (inl refl))
Look-cases settles = inr (inr (inr refl))

pub decides-look :
    (port : ℕ) (v6 : Bool) (peer : Option Addr) (r : Rule)
    → decides port v6 peer r ≡ is_settles (look port v6 peer r)
unfolding look decides
decides-look port v6 peer r = ground arith
