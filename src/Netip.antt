-- ===== src/Netip.antt =====
-- Package net/netip, as far as the agent uses it: addresses and prefixes by their numbers. The zero
-- `Addr` and the zero `Prefix` are `none`. Reading and printing addresses is an interface.
use statixagent.Prelude.{
  ℕ, ◌+◌, ◌-◌, ◌*◌, ◌/◌, ◌%◌, ◌^◌, ◌≡◌, ◌↔◌, Bool, true, false, ◌&&◌, ◌||◌, Option, none, some, [],
  Comparable, ◌==◌, nat_eq, bool_eq, str_eq, ==_iff, arith, if◌then◌else◌,
}
use statixagent.Prelude.Text.{Str}

pub record Addr : Type 0 where
  pub is6 : Bool
  pub value : ℕ
  pub zone : Str

pub record Prefix : Type 0 where
  pub addr : Addr
  pub bits : ℕ

abbrev pub addr_beq : Addr → Addr → Bool
addr_beq a b = a.is6 == b.is6 && a.value == b.value && a.zone == b.zone

pub addr_beq_iff : (a b : Addr) → (addr_beq a b ≡ true) ↔ (a ≡ b)
addr_beq_iff a b = ground (arith, ==_iff a.is6 b.is6, ==_iff a.value b.value, ==_iff a.zone b.zone)

instance abbrev pub addr_eq : Comparable Addr
addr_eq = record { same = addr_beq; same_iff = addr_beq_iff }

abbrev pub prefix_beq : Prefix → Prefix → Bool
prefix_beq p q = addr_beq p.addr q.addr && p.bits == q.bits

pub prefix_beq_iff : (p q : Prefix) → (prefix_beq p q ≡ true) ↔ (p ≡ q)
prefix_beq_iff p q = ground (arith, addr_beq_iff p.addr q.addr, ==_iff p.bits q.bits)

instance abbrev pub prefix_eq : Comparable Prefix
prefix_eq = record { same = prefix_beq; same_iff = prefix_beq_iff }

abbrev pub source_beq : Option Prefix → Option Prefix → Bool
source_beq none none = true
source_beq none (some q) = false
source_beq (some p) none = false
source_beq (some p) (some q) = prefix_beq p q

pub source_beq_iff : (p q : Option Prefix) → (source_beq p q ≡ true) ↔ (p ≡ q)
source_beq_iff none none = ground arith
source_beq_iff none (some q) = ground arith
source_beq_iff (some p) none = ground arith
source_beq_iff (some p) (some q) = ground (arith, prefix_beq_iff p q)

instance abbrev pub source_eq : Comparable (Option Prefix)
source_eq = record { same = source_beq; same_iff = source_beq_iff }

abbrev pub bit_len : Addr → ℕ
bit_len a = if a.is6 then 128 else 32

-- IPv4-mapped: ::ffff:a.b.c.d
abbrev pub is_4in6 : Addr → Bool
is_4in6 a = a.is6 && a.value / 2 ^ 32 == 0xFFFF

unfoldable pub unmap : Addr → Addr
unmap a = if is_4in6 a then record { is6 = false; value = a.value % 2 ^ 32; zone = [] } else a

abbrev pub single : Addr → Prefix
single a = record { addr = a; bits = bit_len a }

abbrev pub is_single_ip : Prefix → Bool
is_single_ip p = p.bits == bit_len p.addr

abbrev pub host_size : Prefix → ℕ
host_size p = 2 ^ (bit_len p.addr - p.bits)

unfoldable pub masked : Prefix → Prefix
masked p = record p {
  addr = record { is6 = p.addr.is6; value = p.addr.value / host_size p * host_size p; zone = [] };
}

-- `Contains`: an address with a zone, or of the other family, is in no prefix.
unfoldable pub holds_addr : Prefix → Addr → Bool
holds_addr p a =
    a.zone == [] && a.is6 == p.addr.is6 && a.value / host_size p == p.addr.value / host_size p

abbrev is_loopback : Addr → Bool
is_loopback a = if a.is6 then a.value == 1 else a.value / 2 ^ 24 == 127

abbrev is_link_local_unicast : Addr → Bool
is_link_local_unicast a =
    if a.is6 then a.value / 2 ^ 118 == 0xFE80 / 2 ^ 6 else a.value / 2 ^ 16 == 169 * 256 + 254

abbrev is_multicast : Addr → Bool
is_multicast a = if a.is6 then a.value / 2 ^ 120 == 0xFF else a.value / 2 ^ 28 == 14

-- Loopback, link-local, multicast or unspecified, of an address that is not IPv4-mapped; a link-local
-- multicast address is a multicast one.
abbrev pub is_special : Addr → Bool
is_special a = is_loopback a || is_link_local_unicast a || is_multicast a || a.value == 0

pub record NetText : Type 0 where
  pub parse_addr : Str → Option Addr
  pub parse_prefix : Str → Option Prefix
  pub addr_text : Addr → Str
  pub prefix_text : Prefix → Str
