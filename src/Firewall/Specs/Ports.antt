-- ===== src/Firewall/Specs/Ports.antt =====
-- Printed ports are read back.
use statixagent.Prelude.{
  ℕ, ◌≤◌, ◌≡◌, ◌≢◌, refl, ◌∙◌, sym, ap, inl, inr, Bool, true, false, not, ◌&&◌, some, [], ◌∷◌, ◌++◌,
  ◌==◌, nat_eq, str_eq, ==_iff, Bool-cases, arith,
}
use mathlib.Core.Path.{subst}
use statixagent.Prelude.Int.{pos}
use statixagent.Prelude.Text.{Str, codes, cut, split}
use statixagent.Prelude.Cuts.{Free, cut-Free, cut_at, Free-append}
use statixagent.Prelude.Decimal.{
  itoa, is_digit, all_digits, all_digits-itoa, itoa-ne-nil, atoi-itoa,
}
use statixagent.Firewall.Rules.{PortRange}
use statixagent.Firewall.Rows.{max_port, range_of, port_item, port_items, parse_port_spec}
use statixagent.Firewall.Ports.{port_text, with_slash}
use statixagent.Firewall.Ports.Canonical.{IsProto}

-- A byte that is no digit is not in a text of digits.
Free-digits : (sep : ℕ) (s : Str) → is_digit sep ≡ false → all_digits s ≡ true → Free sep s
Free-digits sep [] n h = tt
Free-digits sep (c ∷ s) n h = (ground (arith, ==_iff c sep), Free-digits sep s n (ground arith))

-- Ports from 1 to 65535, in order.
pub record InPorts (p : PortRange) : Type 0 where
  pub at_least : 1 ≤ p.lo
  pub ordered : p.lo ≤ p.hi
  pub at_most : p.hi ≤ max_port

Free-port_text :
    (sep : ℕ) (p : PortRange)
    → is_digit sep ≡ false
    → (b':' == sep) ≡ false
    → Free sep (port_text p)
unfolding port_text
Free-port_text sep p n colon = elim (Bool-cases (p.hi == p.lo)) [
  | inl same ↦ rw (port_text, same) (Free-digits sep (itoa p.lo) n (all_digits-itoa p.lo))
  | inr other ↦
      rw (port_text, other)
        (Free-append sep (itoa p.lo) (b':' ∷ itoa p.hi)
          (Free-digits sep (itoa p.lo) n (all_digits-itoa p.lo))
          (colon, Free-digits sep (itoa p.hi) n (all_digits-itoa p.hi)))
]

range_of-ports :
    (a b : ℕ)
    → 1 ≤ a
    → a ≤ b
    → b ≤ max_port
    → range_of (some (pos a)) (some (pos b)) ≡ some (record { lo = a; hi = b })
range_of-ports a b h k l = ground arith

port_item-port_text : (p : PortRange) → InPorts p → port_item (port_text p) ≡ some p
unfolding port_text port_item
port_item-port_text p h =
    let free = Free-digits b':' (itoa p.lo) refl (all_digits-itoa p.lo) in
    let low = atoi-itoa p.lo (omega (arith, h.at_most, h.ordered)) in
    let high = atoi-itoa p.hi (omega (arith, h.at_most)) in
    elim (Bool-cases (p.hi == p.lo)) [
      | inl same ↦
          let e = (==_iff p.hi p.lo).0 same in
          rw (port_text, same, port_item, cut-Free b':' (itoa p.lo) free, low)
            (range_of-ports p.lo p.lo h.at_least (omega arith) (omega (arith, h.at_most, h.ordered))
              ∙ ap (λ x. some (record { lo = p.lo; hi = x })) (sym e))
      | inr other ↦
          rw (port_text, other, port_item, cut_at b':' (itoa p.lo) (itoa p.hi) free, low, high)
            (range_of-ports p.lo p.hi h.at_least h.ordered h.at_most)
    ]

split-whole : (sep : ℕ) (s : Str) → Free sep s → split s sep ≡ (s, [])
unfolding split
split-whole sep [] f = refl
split-whole sep (c ∷ s) f = ground (arith, split-whole sep s f.1)

-- The list of ports and the protocol, as the slash parts them.
cut-with_slash :
    (t proto : Str)
    → Free b'/' t
    → IsProto proto
    → ((cut (with_slash t proto) b'/').0 ≡ t) × ((cut (with_slash t proto) b'/').1 ≡ proto)
cut-with_slash t proto f (inl bare) =
    subst (λ q. ((cut (with_slash t q) b'/').0 ≡ t) × ((cut (with_slash t q) b'/').1 ≡ q))
      (sym bare) (rw (cut-Free b'/' t f) (refl, refl))
cut-with_slash t proto f (inr (inl tcp)) =
    subst (λ q. ((cut (with_slash t q) b'/').0 ≡ t) × ((cut (with_slash t q) b'/').1 ≡ q)) (sym tcp)
      (rw (cut_at b'/' t (codes "tcp") f) (refl, refl))
cut-with_slash t proto f (inr (inr udp)) =
    subst (λ q. ((cut (with_slash t q) b'/').0 ≡ t) × ((cut (with_slash t q) b'/').1 ≡ q)) (sym udp)
      (rw (cut_at b'/' t (codes "udp") f) (refl, refl))

is_known : Str → Bool
is_known proto = not (proto == []) && not (proto == codes "tcp") && not (proto == codes "udp")

IsProto-known : (proto : Str) → IsProto proto → is_known proto ≡ false
unfolding is_known
IsProto-known proto (inl bare) = rw bare refl
IsProto-known proto (inr (inl tcp)) = rw tcp refl
IsProto-known proto (inr (inr udp)) = rw udp refl

port_items-single :
    (t : Str) (p : PortRange) → port_item t ≡ some p → port_items (t ∷ []) ≡ some (p ∷ [])
unfolding port_items
port_items-single t p h = rw (port_items, h) refl

-- The ports that are printed with a protocol are read back.
pub parse_port_spec-with_slash :
    (p : PortRange) (proto : Str)
    → InPorts p
    → IsProto proto
    → parse_port_spec (with_slash (port_text p) proto) ≡ some (p ∷ [], proto)
unfolding parse_port_spec is_known
parse_port_spec-with_slash p proto h i =
    let parts = cut-with_slash (port_text p) proto (Free-port_text b'/' p refl refl) i in
    rw
      (
        parse_port_spec,
        parts.0,
        parts.1,
        IsProto-known proto i,
        split-whole b',' (port_text p) (Free-port_text b',' p refl refl),
        port_items-single (port_text p) p (port_item-port_text p h),
      )
      refl

-- What is printed begins with a digit.
abbrev pub StartsWithDigit : Str → Type 0
StartsWithDigit s = (c : ℕ) × (rest : Str) × (s ≡ c ∷ rest) × (is_digit c ≡ true)

itoa-StartsWithDigit : (s : Str) → s ≢ [] → all_digits s ≡ true → StartsWithDigit s
itoa-StartsWithDigit [] n d = absurd (n refl)
itoa-StartsWithDigit (c ∷ s) n d = (c, s, refl, ground arith)

append-StartsWithDigit : (s t : Str) → StartsWithDigit s → StartsWithDigit (s ++ t)
append-StartsWithDigit s t (c, rest, e, d) = (c, rest ++ t, ap (λ x. x ++ t) e, d)

pub port_text-StartsWithDigit : (p : PortRange) → StartsWithDigit (port_text p)
unfolding port_text
port_text-StartsWithDigit p =
    let first = itoa-StartsWithDigit (itoa p.lo) (itoa-ne-nil p.lo) (all_digits-itoa p.lo) in
    elim (Bool-cases (p.hi == p.lo)) [
      | inl same ↦ rw (port_text, same) first
      | inr other ↦
          rw (port_text, other) (append-StartsWithDigit (itoa p.lo) (b':' ∷ itoa p.hi) first)
    ]

pub with_slash-StartsWithDigit :
    (s proto : Str) → StartsWithDigit s → StartsWithDigit (with_slash s proto)
with_slash-StartsWithDigit s proto d = elim (Bool-cases (proto == [])) [
  | inl bare ↦ rw (with_slash, bare) d
  | inr given ↦ rw (with_slash, given) (append-StartsWithDigit s (b'/' ∷ proto) d)
]
