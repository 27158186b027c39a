-- ===== src/Prelude/Decimal.antt =====
-- `strconv.Itoa` of what is not negative, and `strconv.Atoi` on a machine with 64-bit integers.
use Prim.Native.Nat.{ℕ, zero, suc, ◌+◌, ◌-◌, ◌*◌, ◌/◌, ◌%◌, ◌^◌, ◌≤◌, ◌<◌}
use mathlib.Core.Path.{◌≡◌, refl, ◌∙◌}
use mathlib.Core.Logic.{◌≢◌}
use mathlib.Core.Bool.{Bool, true, ◌&&◌}
use mathlib.Core.Option.{Option, none, some}
use mathlib.Core.List.{[], ◌∷◌}
use native.Mathlib.Omega.{arith}
use statixagent.Prelude.Tests.{ltb, leb, if◌then◌else◌}
use statixagent.Prelude.Eq.{◌==◌, nat_eq, ==_iff}
use statixagent.Prelude.Int.{ℤ, pos, negsuc}
use statixagent.Prelude.Text.{Str}

-- The digits of `n` before `out`. Each round divides by ten, so `n + 1` rounds are enough.
unfoldable pub write_digits : ℕ → ℕ → Str → Str
write_digits zero n out = out
write_digits (suc rounds) n out =
    let last = b'0' + n % 10 in
    let rest = write_digits rounds (n / 10) (last ∷ out) in if ltb n 10 then last ∷ out else rest

unfoldable pub itoa : ℕ → Str
unfolding write_digits
itoa n = write_digits (suc n) n []

abbrev pub is_digit : ℕ → Bool
is_digit c = leb b'0' c && leb c b'9'

unfoldable pub read_digits : Str → ℕ → Option ℕ
read_digits [] n = some n
read_digits (c ∷ s) n =
    let rest = read_digits s (n * 10 + (c - b'0')) in if is_digit c then rest else none

unfoldable pub read_some_digits : Str → Option ℕ
unfolding read_digits
read_some_digits [] = none
read_some_digits (c ∷ s) = read_digits (c ∷ s) 0

abbrev pub max_int : ℕ
max_int = 2 ^ 63 - 1

abbrev pub in_range : Option ℕ → Option ℤ
in_range none = none
in_range (some n) = if ltb max_int n then none else some (pos n)

abbrev pub negated : Option ℕ → Option ℤ
negated none = none
negated (some zero) = some (pos 0)
negated (some (suc n)) = if ltb max_int n then none else some (negsuc n)

unfoldable pub atoi : Str → Option ℤ
unfolding read_some_digits
atoi [] = none
atoi (c ∷ s) =
    if c == b'-'
    then negated (read_some_digits s)
    else if c == b'+'
    then in_range (read_some_digits s)
    else in_range (read_some_digits (c ∷ s))

read_digits-write_digits :
    (rounds n : ℕ) (out : Str)
    → n < rounds
    → read_digits (write_digits rounds n out) 0 ≡ read_digits out n
unfolding read_digits write_digits
read_digits-write_digits zero n out h = absurd (omega arith)
read_digits-write_digits (suc rounds) n out h =
    ground (arith, read_digits-write_digits rounds (n / 10) ((b'0' + n % 10) ∷ out))

-- A text of digits alone that is not empty.
abbrev pub all_digits : Str → Bool
all_digits [] = true
all_digits (c ∷ s) = is_digit c && all_digits s

all_digits-write_digits :
    (rounds n : ℕ) (out : Str)
    → all_digits out ≡ true
    → all_digits (write_digits rounds n out) ≡ true
unfolding write_digits
all_digits-write_digits zero n out h = h
all_digits-write_digits (suc rounds) n out h =
    ground (arith, all_digits-write_digits rounds (n / 10) ((b'0' + n % 10) ∷ out))

pub all_digits-itoa : (n : ℕ) → all_digits (itoa n) ≡ true
unfolding itoa
all_digits-itoa n = all_digits-write_digits (suc n) n [] refl

write_digits-ne-nil : (rounds n : ℕ) (c : ℕ) (out : Str) → write_digits rounds n (c ∷ out) ≢ []
unfolding write_digits
write_digits-ne-nil zero n c out = λ e. cc
write_digits-ne-nil (suc rounds) n c out =
    ground (arith, write_digits-ne-nil rounds (n / 10) (b'0' + n % 10) (c ∷ out))

pub itoa-ne-nil : (n : ℕ) → itoa n ≢ []
unfolding itoa write_digits
itoa-ne-nil n = ground (arith, write_digits-ne-nil n (n / 10) (b'0' + n % 10) [])

read_some_digits_lem : (s : Str) → s ≢ [] → read_some_digits s ≡ read_digits s 0
unfolding read_some_digits
read_some_digits_lem [] h = absurd (h refl)
read_some_digits_lem (c ∷ s) h = refl

atoi-digits : (s : Str) → all_digits s ≡ true → s ≢ [] → atoi s ≡ in_range (read_digits s 0)
unfolding atoi read_some_digits
atoi-digits [] d h = absurd (h refl)
atoi-digits (c ∷ s) d h = ground (arith, ==_iff c b'-', ==_iff c b'+')

-- A number that fits is read back from its print.
pub atoi-itoa : (n : ℕ) → n ≤ max_int → atoi (itoa n) ≡ some (pos n)
unfolding itoa
atoi-itoa n h =
    atoi-digits (itoa n) (all_digits-itoa n) (itoa-ne-nil n)
    ∙ (rw (read_digits-write_digits (suc n) n [] (omega arith))
        (unfold read_digits in ground arith))
