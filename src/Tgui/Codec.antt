-- ===== src/Tgui/Codec.antt =====
-- internal/tgui/codec.go: the callback data format. Strings are their bytes, and a `nil` slice of
-- arguments is the empty list.
pub mod Canonical
pub mod RoundTrip
mod Examples
use statixagent.Prelude.{
  ℕ, ◌≡◌, refl, ◌⊎◌, inl, inr, Bool, true, false, not, ◌&&◌, ◌||◌, List, [], ◌∷◌, ◌++◌, Option,
  none, some, ◌==◌, nat_eq, str_eq, length, ltb, leb, if◌then◌else◌,
}
use statixagent.Prelude.Text.{Str, codes, cut_prefix, cut, split, has_byte}

abbrev pub prefix : Str
prefix = codes "~1"

abbrev pub max_data : ℕ
max_data = 64

pub record Call : Type 0 where
  pub act : Str
  pub args : List Str
  pub from : Str

pub data CodecError : Type 0 where
  too_long malformed : CodecError

pub data Result {ℓ} (A : Type ℓ) : Type ℓ where
  ok : A → Result A
  err : CodecError → Result A

pub Result-cases {ℓ} :
    {A : Type ℓ} (r : Result A) → ((a : A) × (r ≡ ok a)) ⊎ ((e : CodecError) × (r ≡ err e))
Result-cases (ok a) = inl (a, refl)
Result-cases (err e) = inr (e, refl)

-- `IsCall`
unfoldable pub is_call : Str → Bool
is_call [] = false
is_call (c ∷ s) = c == b'~'

abbrev is_lower : ℕ → Bool
is_lower c = not (ltb c b'a' || ltb b'z' c)

unfoldable pub all_lower : Str → Bool
all_lower [] = true
all_lower (c ∷ s) = is_lower c && all_lower s

unfoldable pub valid_id : Str → Bool
unfolding all_lower
valid_id s = if ltb (length s) 1 || ltb 3 (length s) then false else all_lower s

unfoldable pub is_arg_byte : ℕ → Bool
unfolding has_byte
is_arg_byte c =
    leb b'a' c && leb c b'z'
    || leb b'A' c && leb c b'Z'
    || leb b'0' c && leb c b'9'
    || has_byte (codes "._:/*-") c

unfoldable pub all_arg_bytes : Str → Bool
unfolding is_arg_byte
all_arg_bytes [] = true
all_arg_bytes (c ∷ s) = is_arg_byte c && all_arg_bytes s

unfoldable pub valid_arg : Str → Bool
unfolding all_arg_bytes
valid_arg s = if s == [] then false else all_arg_bytes s

-- the loop of `Encode` over the arguments, writing to the builder
unfoldable pub write_args : List Str → Str → Result Str
write_args [] b = ok b
write_args (arg ∷ args) b =
    let rest = write_args args (b ++ b'|' ∷ arg) in
    if not (valid_arg arg) then err malformed else rest

write_from : Str → Str → Str
write_from from b = if not (from == []) then b ++ b'^' ∷ from else b

check_size : Str → Result Str
check_size b = if ltb max_data (length b) then err too_long else ok b

finish : Str → Result Str → Result Str
unfolding write_from check_size
finish from (ok b) = check_size (write_from from b)
finish from (err e) = err e

unfoldable pub encode : Call → Result Str
unfolding finish write_args
encode c =
    if not (valid_id c.act)
    then err malformed
    else if not (c.from == []) && not (valid_id c.from)
    then err malformed
    else finish c.from (write_args c.args (prefix ++ c.act))

-- the loop of `Decode` over the arguments
unfoldable pub all_valid_args : List Str → Bool
all_valid_args [] = true
all_valid_args (arg ∷ args) = valid_arg arg && all_valid_args args

decode_rest : Str → Result Call
unfolding all_valid_args
decode_rest data_rest =
    let (rest, from, found) = cut data_rest b'^' in
    if found && not (valid_id from)
    then err malformed
    else (let (act, args) = split rest b'|' in
        if not (valid_id act)
        then err malformed
        else if not (all_valid_args args)
        then err malformed
        else ok (record { act = act; args = args; from = from }))

decode_prefixed : Option Str → Result Call
unfolding decode_rest
decode_prefixed none = err malformed
decode_prefixed (some rest) = decode_rest rest

unfoldable pub decode : Str → Result Call
unfolding decode_prefixed
decode input =
    if ltb max_data (length input) then err too_long else decode_prefixed (cut_prefix input prefix)
