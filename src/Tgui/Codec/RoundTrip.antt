-- ===== src/Tgui/Codec/RoundTrip.antt =====
-- The calls that can be encoded, their text, and the two round trips.
use mathlib.Core.List.{append_assoc, append-nil}
use mathlib.Core.Path.{subst}
use statixagent.Prelude.{
  ◌≤◌, ◌≡◌, refl, ◌∙◌, sym, ap, ◌⊎◌, inl, inr, ◌↔◌, Bool, true, false, some, List, [], ◌∷◌, ◌++◌,
  length, str_eq, nat_eq, ◌==◌, ==_iff, Option-cases, arith, not, ◌&&◌,
}
use statixagent.Prelude.Text.{Str, cut_prefix, cut, split}
use statixagent.Tgui.Codec.{
  Call, Result-cases, ok, prefix, max_data, valid_id, all_valid_args, write_args, write_from,
  check_size, finish, encode, decode_rest, decode_prefixed, decode,
}
use statixagent.Prelude.Cuts.{Free-append, cut-Free, cut_at}
use statixagent.Tgui.Codec.Canonical.{
  args_text, valid_id-Free, args_text-Free, split-args_text, join-split, JoinsTo, join-cut,
  write_args_valid, write_args_ok,
}

abbrev from_text : Str → Str
from_text [] = []
from_text (c ∷ from) = b'^' ∷ c ∷ from

-- The text of a call after the prefix, and all of it.
abbrev body : Call → Str
body c = c.act ++ args_text c.args

abbrev pub text : Call → Str
text c = (prefix ++ c.act) ++ args_text c.args ++ from_text c.from

-- What a call has to be to have a text.
pub record IsCanonical (c : Call) : Type 0 where
  pub act_valid : valid_id c.act ≡ true
  pub args_valid : all_valid_args c.args ≡ true
  pub from_valid : (c.from ≡ []) ⊎ (valid_id c.from ≡ true)
  pub fits : length (text c) ≤ max_data

write_from-text : (b from : Str) → write_from from b ≡ b ++ from_text from
unfolding write_from
write_from-text b [] = sym (append-nil b)
write_from-text b (c ∷ from) = refl

encode_canonical : (c : Call) → IsCanonical c → encode c ≡ ok (text c)
unfolding encode finish check_size
encode_canonical c h =
    let written = write_args_valid c.args (prefix ++ c.act) h.args_valid in
    ground (
      arith,
      written,
      write_from-text ((prefix ++ c.act) ++ args_text c.args) c.from,
      append_assoc (prefix ++ c.act) (args_text c.args) (from_text c.from),
      ==_iff c.from [],
    )

-- What `Encode` does once the arguments are written.
written-IsCanonical :
    (c : Call) (s b : Str)
    → write_args c.args (prefix ++ c.act) ≡ ok b
    → encode c ≡ ok s
    → IsCanonical c × (s ≡ text c)
unfolding encode finish check_size
written-IsCanonical c s b w h =
    let (args, b') = write_args_ok c.args (prefix ++ c.act) b w in
    let whole : s ≡ text c = ground (
      arith,
      write_from-text b c.from,
      append_assoc (prefix ++ c.act) (args_text c.args) (from_text c.from),
    ) in
    (
      record {
        act_valid = ground arith;
        args_valid = args;
        from_valid = ground (arith, ==_iff c.from []);
        fits = subst (λ t. length t ≤ max_data) whole (ground arith);
      },
      whole,
    )

pub encode-IsCanonical : (c : Call) (s : Str) → encode c ≡ ok s → IsCanonical c × (s ≡ text c)
encode-IsCanonical c s h = elim (Result-cases (write_args c.args (prefix ++ c.act))) [
  | inl (b, w) ↦ written-IsCanonical c s b w h
  | inr (e, w) ↦ absurd (unfold encode finish in ground arith)
]

cut-body :
    (act : Str) (args : List Str) (from : Str)
    → valid_id act ≡ true
    → all_valid_args args ≡ true
    → (from ≡ []) ⊎ (valid_id from ≡ true)
    → cut (act ++ args_text args ++ from_text from) b'^'
      ≡ (act ++ args_text args, from, not (from == []))
cut-body act args [] a v f = rw (append-nil (act ++ args_text args)) (
    cut-Free b'^' _
      (Free-append b'^' act _ (valid_id-Free b'^' act (inr refl) a) (args_text-Free args v)))
cut-body act args (c ∷ from) a v f =
    cut_at b'^' _ _
      (Free-append b'^' act _ (valid_id-Free b'^' act (inr refl) a) (args_text-Free args v))

cut_prefix-prefix : (s : Str) → cut_prefix (prefix ++ s) prefix ≡ some s
unfolding cut_prefix
cut_prefix-prefix s = refl

decode_canonical : (c : Call) → IsCanonical c → decode (text c) ≡ ok c
unfolding decode decode_prefixed decode_rest
decode_canonical c h = ground (
  arith,
  cut_prefix-prefix (c.act ++ args_text c.args ++ from_text c.from),
  cut-body c.act c.args c.from h.act_valid h.args_valid h.from_valid,
  split-args_text c.act c.args (valid_id-Free b'|' c.act (inl refl) h.act_valid) h.args_valid,
  ==_iff c.from [],
)

cut_prefix-some : (s rest : Str) → cut_prefix s prefix ≡ some rest → s ≡ prefix ++ rest
unfolding cut_prefix
cut_prefix-some [] rest h = cc
cut_prefix-some (a ∷ []) rest h = ground arith
cut_prefix-some (a ∷ b ∷ s) rest h = ground arith

-- The rest of the text, from what `cut` and `split` found.
text_of_parts :
    (rest x act : Str) (args : List Str) (from : Str) (found : Bool)
    → JoinsTo rest (x, from, found)
    → (found && not (valid_id from)) ≡ false
    → split x b'|' ≡ (act, args)
    → (rest ≡ act ++ args_text args ++ from_text from) × ((from ≡ []) ⊎ (valid_id from ≡ true))
unfolding valid_id
text_of_parts rest x act args [] true j v p = absurd (cc)
text_of_parts rest x act args (c ∷ from) true j v p = (
  j ∙ ap (λ b. b ++ b'^' ∷ c ∷ from) (sym (join-split x) ∙ ap (λ r. r.0 ++ args_text r.1) p),
  inr (ground arith),
)
text_of_parts rest x act args [] false j v p = (
  j.0
      ∙ sym (join-split x)
      ∙ ap (λ r. r.0 ++ args_text r.1) p
      ∙ sym (append-nil (act ++ args_text args)),
  inl refl,
)
text_of_parts rest x act args (c ∷ from) false j v p = absurd (cc (j.1))

decode_rest_parts :
    (rest : Str) (c : Call)
    → decode_rest rest ≡ ok c
    → let (x, from, found) = cut rest b'^' in
      (from ≡ c.from)
      × (split x b'|' ≡ (c.act, c.args))
      × ((found && not (valid_id from)) ≡ false)
      × (valid_id c.act ≡ true)
      × (all_valid_args c.args ≡ true)
unfolding decode_rest
decode_rest_parts rest c h = ground arith

pub decode-IsCanonical : (c : Call) (s : Str) → decode s ≡ ok c → IsCanonical c × (s ≡ text c)
decode-IsCanonical c s h = elim (Option-cases (cut_prefix s prefix)) [
  | inl absent ↦ absurd (unfold decode decode_prefixed in ground arith)
  | inr (rest, p) ↦
      let whole = cut_prefix-some s rest p in
      let (f, ps, v, a, args) =
        decode_rest_parts rest c (unfold decode decode_prefixed in ground arith) in
      let (x, from, found) = cut rest b'^' in
      let joins = subst (λ g. JoinsTo rest (x, g, found)) f (join-cut rest) in
      let (body_eq, from_ok) =
        text_of_parts rest x c.act c.args c.from found joins
          (subst (λ g. (found && not (valid_id g)) ≡ false) f v) ps in
      let all : s ≡ text c = whole ∙ ap (λ r. prefix ++ r) body_eq in
      (
        record {
          act_valid = a;
          args_valid = args;
          from_valid = from_ok;
          fits = subst (λ t. length t ≤ max_data) all (unfold decode in ground arith);
        },
        all,
      )
]

-- A call is encoded exactly if its act is one to three lowercase letters, its Back target is absent or
-- is such too, its arguments are not empty and of the argument bytes, and its text has at most 64 bytes.
-- What is returned is that text: the prefix, the act, each argument after `|`, the target after `^`.
encode_iff : (c : Call) (s : Str) → (encode c ≡ ok s) ↔ (IsCanonical c × (s ≡ text c))
encode_iff c s = (encode-IsCanonical c s, λ h. encode_canonical c h.0 ∙ ap ok (sym h.1))

-- Whatever is encoded decodes to the call that it came from.
pub decode-encode : (c : Call) (s : Str) → encode c ≡ ok s → decode s ≡ ok c
decode-encode c s h =
    let (canonical, t) = encode-IsCanonical c s h in ap decode t ∙ decode_canonical c canonical

-- Only canonical data is accepted: a call that was decoded encodes back to exactly the same data, so it
-- is within 64 bytes, and no two texts decode to one call.
pub encode-decode : (s : Str) (c : Call) → decode s ≡ ok c → encode c ≡ ok s
encode-decode s c h =
    let (canonical, t) = decode-IsCanonical c s h in encode_canonical c canonical ∙ ap ok (sym t)
