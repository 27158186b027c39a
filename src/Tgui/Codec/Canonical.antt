-- ===== src/Tgui/Codec/Canonical.antt =====
-- Encoding and decoding are inverse to one another.
use mathlib.Core.List.{append-nil, append_assoc}
use statixagent.Prelude.{
  ℕ, ◌∙◌, sym, ap, ◌≡◌, refl, ◌⊎◌, inl, inr, Bool, true, false, List, [], ◌∷◌, ◌++◌, ◌==◌, nat_eq,
  str_eq, ==_iff, Bool-cases, if◌then◌else◌, arith,
}
use statixagent.Prelude.Text.{Str, cut, split}
use statixagent.Prelude.Cuts.{Free, Free-append, split-Free}
use statixagent.Tgui.Codec.{
  ok, valid_id, valid_arg, all_lower, all_arg_bytes, is_arg_byte, write_args, all_valid_args,
}

unfoldable pub args_text : List Str → Str
args_text [] = []
args_text (arg ∷ args) = b'|' ∷ arg ++ args_text args

-- The bytes that separate the parts are not among those of identifiers and arguments.
abbrev pub IsSeparator : ℕ → Type 0
IsSeparator sep = (sep ≡ b'|') ⊎ (sep ≡ b'^')

all_lower-Free : (sep : ℕ) (s : Str) → IsSeparator sep → all_lower s ≡ true → Free sep s
unfolding all_lower
all_lower-Free sep [] i l = tt
all_lower-Free sep (c ∷ s) i l = (ground arith, all_lower-Free sep s i (ground arith))

pub valid_id-Free : (sep : ℕ) (s : Str) → IsSeparator sep → valid_id s ≡ true → Free sep s
unfolding valid_id
valid_id-Free sep s i v = all_lower-Free sep s i (ground arith)

is_arg_byte-ne : (sep c : ℕ) → IsSeparator sep → is_arg_byte c ≡ true → (c == sep) ≡ false
unfolding is_arg_byte
is_arg_byte-ne sep c i h = ground arith

all_arg_bytes-Free : (sep : ℕ) (s : Str) → IsSeparator sep → all_arg_bytes s ≡ true → Free sep s
unfolding all_arg_bytes
all_arg_bytes-Free sep [] i h = tt
all_arg_bytes-Free sep (c ∷ s) i h =
    (is_arg_byte-ne sep c i (ground arith), all_arg_bytes-Free sep s i (ground arith))

valid_arg-Free : (sep : ℕ) (s : Str) → IsSeparator sep → valid_arg s ≡ true → Free sep s
unfolding valid_arg
valid_arg-Free sep s i h = all_arg_bytes-Free sep s i (ground arith)

pub args_text-Free : (args : List Str) → all_valid_args args ≡ true → Free b'^' (args_text args)
unfolding args_text all_valid_args
args_text-Free [] v = tt
args_text-Free (arg ∷ args) v = (
  refl,
  Free-append b'^' arg _ (valid_arg-Free b'^' arg (inr refl) (ground arith))
      (args_text-Free args (ground arith)),
)

split-bar :
    (act s : Str)
    → ◌≡◌ {A = Str × List Str}
        (act ++ (split (b'|' ∷ s) b'|').0, (split (b'|' ∷ s) b'|').1)
        (act, (split s b'|').0 ∷ (split s b'|').1)
unfolding split
split-bar act s = ap (λ l. (l, (split s b'|').0 ∷ (split s b'|').1)) (append-nil act)

pub split-args_text :
    (act : Str) (args : List Str)
    → Free b'|' act
    → all_valid_args args ≡ true
    → split (act ++ args_text args) b'|' ≡ (act, args)
unfolding args_text all_valid_args
split-args_text act [] f v =
    split-Free b'|' act [] f ∙ unfold split in ap (λ l. (l, [])) (append-nil act)
split-args_text act (arg ∷ args) f v =
    split-Free b'|' act (b'|' ∷ arg ++ args_text args) f
    ∙ split-bar act (arg ++ args_text args)
    ∙ ap (λ p. (act, p.0 ∷ p.1))
        (split-args_text arg args (valid_arg-Free b'|' arg (inl refl) (ground arith))
          (ground arith))

pub join-split : (s : Str) → (split s b'|').0 ++ args_text (split s b'|').1 ≡ s
unfolding args_text split
join-split [] = refl
join-split (c ∷ s) = ground (arith, join-split s)

abbrev pub JoinsTo : Str → Str × Str × Bool → Type 0
JoinsTo s (x, y, true) = s ≡ x ++ b'^' ∷ y
JoinsTo s (x, y, false) = (s ≡ x) × (y ≡ [])

join-cut_cons :
    (c : ℕ) (s : Str) (r : Str × Str × Bool)
    → JoinsTo s r
    → JoinsTo (c ∷ s) (if c == b'^' then ([], s, true) else (c ∷ r.0, r.1, r.2))
join-cut_cons c s (x, y, found) j = elim (Bool-cases (c == b'^')) [
  | inl sep ↦ rw sep (ap (λ d. d ∷ s) ((==_iff c b'^').0 sep))
  | inr other ↦ rw other (tail found j)
]
  where
    tail : (found : Bool) → JoinsTo s (x, y, found) → JoinsTo (c ∷ s) (c ∷ x, y, found)
    tail true e = ap (◌∷◌ c) e
    tail false e = (ap (◌∷◌ c) e.0, e.1)

pub join-cut : (s : Str) → JoinsTo s (cut s b'^')
unfolding cut
join-cut [] = (refl, refl)
join-cut (c ∷ s) = join-cut_cons c s (cut s b'^') (join-cut s)

pub write_args_valid :
    (args : List Str) (b : Str)
    → all_valid_args args ≡ true
    → write_args args b ≡ ok (b ++ args_text args)
unfolding write_args all_valid_args args_text
write_args_valid [] b v = ap ok (sym (append-nil b))
write_args_valid (arg ∷ args) b v =
    ground
      (arith, write_args_valid args (b ++ b'|' ∷ arg), append_assoc b (b'|' ∷ arg) (args_text args))

pub write_args_ok :
    (args : List Str) (b out : Str)
    → write_args args b ≡ ok out
    → (all_valid_args args ≡ true) × (out ≡ b ++ args_text args)
unfolding write_args all_valid_args args_text
write_args_ok [] b out h = (refl, ground (arith, append-nil b))
write_args_ok (arg ∷ args) b out h =
    ground (
      arith,
      write_args_ok args (b ++ b'|' ∷ arg) out,
      append_assoc b (b'|' ∷ arg) (args_text args),
    )
