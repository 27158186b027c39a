-- ===== src/Agent/Replay/Cursor.antt =====
-- The cursor is read back as it was written.
use statixagent.Prelude.{
  ℕ, ◌+◌, ◌≤◌, ◌≡◌, ◌≢◌, refl, ◌∙◌, ap, Bool, true, not, Option, none, some, [], ◌∷◌, ◌++◌, nat_eq,
  str_eq, arith,
}
use statixagent.Prelude.Text.{Str}
use statixagent.Prelude.Strings.{trim_space, trim_left, trim_right}
use statixagent.Prelude.Decimal.{
  itoa, atoi, max_int, all_digits, all_digits-itoa, itoa-ne-nil, atoi-itoa,
}
use statixagent.Prelude.Time.{Time, before}
use statixagent.Agent.Replay.{OffsetFile, offset_max_age, offset_of, load_offset}

trim_right-digits : (s : Str) → all_digits s ≡ true → trim_right (s ++ 10 ∷ []) ≡ s
unfolding trim_right
trim_right-digits [] d = refl
trim_right-digits (c ∷ s) d = ground (arith, trim_right-digits s (ground (arith, d)), d)

trim_left-digits :
    (s : Str) → all_digits s ≡ true → s ≢ [] → trim_left (s ++ 10 ∷ []) ≡ s ++ 10 ∷ []
unfolding trim_left
trim_left-digits [] d h = absurd (h refl)
trim_left-digits (c ∷ s) d h = ground (arith, d)

-- The cursor is read back.
offset_of-itoa : (n : ℕ) → n ≤ max_int → offset_of (atoi (trim_space (itoa n ++ 10 ∷ []))) ≡ n
unfolding trim_space
offset_of-itoa n h =
    ap (λ s. offset_of (atoi (trim_right s)))
      (trim_left-digits (itoa n) (all_digits-itoa n) (itoa-ne-nil n))
    ∙ ap (λ s. offset_of (atoi s)) (trim_right-digits (itoa n) (all_digits-itoa n))
    ∙ ap offset_of (atoi-itoa n h)

abbrev pub is_fresh : Time → Option OffsetFile → Bool
is_fresh now none = true
is_fresh now (some f) = not (before (f.written + offset_max_age) now)

pub load_offset-written :
    (now t : Time) (c : ℕ)
    → is_fresh now (some (record { text = itoa c ++ 10 ∷ []; written = t })) ≡ true
    → c ≤ max_int
    → load_offset true now (some (record { text = itoa c ++ 10 ∷ []; written = t })) ≡ c
unfolding load_offset
load_offset-written now t c fresh small = ground (arith, fresh, offset_of-itoa c small)
