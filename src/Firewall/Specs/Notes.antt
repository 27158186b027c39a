-- ===== src/Firewall/Specs/Notes.antt =====
-- Words that the reader of specs keeps.
use statixagent.Prelude.{
  ℕ, ◌≡◌, refl, ◌∙◌, ap, ◌⊎◌, inl, inr, Bool, true, false, not, ◌&&◌, ◌||◌, List, [], ◌∷◌, ◌==◌,
  nat_eq, str_eq, ==_iff, arith,
}
use statixagent.Prelude.Text.{Str, codes}
use statixagent.Prelude.Decimal.{is_digit}
use statixagent.Firewall.Rules.{Rule}
use statixagent.Firewall.Specs.{drop_notes, is_spec_action, take_side, take_on}
use statixagent.Firewall.Specs.Ports.{StartsWithDigit}

abbrev pub is_note : Str → Bool
is_note w = w == codes "log" || w == codes "log-all" || w == codes "comment"

abbrev pub is_reserved : Str → Bool
is_reserved w = w == codes "in" || w == codes "out" || w == codes "on"

pub digit-ne :
    (c : ℕ) (s : Str) (d : ℕ) (t : Str)
    → is_digit c ≡ true
    → is_digit d ≡ false
    → ((c ∷ s) == (d ∷ t)) ≡ false
digit-ne c s d t h k = ground (arith, ==_iff (c ∷ s) (d ∷ t))

pub IsNumber-note : (w : Str) → StartsWithDigit w → is_note w ≡ false
IsNumber-note w (c, s, e, d) =
    rw
      (
        e,
        digit-ne c s b'l' (codes "og") d refl,
        digit-ne c s b'l' (codes "og-all") d refl,
        digit-ne c s b'c' (codes "omment") d refl,
      )
      refl

pub IsNumber-reserved : (w : Str) → StartsWithDigit w → is_reserved w ≡ false
IsNumber-reserved w (c, s, e, d) =
    rw
      (
        e,
        digit-ne c s b'i' (codes "n") d refl,
        digit-ne c s b'o' (codes "ut") d refl,
        digit-ne c s b'o' (codes "n") d refl,
      )
      refl

-- The four actions.
pub IsAction : Str → Type 0
IsAction a = (a ≡ codes "allow") ⊎ (a ≡ codes "deny") ⊎ (a ≡ codes "reject") ⊎ (a ≡ codes "limit")

pub is_spec_action-IsAction : (a : Str) → is_spec_action a ≡ true → IsAction a
unfolding IsAction
is_spec_action-IsAction a h = ground (
  arith,
  ==_iff a (codes "allow"),
  ==_iff a (codes "deny"),
  ==_iff a (codes "reject"),
  ==_iff a (codes "limit"),
)

pub IsAction-note : (a : Str) → IsAction a → is_note a ≡ false
unfolding IsAction
IsAction-note a (inl e) = rw e refl
IsAction-note a (inr (inl e)) = rw e refl
IsAction-note a (inr (inr (inl e))) = rw e refl
IsAction-note a (inr (inr (inr e))) = rw e refl

pub drop_notes-single : (w : Str) → is_note w ≡ false → drop_notes (w ∷ []) ≡ w ∷ []
unfolding drop_notes
drop_notes-single w h = ground arith

pub drop_notes-keep :
    (w x : Str) (ws : List Str)
    → is_note w ≡ false
    → drop_notes (w ∷ x ∷ ws) ≡ w ∷ drop_notes (x ∷ ws)
unfolding drop_notes
drop_notes-keep w x ws h = ground arith

pub take_words :
    (r : Rule) (w : Str) → is_reserved w ≡ false → take_on (take_side (r, w ∷ [])) ≡ (r, w ∷ [])
take_words r w h = ground arith

unfoldable pub all_clean : List Str → Bool
all_clean [] = true
all_clean (w ∷ ws) = not (is_note w) && all_clean ws

pub drop_notes-clean : (ws : List Str) → all_clean ws ≡ true → drop_notes ws ≡ ws
unfolding all_clean drop_notes
drop_notes-clean [] h = refl
drop_notes-clean (w ∷ []) h = drop_notes-single w (ground arith)
drop_notes-clean (w ∷ x ∷ ws) h =
    drop_notes-keep w x ws (ground arith)
    ∙ ap (λ l. w ∷ l) (drop_notes-clean (x ∷ ws) (ground arith))

pub digit-nil : (w : Str) → StartsWithDigit w → (w == []) ≡ false
digit-nil w (c, s, e, d) = rw e refl
