-- ===== src/Tgui/Screens/Keyboards.antt =====
-- What the buttons of a keyboard send back.
use mathlib.Core.Path.{subst}
use statixagent.Prelude.{
  ◌≡◌, ◌≢◌, refl, ◌⊎◌, inl, inr, ◌&&◌, List, [], ◌∷◌, ◌==◌, str_eq, ==_iff, Bool-cases, arith,
}
use statixagent.Tgui.Codec.{CodecError, Result, ok, err, Result-cases, encode, decode}
use statixagent.Tgui.Codec.RoundTrip.{decode-encode}
use statixagent.Tgui.Screens.{
  Button, KeyboardButton, Keyboard, with_data, button, buttons, with_row, keyboard,
}

-- A press of the button gives its call, or what the button stands for instead of one is sent as it is.
pub record Sends (b : Button) (k : KeyboardButton) : Type 0 where
  pub same_label : k.text ≡ b.label
  pub same_copy : k.copy ≡ b.copy
  pub same_style : k.style ≡ b.style
  pub same_press :
      ((b.legacy ≡ []) × (b.copy ≡ []) × (decode k.data_ ≡ ok b.call))
      ⊎ (((b.legacy ≢ []) ⊎ (b.copy ≢ [])) × (k.data_ ≡ b.legacy))

abbrev pub SendsRow : List Button → List KeyboardButton → Type 0
SendsRow [] [] = Unit
SendsRow [] (k ∷ ks) = ⊥
SendsRow (b ∷ bs) [] = ⊥
SendsRow (b ∷ bs) (k ∷ ks) = Sends b k × SendsRow bs ks

-- The rows that have buttons are those of the keyboard, in order.
abbrev pub SendsRows : List (List Button) → Keyboard → Type 0
SendsRows [] [] = Unit
SendsRows [] (ks ∷ kb) = ⊥
SendsRows ([] ∷ rows) kb = SendsRows rows kb
SendsRows ((b ∷ bs) ∷ rows) [] = ⊥
SendsRows ((b ∷ bs) ∷ rows) (ks ∷ kb) = SendsRow (b ∷ bs) ks × SendsRows rows kb

ok_inj : {A : Type 0} (a b : A) → ◌≡◌ {A = Result A} (ok a) (ok b) → a ≡ b
ok_inj a b h = cc

err_ne_ok : {A : Type 0} (e : CodecError) (a : A) → ◌≢◌ {A = Result A} (err e) (ok a)
err_ne_ok e a h = cc

button-Sends : (b : Button) (k : KeyboardButton) → button b ≡ ok k → Sends b k
unfolding button
button-Sends b k h = elim (Bool-cases (b.legacy == [] && b.copy == [])) [
  | inl plain ↦ elim (Result-cases (encode b.call)) [
    | inl (d, e) ↦
        subst (λ x. Sends b x) (ok_inj (with_data b d) k (rw (plain, e) at h))
          (record {
            same_label = refl;
            same_copy = refl;
            same_style = refl;
            same_press = inl (
              ground (arith, ==_iff b.legacy []),
              ground (arith, ==_iff b.copy []),
              decode-encode b.call d e,
            );
          })
    | inr (x, e) ↦ absurd (err_ne_ok x k (rw (plain, e) at h))
  ]
  | inr other ↦
      subst (λ x. Sends b x) (ok_inj (with_data b b.legacy) k (rw other at h))
        (record {
          same_label = refl;
          same_copy = refl;
          same_style = refl;
          same_press = inr (ground (arith, ==_iff b.legacy [], ==_iff b.copy []), refl);
        })
]

buttons-SendsRow :
    (bs : List Button) (ks : List KeyboardButton) → buttons bs ≡ ok ks → SendsRow bs ks
unfolding buttons
buttons-SendsRow [] ks h = subst (λ x. SendsRow [] x) (ok_inj [] ks h) tt
buttons-SendsRow (b ∷ bs) ks h = elim (Result-cases (button b)) [
  | inl (k, e) ↦ elim (Result-cases (buttons bs)) [
    | inl (ks', e') ↦
        subst (λ x. SendsRow (b ∷ bs) x) (ok_inj (k ∷ ks') ks (rw (e, e', buttons) at h))
          (button-Sends b k e, buttons-SendsRow bs ks' e')
    | inr (x, e') ↦ absurd (err_ne_ok x ks (rw (e, e', buttons) at h))
  ]
  | inr (x, e) ↦ absurd (err_ne_ok x ks (rw (e, buttons) at h))
]

with_row-SendsRows :
    (row : List Button) (ks : List KeyboardButton) (rows : List (List Button)) (kb : Keyboard)
    → SendsRow row ks
    → SendsRows rows kb
    → SendsRows (row ∷ rows) (with_row ks kb)
with_row-SendsRows [] [] rows kb s ss = ss
with_row-SendsRows [] (k ∷ ks) rows kb s ss = absurd s
with_row-SendsRows (b ∷ bs) [] rows kb s ss = absurd s
with_row-SendsRows (b ∷ bs) (k ∷ ks) rows kb s ss = (s, ss)

-- A keyboard that was built has the view's rows that are not empty, in order, and each button of it does
-- what the view's button is for: a press sends data that decodes to the button's call, unless the button
-- has old-format data or text to copy; then it sends exactly the former.
pub keyboard-SendsRows :
    (rows : List (List Button)) (kb : Keyboard) → keyboard rows ≡ ok kb → SendsRows rows kb
unfolding keyboard
keyboard-SendsRows [] kb h = subst (λ x. SendsRows [] x) (ok_inj [] kb h) tt
keyboard-SendsRows (row ∷ rows) kb h = elim (Result-cases (buttons row)) [
  | inl (ks, e) ↦ elim (Result-cases (keyboard rows)) [
    | inl (kb', e') ↦
        subst (λ x. SendsRows (row ∷ rows) x)
          (ok_inj (with_row ks kb') kb (rw (e, e', keyboard) at h))
          (with_row-SendsRows row ks rows kb' (buttons-SendsRow row ks e)
            (keyboard-SendsRows rows kb' e'))
    | inr (x, e') ↦ absurd (err_ne_ok x kb (rw (e, e', keyboard) at h))
  ]
  | inr (x, e) ↦ absurd (err_ne_ok x kb (rw (e, keyboard) at h))
]
