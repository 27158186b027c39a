-- ===== src/Tgui/Registry/Showing.antt =====
-- What is shown, and what the Back button and the buttons of a screen open.
use mathlib.Core.Path.{subst}
use statixagent.Prelude.{
  ◌≡◌, ◌≢◌, refl, sym, ◌∙◌, ap, ◌⊎◌, inl, inr, true, false, not, ◌&&◌, Option, none, some, [], ◌==◌,
  str_eq, ==_iff, ==_refl, Bool-cases, Option-cases, arith,
}
use statixagent.Prelude.Text.{Str}
use statixagent.Prelude.Map.{is_some, get}
use statixagent.Tgui.Codec.{Call, CodecError, Result, ok, err}
use statixagent.Tgui.Screens.{View, Keyboard, keyboard, Screen, act_view, open_}
use statixagent.Tgui.Registry.{
  Registry, target, in_place, render, back, shown, outdated, Answer, bare, with_view, show,
}
use statixagent.Tgui.Registry.Built.{Built, Rooted, root, under, Registered, Sound, Built-Sound}

with_view-shown :
    (c : Call) (v : View) (kb : Result Keyboard) → (with_view c v kb).0.outcome ≡ shown
with_view-shown c v (ok kb) = refl
with_view-shown c v (err e) = refl

-- What a press is answered with for a screen's view: all of it, or the error of a button whose call has no
-- encoding.
pub data Answers (c : Call) (v : View) (a : Answer) (e : Option CodecError) : Type 0 where
  in_full :
      (kb : Keyboard)
      → keyboard v.rows ≡ ok kb
      → a.outcome ≡ shown
      → a.call ≡ c
      → a.text ≡ v.text
      → a.keyboard ≡ kb
      → e ≡ none
      → Answers c v a e
  not_encoded : (x : CodecError) → keyboard v.rows ≡ err x → e ≡ some x → Answers c v a e

with_view-Answers :
    (c : Call) (v : View) (k : Result Keyboard)
    → keyboard v.rows ≡ k
    → Answers c v (with_view c v k).0 (with_view c v k).1
with_view-Answers c v (ok kb) h = in_full kb h refl refl refl refl refl
with_view-Answers c v (err x) h = not_encoded x h refl

pub in_place-open_ : (id : Str) → in_place (open_ id) ≡ open_ id
unfolding open_
in_place-open_ id = refl

module _ {W : Type 0} where
  -- A registered screen is rendered once, in the call's place, and its view is the answer.
  pub show-Answers :
      (r : Registry W) (c : Call) (w : W) (s : Screen W) (f : Call → W → W × View)
      → get r.screens (target r c) ≡ some s
      → s.render ≡ some f
      → in_place c ≡ c
      → (a : Answer) × (e : Option CodecError) × (show r c w ≡ some ((f c w).0, a, e))
        × Answers c (f c w).1 a e
  unfolding show render
  show-Answers r c w s f found does here =
      let v = (f c w).1 in
      let (a, e) = with_view c v (keyboard v.rows) in
      (a, e, rw (show, found, does, here) refl, with_view-Answers c v (keyboard v.rows) refl)

  pub show_lem :
      (r : Registry W) (c : Call) (w w' : W) (a : Answer) (e : Option CodecError)
      → show r c w ≡ some (w', a, e)
      → ((a.outcome ≡ shown) × (is_some (get r.screens (target r c)) ≡ true))
        ⊎ ((a.outcome ≡ outdated) × (w' ≡ w) × (is_some (get r.screens (target r c)) ≡ false))
  unfolding show render
  show_lem r c w w' a e h = elim (Option-cases (get r.screens (target r c))) [
    | inl lost ↦ inr (ground arith, ground arith, ap is_some lost)
    | inr (s, found) ↦ elim (Option-cases s.render) [
      | inl nil ↦ absurd (ground arith)
      | inr (f, does) ↦ inl (
        ground (arith, with_view-shown c (f (in_place c) w).1 (keyboard (f (in_place c) w).1.rows)),
        ground arith,
      )
    ]
  ]

  pub show-total :
      (r : Registry W) (c : Call) (w : W)
      → Sound r
      → (w' : W) × (a : Answer) × (e : Option CodecError) × (show r c w ≡ some (w', a, e))
  unfolding show render
  show-total r c w k = elim (Option-cases (get r.screens (target r c))) [
    | inl lost ↦ (w, bare outdated c, none, rw (show, lost) refl)
    | inr (s, found) ↦ elim (Option-cases s.render) [
      | inl nil ↦ absurd (ground (arith, (k.screens (target r c) s found).has_render))
      | inr (f, does) ↦
          let (w', v) = f (in_place c) w in
          let (a, e) = with_view c v (keyboard v.rows) in (w', a, e, rw (show, found, does) refl)
    ]
  ]

  target-open_ : (r : Registry W) (id : Str) → Sound r → target r (open_ id) ≡ id
  unfolding target open_
  target-open_ r id k = ground (arith, k.views, ==_refl act_view)

  pub has_render :
      (s : Screen W) → is_some s.render ≡ true → (f : Call → W → W × View) × (s.render ≡ some f)
  has_render s h = elim (Option-cases s.render) [
    | inl nil ↦ absurd (ground arith)
    | inr (f, does) ↦ (f, does)
  ]

  opens_registered :
      (r : Registry W) (id : Str) (c' : Call)
      → Sound r
      → is_some (get r.screens id) ≡ true
      → c' ≡ open_ id
      → (s : Screen W) × (get r.screens s.id ≡ some s) × (target r c' ≡ s.id) × (c' ≡ open_ s.id)
  opens_registered r id c' k h e = elim (Option-cases (get r.screens id)) [
    | inl lost ↦ absurd (ground arith)
    | inr (s, found) ↦
        let named : id ≡ s.id = sym (k.screens id s found).same_id in
        (
          s,
          ap (get r.screens) (sym named) ∙ found,
          ap (target r) e ∙ target-open_ r id k ∙ named,
          e ∙ ap open_ named,
        )
  ]

  Rooted-stored : (r : Registry W) (id : Str) → Rooted r id → is_some (get r.screens id) ≡ true
  Rooted-stored r id (root s found none_) = ap is_some found
  Rooted-stored r id (under s found up) = ap is_some found

  stored_inj :
      (r : Registry W) (id : Str) (s s' : Screen W)
      → get r.screens id ≡ some s
      → get r.screens id ≡ some s'
      → s ≡ s'
  stored_inj r id s s' h h' = cc

  has_parent-Registered :
      (r : Registry W) (id : Str) (s : Screen W)
      → Registered r id s
      → get r.screens id ≡ some s
      → s.parent ≢ []
      → is_some (get r.screens s.parent) ≡ true
  has_parent-Registered r id s g found has = elim g.rooted [
    | root s' found' none_ ↦
        absurd (has (ap (λ (x : Screen W). x.parent) (stored_inj r id s s' found found') ∙ none_))
    | under s' found' up ↦
        subst (λ (x : Screen W). is_some (get r.screens x.parent) ≡ true)
          (sym (stored_inj r id s s' found found')) (Rooted-stored r s'.parent up)
  ]

  -- A Back button leads to the registered screen that it is labelled for: in a registry built at startup
  -- the call that `Back` gives opens a registered screen, in the same message, and goes no further back.
  pub back-open_ :
      (r : Registry W) (id : Str) (c c' : Call)
      → Built r
      → back r id c ≡ some c'
      → (s : Screen W) × (get r.screens s.id ≡ some s) × (target r c' ≡ s.id) × (c' ≡ open_ s.id)
  unfolding back
  back-open_ r id c c' b h =
      let k = Built-Sound b in
      elim (Bool-cases (is_some (get r.screens c.from) && not (c.from == id))) [
        | inl from ↦ opens_registered r c.from c' k (ground arith) (ground arith)
        | inr other ↦ elim (Option-cases (get r.screens id)) [
          | inl lost ↦ absurd (ground arith)
          | inr (s, found) ↦
              opens_registered r s.parent c' k
                (has_parent-Registered r id s (k.screens id s found) found
                  (ground (arith, ==_iff s.parent [])))
                (ground arith)
        ]
      ]
