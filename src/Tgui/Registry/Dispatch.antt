-- ===== src/Tgui/Registry/Dispatch.antt =====
-- What a press does: the gate goes first, and what a screen's buttons open is there.
use mathlib.Core.Path.{subst}
use statixagent.Prelude.{
  ◌≡◌, ◌≢◌, refl, sym, ◌∙◌, ap, ◌↔◌, inl, inr, Bool, true, false, Option, none, some, str_eq,
  Option-cases, arith,
}
use statixagent.Prelude.Text.{Str}
use statixagent.Prelude.Map.{is_some, get}
use statixagent.Tgui.Codec.{Call, CodecError, Result, ok, err, decode}
use statixagent.Tgui.Registry.{
  Class, Action, Registry, target, shown, refused, outdated, Answer, bare, known_call, class_of,
  no_call, after_gate, dispatch,
}
use statixagent.Tgui.Registry.Built.{Built, Sound, Built-Sound}
use statixagent.Tgui.Registry.Showing.{show_lem, show-total}

module _ {W : Type 0} where
  known_call-class :
      (r : Registry W) (d : Result Call) (c : Call) (class : Class)
      → known_call r d ≡ some (c, class)
      → (act : Action) × (d ≡ ok c) × (get r.actions c.act ≡ some act) × (act.class ≡ class)
  unfolding known_call
  known_call-class r (err e) c class h = absurd (ground arith)
  known_call-class r (ok x) c class h = elim (Option-cases (get r.actions x.act)) [
    | inl lost ↦ absurd (ground arith)
    | inr (act, found) ↦
        let same : x ≡ c = ground arith in
        (
          act,
          ap ok same,
          subst (λ (y : Call). get r.actions y.act ≡ some act) same found,
          ground arith,
        )
  ]

  -- What a press that was answered with `a` was.
  data Pressed (r : Registry W) (what : Option (Call × Class)) (g : W × Bool) (w' : W) (a : Answer)
      : Type 0 where
    denied : g.1 ≡ false → a.outcome ≡ refused → w' ≡ g.0 → Pressed r what g w' a
    not_known : g.1 ≡ true → a.outcome ≡ outdated → w' ≡ g.0 → what ≡ none → Pressed r what g w' a
    no_screen :
        (c : Call) (class : Class)
        → g.1 ≡ true
        → a.outcome ≡ outdated
        → w' ≡ g.0
        → what ≡ some (c, class)
        → is_some (get r.screens (target r c)) ≡ false
        → Pressed r what g w' a
    opened :
        (c : Call) (class : Class)
        → g.1 ≡ true
        → what ≡ some (c, class)
        → a.outcome ≡ shown
        → is_some (get r.screens (target r c)) ≡ true
        → Pressed r what g w' a

  after_gate-Pressed :
      (r : Registry W) (what : Option (Call × Class)) (g : W × Bool) (w' : W) (a : Answer)
      (e : Option CodecError)
      → after_gate r what g ≡ some (w', a, e)
      → Pressed r what g w' a
  unfolding after_gate
  after_gate-Pressed r what (w, false) w' a e h = denied refl (ground arith) (ground arith)
  after_gate-Pressed r none (w, true) w' a e h = not_known refl (ground arith) (ground arith) refl
  after_gate-Pressed r (some (c, class)) (w, true) w' a e h = elim (show_lem r c w w' a e h) [
    | inl (sh, found) ↦ opened c class refl refl sh found
    | inr (old, same, lost) ↦ no_screen c class refl old same refl lost
  ]

  -- A press that the gate does not admit to the class of its action does nothing else: it is refused,
  -- and the world is as the gate left it. A press of data that names no registered action is gated as
  -- the strictest class. What the gate admits is not refused.
  dispatch-refused_iff :
      (r : Registry W) (data_ : Str) (gate : Class → W → W × Bool) (w w' : W) (a : Answer)
      (e : Option CodecError)
      → dispatch r data_ gate w ≡ some (w', a, e)
      → (a.outcome ≡ refused) ↔ ((gate (class_of (known_call r (decode data_))) w).1 ≡ false)
  unfolding dispatch
  dispatch-refused_iff r data_ gate w w' a e h =
      elim (after_gate-Pressed r (known_call r (decode data_))
        (gate (class_of (known_call r (decode data_))) w) w' a e h) [
          | denied barred ref same ↦ (λ x. barred, λ x. ref)
          | not_known yes_ old same _ ↦ (λ x. absurd (ground arith), λ x. absurd (ground arith))
          | no_screen c class yes_ old same _ _ ↦
              (λ x. absurd (ground arith), λ x. absurd (ground arith))
          | opened c class yes_ is sh found ↦
              (λ x. absurd (ground arith), λ x. absurd (ground arith))
        ]

  -- What a press shows, the gate was asked about: the data decodes to a call of a registered action,
  -- the gate admitted the class of that action, and the screen that the call opens is registered.
  pub dispatch-shown :
      (r : Registry W) (data_ : Str) (gate : Class → W → W × Bool) (w w' : W) (a : Answer)
      (e : Option CodecError)
      → dispatch r data_ gate w ≡ some (w', a, e)
      → a.outcome ≡ shown
      → (c : Call) × (act : Action) × (decode data_ ≡ ok c)
        × (get r.actions c.act ≡ some act)
        × ((gate act.class w).1 ≡ true)
        × (is_some (get r.screens (target r c)) ≡ true)
  unfolding dispatch
  dispatch-shown r data_ gate w w' a e h sh =
      elim (after_gate-Pressed r (known_call r (decode data_))
        (gate (class_of (known_call r (decode data_))) w) w' a e h) [
          | denied x ref same ↦ absurd (ground arith)
          | not_known x old same _ ↦ absurd (ground arith)
          | no_screen c class x old same _ _ ↦ absurd (ground arith)
          | opened c class admits is _ found ↦
              let (act, decoded, registered, classed) =
                known_call-class r (decode data_) c class is in
              let asked : class_of (known_call r (decode data_)) ≡ act.class =
                ap class_of is ∙ sym classed in
              (c, act, decoded, registered, ap (λ x. (gate x w).1) (sym asked) ∙ admits, found)
        ]

  -- Only the gate and a screen that is shown act on the world.
  dispatch-not_shown :
      (r : Registry W) (data_ : Str) (gate : Class → W → W × Bool) (w w' : W) (a : Answer)
      (e : Option CodecError)
      → dispatch r data_ gate w ≡ some (w', a, e)
      → a.outcome ≢ shown
      → w' ≡ (gate (class_of (known_call r (decode data_))) w).0
  unfolding dispatch
  dispatch-not_shown r data_ gate w w' a e h n =
      elim (after_gate-Pressed r (known_call r (decode data_))
        (gate (class_of (known_call r (decode data_))) w) w' a e h) [
          | denied x ref same ↦ same
          | not_known x old same _ ↦ same
          | no_screen c class x old same _ _ ↦ same
          | opened c class x is sh found ↦ absurd (n sh)
        ]

  after_gate-total :
      (r : Registry W) (what : Option (Call × Class)) (g : W × Bool)
      → Sound r
      → (w' : W) × (a : Answer) × (e : Option CodecError) × (after_gate r what g ≡ some (w', a, e))
  unfolding after_gate
  after_gate-total r what (w, false) k = (w, bare refused no_call, none, refl)
  after_gate-total r none (w, true) k = (w, bare outdated no_call, none, refl)
  after_gate-total r (some (c, class)) (w, true) k = show-total r c w k

  -- No press calls a screen without a `Render`: on a registry built at startup all data is answered.
  pub dispatch-total :
      (r : Registry W) (data_ : Str) (gate : Class → W → W × Bool) (w : W)
      → Built r
      → (w' : W) × (a : Answer) × (e : Option CodecError) × (dispatch r data_ gate w
          ≡ some (w', a, e))
  unfolding dispatch
  dispatch-total r data_ gate w b =
      after_gate-total r (known_call r (decode data_))
        (gate (class_of (known_call r (decode data_))) w) (Built-Sound b)
