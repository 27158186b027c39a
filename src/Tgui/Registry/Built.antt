-- ===== src/Tgui/Registry/Built.antt =====
-- Registries that are built at startup, and what holds of each.
use mathlib.Core.Path.{subst}
use statixagent.Prelude.{
  ◌≡◌, refl, sym, ◌∙◌, ap, ◌⊎◌, inl, inr, true, none, some, [], ◌==◌, str_eq, ==_iff, ==_refl,
  Bool-cases, Option-cases, arith, if◌then◌else◌,
}
use statixagent.Prelude.Text.{Str}
use statixagent.Prelude.Map.{is_some, get, put, get-nil, get-put}
use statixagent.Tgui.Codec.{valid_arg}
use statixagent.Tgui.Screens.{Screen, act_view, act_open}
use statixagent.Tgui.Registry.{Action, Registry, built_in, new_registry, add_screen, add_action}

-- What a table of screens and actions that did not panic is made by.
pub data Built {W : Type 0} : Registry W → Type 0 where
  built_new : Built new_registry
  built_screen : {r r' : Registry W} (s : Screen W) → Built r → add_screen r s ≡ some r' → Built r'
  built_action : {r r' : Registry W} (a : Action) → Built r → add_action r a ≡ some r' → Built r'

module _ {W : Type 0} where
  -- From the screen, its parent, the parent's parent and so on lead to a screen without a parent.
  pub data Rooted (r : Registry W) : Str → Type 0 where
    root : {id : Str} (s : Screen W) → get r.screens id ≡ some s → s.parent ≡ [] → Rooted r id
    under : {id : Str} (s : Screen W) → get r.screens id ≡ some s → Rooted r s.parent → Rooted r id

  pub record Registered (r : Registry W) (id : Str) (s : Screen W) : Type 0 where
    pub same_id : s.id ≡ id
    pub id_valid : valid_arg id ≡ true
    pub has_render : is_some s.render ≡ true
    pub rooted : Rooted r id

  pub record Sound (r : Registry W) : Type 0 where
    pub views : get r.actions act_view ≡ some (built_in act_view)
    pub opens : get r.actions act_open ≡ some (built_in act_open)
    pub screens : (id : Str) (s : Screen W) → get r.screens id ≡ some s → Registered r id s
    pub actions :
        (id : Str) (a : Action)
        → get r.actions id ≡ some a
        → (a.id ≡ id)
          × ((a ≡ built_in act_view)
              ⊎ (a ≡ built_in act_open)
              ⊎ (is_some (get r.screens a.screen) ≡ true))

  -- What a screen passed when it was added.
  record Added (r r' : Registry W) (s : Screen W) : Type 0 where
    is : r' ≡ record r { screens = put r.screens s.id s }
    valid : valid_arg s.id ≡ true
    fresh : get r.screens s.id ≡ none
    renders : is_some s.render ≡ true
    has_parent : (s.parent ≡ []) ⊎ (is_some (get r.screens s.parent) ≡ true)

  add_screen-Added : (r r' : Registry W) (s : Screen W) → add_screen r s ≡ some r' → Added r r' s
  unfolding add_screen
  add_screen-Added r r' s h = record {
    is = ground arith;
    valid = ground arith;
    fresh = ground arith;
    renders = ground arith;
    has_parent = ground (arith, ==_iff s.parent []);
  }

  record AddedAction (r r' : Registry W) (a : Action) : Type 0 where
    is : r' ≡ record r { actions = put r.actions a.id a }
    fresh : get r.actions a.id ≡ none
    has_screen : is_some (get r.screens a.screen) ≡ true

  add_action-AddedAction :
      (r r' : Registry W) (a : Action) → add_action r a ≡ some r' → AddedAction r r' a
  unfolding add_action
  add_action-AddedAction r r' a h = record {
    is = ground arith;
    fresh = ground arith;
    has_screen = ground arith;
  }

  get-Added :
      (r r' : Registry W) (s : Screen W) (id : Str)
      → Added r r' s
      → get r'.screens id ≡ (if s.id == id then some s else get r.screens id)
  get-Added r r' s id a =
      ap (λ (x : Registry W). get x.screens id) a.is ∙ get-put r.screens s.id id s

  get-Added_old :
      (r r' : Registry W) (s s0 : Screen W) (id : Str)
      → Added r r' s
      → get r.screens id ≡ some s0
      → get r'.screens id ≡ some s0
  get-Added_old r r' s s0 id a h = ground (arith, get-Added r r' s id a, a.fresh, ==_iff s.id id)

  is_some-Added :
      (r r' : Registry W) (s : Screen W) (id : Str)
      → Added r r' s
      → is_some (get r.screens id) ≡ true
      → is_some (get r'.screens id) ≡ true
  is_some-Added r r' s id a h = ground (arith, get-Added r r' s id a)

  Rooted-Added :
      (r r' : Registry W) (s : Screen W) {id : Str} → Added r r' s → Rooted r id → Rooted r' id
  Rooted-Added r r' s a (root {id} s0 h e) = root s0 (get-Added_old r r' s s0 id a h) e
  Rooted-Added r r' s a (under {id} s0 h up) =
      under s0 (get-Added_old r r' s s0 id a h) (Rooted-Added r r' s a up)

  Registered-Added :
      (r r' : Registry W) (s s0 : Screen W) (id : Str)
      → Added r r' s
      → Registered r id s0
      → Registered r' id s0
  Registered-Added r r' s s0 id a g = record {
    same_id = g.same_id;
    id_valid = g.id_valid;
    has_render = g.has_render;
    rooted = Rooted-Added r r' s a g.rooted;
  }

  Registered-new :
      (r r' : Registry W) (s : Screen W) → Sound r → Added r r' s → Registered r' s.id s
  Registered-new r r' s k a =
      let stored : get r'.screens s.id ≡ some s =
        ground (arith, get-Added r r' s s.id a, ==_refl s.id) in
      record {
        same_id = refl;
        id_valid = a.valid;
        has_render = a.renders;
        rooted = elim a.has_parent [
          | inl none_ ↦ root s stored none_
          | inr has ↦ elim (Option-cases (get r.screens s.parent)) [
            | inl lost ↦ absurd (ground arith)
            | inr (up, found) ↦
                under s stored (Rooted-Added r r' s a (k.screens s.parent up found).rooted)
          ]
        ];
      }

  Sound-Added : (r r' : Registry W) (s : Screen W) → Sound r → Added r r' s → Sound r'
  Sound-Added r r' s k a =
      let same : r'.actions ≡ r.actions = ap (λ (x : Registry W). x.actions) a.is in
      record {
        views = ap (λ m. get m act_view) same ∙ k.views;
        opens = ap (λ m. get m act_open) same ∙ k.opens;
        screens = λ id s0 h. elim (Bool-cases (s.id == id)) [
          | inl hit ↦
              let is : s ≡ s0 = ground (arith, get-Added r r' s id a) in
              let at : s.id ≡ id = (==_iff s.id id).0 hit in
              subst (λ x. Registered r' id x) is
                (subst (λ x. Registered r' x s) at (Registered-new r r' s k a))
          | inr miss ↦
              Registered-Added r r' s s0 id a
                (k.screens id s0 (ground (arith, get-Added r r' s id a)))
        ];
        actions = λ id act h.
            let (named, shows) = k.actions id act (ap (λ m. get m id) (sym same) ∙ h) in
            (
              named,
              elim shows [
                | inl v ↦ inl v
                | inr (inl o) ↦ inr (inl o)
                | inr (inr x) ↦ inr (inr (is_some-Added r r' s act.screen a x))
              ],
            );
      }

  Rooted-same : (r r' : Registry W) {id : Str} → r'.screens ≡ r.screens → Rooted r id → Rooted r' id
  Rooted-same r r' e (root {id} s0 h p) = root s0 (ap (λ m. get m id) e ∙ h) p
  Rooted-same r r' e (under {id} s0 h up) =
      under s0 (ap (λ m. get m id) e ∙ h) (Rooted-same r r' e up)

  get-AddedAction :
      (r r' : Registry W) (a : Action) (id : Str)
      → AddedAction r r' a
      → get r'.actions id ≡ (if a.id == id then some a else get r.actions id)
  get-AddedAction r r' a id d =
      ap (λ (x : Registry W). get x.actions id) d.is ∙ get-put r.actions a.id id a

  Sound-AddedAction : (r r' : Registry W) (a : Action) → Sound r → AddedAction r r' a → Sound r'
  Sound-AddedAction r r' a k d =
      let same : r'.screens ≡ r.screens = ap (λ (x : Registry W). x.screens) d.is in
      record {
        views =
            ground
              (arith, get-AddedAction r r' a act_view d, k.views, d.fresh, ==_iff a.id act_view);
        opens =
            ground
              (arith, get-AddedAction r r' a act_open d, k.opens, d.fresh, ==_iff a.id act_open);
        screens = λ id s h.
            let g = k.screens id s (ap (λ m. get m id) (sym same) ∙ h) in
            record {
              same_id = g.same_id;
              id_valid = g.id_valid;
              has_render = g.has_render;
              rooted = Rooted-same r r' same g.rooted;
            };
        actions = λ id act h. elim (Bool-cases (a.id == id)) [
          | inl hit ↦
              let is : a ≡ act = ground (arith, get-AddedAction r r' a id d) in
              (
                ap (λ (x : Action). x.id) (sym is) ∙ (==_iff a.id id).0 hit,
                inr (
                    inr (
                      ap (λ (x : Action). is_some (get r'.screens x.screen)) (sym is)
                      ∙ ap (λ m. is_some (get m a.screen)) same
                      ∙ d.has_screen)),
              )
          | inr miss ↦
              let (named, shows) = k.actions id act (ground (arith, get-AddedAction r r' a id d)) in
              (
                named,
                elim shows [
                  | inl v ↦ inl v
                  | inr (inl o) ↦ inr (inl o)
                  | inr (inr x) ↦ inr (inr (ap (λ m. is_some (get m act.screen)) same ∙ x))
                ],
              )
        ];
      }

  new_registry-Sound : Sound (new_registry {W = W})
  unfolding new_registry
  new_registry-Sound = record {
    views = unfold get in refl;
    opens = unfold get in refl;
    screens = λ id s h. absurd (ground (arith, get-nil {V = Screen W} id));
    actions = λ id act h. unfold get in ground (arith, ==_iff act_view id, ==_iff act_open id);
  }

  -- Whatever is added at startup without a panic, each screen is stored under its own ID, which is a
  -- valid argument, and has a `Render`; its parents lead to a root screen, so they make no cycle; the
  -- actions `v` and `o` are the built-in ones, and each other action has a registered screen.
  pub Built-Sound : {r : Registry W} → Built r → Sound r
  Built-Sound built_new = new_registry-Sound
  Built-Sound (built_screen {r} {r'} s b h) =
      Sound-Added r r' s (Built-Sound b) (add_screen-Added r r' s h)
  Built-Sound (built_action {r} {r'} a b h) =
      Sound-AddedAction r r' a (Built-Sound b) (add_action-AddedAction r r' a h)
