-- ===== src/Tgui/Registry.antt =====
-- internal/tgui/action.go: the registry of screens and actions. A startup panic, or a call of a `nil`
-- function, is `none`.
pub mod Built
pub mod Showing
pub mod Dispatch
use statixagent.Prelude.{
  Bool, true, false, not, ◌&&◌, ◌||◌, Option, none, some, List, [], ◌∷◌, ◌==◌, str_eq, ℕ,
  if◌then◌else◌,
}
use statixagent.Prelude.Text.{Str, codes}
use statixagent.Prelude.Map.{Map, is_some, get, put}
use statixagent.Tgui.Codec.{Call, CodecError, Result, ok, err, valid_arg, valid_id, decode}
use statixagent.Tgui.Screens.{
  Button, View, Keyboard, keyboard, Screen, act_view, act_open, home_id, open_,
}

pub data Class : Type 0 where
  class_view class_config class_mutate : Class

pub record Action : Type 0 where
  pub id : Str
  pub class : Class
  pub screen : Str

pub record Registry (W : Type 0) : Type 0 where
  pub screens : Map Str (Screen W)
  pub actions : Map Str Action

abbrev pub built_in : Str → Action
built_in id = record { id = id; class = class_view; screen = [] }

unfoldable pub new_registry : {W : Type 0} → Registry W
new_registry = record {
  screens = [];
  actions = (act_view, built_in act_view) ∷ (act_open, built_in act_open) ∷ [];
}

unfoldable pub add_screen : {W : Type 0} → Registry W → Screen W → Option (Registry W)
add_screen r s =
    if not (valid_arg s.id)
    then none
    else if is_some (get r.screens s.id)
    then none
    else if not (is_some s.render)
    then none
    else if not (s.parent == []) && not (is_some (get r.screens s.parent))
    then none
    else some (record r { screens = put r.screens s.id s })

unfoldable pub add_action : {W : Type 0} → Registry W → Action → Option (Registry W)
add_action r a =
    if not (valid_id a.id)
    then none
    else if is_some (get r.actions a.id)
    then none
    else if not (is_some (get r.screens a.screen))
    then none
    else some (record r { actions = put r.actions a.id a })

unfoldable pub known : {W : Type 0} → Registry W → Str → Bool
known r act = is_some (get r.actions act)

abbrev pub first_arg : List Str → Str
first_arg [] = []
first_arg (arg ∷ args) = arg

unfoldable pub target : {W : Type 0} → Registry W → Call → Str
target r c = elim (get r.actions c.act) [
  | none ↦ []
  | some act ↦ if act.id == act_view || act.id == act_open then first_arg c.args else act.screen
]

-- `Slow`
unfoldable pub is_slow : {W : Type 0} → Registry W → Call → Bool
unfolding target
is_slow r c = elim (get r.screens (target r c)) [ none ↦ false | some s ↦ s.slow ]

abbrev pub in_place : Call → Call
in_place c = if c.act == act_open then record c { act = act_view } else c

abbrev pub rendered : {A B : Type 0} → A × B → A × Option B
rendered (w, v) = (w, some v)

-- `Render`
unfoldable pub render : {W : Type 0} → Registry W → Call → W → Option (W × Option View)
unfolding target
render r c w = elim (get r.screens (target r c)) [
  | none ↦ some (w, none)
  | some s ↦ elim s.render [ none ↦ none | some f ↦ some (rendered (f (in_place c) w)) ]
]

-- `Back`
unfoldable pub back : {W : Type 0} → Registry W → Str → Call → Option Call
back r id c =
    if is_some (get r.screens c.from) && not (c.from == id)
    then some (open_ c.from)
    else elim (get r.screens id) [
      | none ↦ none
      | some s ↦ if not (s.parent == []) then some (open_ s.parent) else none
    ]

abbrev home_label : Str
home_label = 0xF0 ∷ 0x9F ∷ 0x8F ∷ 0xA0 ∷ codes " Home"

abbrev refresh_label : Str
refresh_label = 0xF0 ∷ 0x9F ∷ 0x94 ∷ 0x84 ∷ codes " Refresh"

abbrev back_label : Str
back_label = 0xE2 ∷ 0xAC ∷ 0x85 ∷ 0xEF ∷ 0xB8 ∷ 0x8F ∷ codes " Back"

abbrev pub call_button : Str → Call → Button
call_button label c = record { label = label; call = c; legacy = []; copy = []; style = [] }

-- `Footer`, in UTF-8
unfoldable pub footer : {W : Type 0} → Registry W → Str → Call → List Button
unfolding back open_
footer r id c =
    let row =
      call_button home_label (open_ home_id)
      ∷ call_button refresh_label (record c { act = act_view })
      ∷ [] in
    elim (back r id c) [ none ↦ row | some call ↦ call_button back_label call ∷ row ]

pub data Outcome : Type 0 where
  shown refused outdated : Outcome

-- The source's `Result`.
pub record Answer : Type 0 where
  pub outcome : Outcome
  pub call : Call
  pub text : Str
  pub keyboard : Keyboard
  pub new : Bool

abbrev pub no_call : Call
no_call = record { act = []; args = []; from = [] }

-- `Result{Outcome: o, Call: c}`
abbrev pub bare : Outcome → Call → Answer
bare o c = record { outcome = o; call = c; text = []; keyboard = []; new = false }

abbrev pub with_view : Call → View → Result Keyboard → Answer × Option CodecError
with_view c v (err e) = (bare shown c, some e)
with_view c v (ok kb) = (
  record { outcome = shown; call = c; text = v.text; keyboard = kb; new = c.act == act_open },
  none,
)

-- `Show`
unfoldable pub show : {W : Type 0} → Registry W → Call → W → Option (W × Answer × Option CodecError)
unfolding render keyboard
show r c w = elim (render r c w) [
  | none ↦ none
  | some (w', none) ↦ some (w', bare outdated c, none)
  | some (w', some v) ↦ let (answer, e) = with_view c v (keyboard v.rows) in some (w', answer, e)
]

-- `act, known := r.actions[c.Act]; known = known && err == nil`
unfoldable pub known_call : {W : Type 0} → Registry W → Result Call → Option (Call × Class)
known_call r (err e) = none
known_call r (ok c) = elim (get r.actions c.act) [ none ↦ none | some act ↦ some (c, act.class) ]

abbrev pub class_of : Option (Call × Class) → Class
class_of none = class_mutate
class_of (some (c, class)) = class

-- What follows the gate, which gave the world it left and whether it admits the press.
unfoldable pub after_gate :
    {W : Type 0}
    → Registry W
    → Option (Call × Class)
    → W × Bool
    → Option (W × Answer × Option CodecError)
unfolding show
after_gate r what (w, allowed) =
    if not allowed
    then some (w, bare refused no_call, none)
    else elim what [ none ↦ some (w, bare outdated no_call, none) | some (c, class) ↦ show r c w ]

unfoldable pub dispatch :
    {W : Type 0}
    → Registry W
    → Str
    → (Class → W → W × Bool)
    → W
    → Option (W × Answer × Option CodecError)
unfolding known_call after_gate
dispatch r data_ gate w =
    let what = known_call r (decode data_) in after_gate r what (gate (class_of what) w)
