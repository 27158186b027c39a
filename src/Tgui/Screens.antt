-- ===== src/Tgui/Screens.antt =====
-- internal/tgui/screen.go: views, their keyboards and screens. A screen's `Render` may read and change
-- the world `W` that it runs in; a `nil` function is `none`.
pub mod Keyboards
use statixagent.Prelude.{Bool, ◌&&◌, Option, none, some, List, [], ◌∷◌, ◌==◌, str_eq, if◌then◌else◌}
use statixagent.Prelude.Text.{Str, codes}
use statixagent.Tgui.Codec.{Call, Result, ok, err, encode}

pub record Button : Type 0 where
  pub label : Str
  pub call : Call
  pub legacy : Str
  pub copy : Str
  pub style : Str

pub record View : Type 0 where
  pub text : Str
  pub rows : List (List Button)

-- `telegram.Button`
pub record KeyboardButton : Type 0 where
  pub text : Str
  pub data_ : Str
  pub copy : Str
  pub style : Str

abbrev pub Keyboard : Type 0
Keyboard = List (List KeyboardButton)

abbrev pub with_data : Button → Str → KeyboardButton
with_data b d = record { text = b.label; data_ = d; copy = b.copy; style = b.style }

unfoldable pub button : Button → Result KeyboardButton
button b =
    if b.legacy == [] && b.copy == []
    then elim (encode b.call) [ ok d ↦ ok (with_data b d) | err e ↦ err e ]
    else ok (with_data b b.legacy)

-- the loop over a row
unfoldable pub buttons : List Button → Result (List KeyboardButton)
buttons [] = ok []
buttons (b ∷ bs) =
    let rest = buttons bs in
    elim (button b) [ ok k ↦ elim rest [ ok ks ↦ ok (k ∷ ks) | err e ↦ err e ] | err e ↦ err e ]

-- `if len(btns) > 0 { kb = append(kb, btns) }`
abbrev pub with_row : List KeyboardButton → Keyboard → Keyboard
with_row [] kb = kb
with_row (k ∷ ks) kb = (k ∷ ks) ∷ kb

-- `Keyboard`
unfoldable pub keyboard : List (List Button) → Result Keyboard
keyboard [] = ok []
keyboard (row ∷ rows) =
    let rest = keyboard rows in
    elim (buttons row) [
      | ok ks ↦ elim rest [ ok kb ↦ ok (with_row ks kb) | err e ↦ err e ]
      | err e ↦ err e
    ]

pub record Screen (W : Type 0) : Type 0 where
  pub id : Str
  pub parent : Str
  pub render : Option (Call → W → W × View)
  pub slow : Bool

abbrev pub home_id : Str
home_id = codes "home"

abbrev pub act_view : Str
act_view = codes "v"

abbrev pub act_open : Str
act_open = codes "o"

unfoldable pub open_ : Str → Call
open_ id = record { act = act_view; args = id ∷ []; from = [] }

unfoldable pub open_new : Str → Call
open_new id = record { act = act_open; args = id ∷ []; from = [] }
