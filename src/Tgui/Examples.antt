-- ===== src/Tgui/Examples.antt =====
-- Keyboards, the registry and the legacy table at a concrete bot.
use statixagent.Prelude.{
  ◌+◌, ◌<◌, ◌≡◌, ◌≢◌, ◌↔◌, refl, ◌⊎◌, Bool, true, false, Option, none, some, List, [], ◌∷◌, ℕ, ◌==◌,
  nat_eq, str_eq, length, mem?,
}
use statixagent.Prelude.Text.{Str, codes, cut_prefix}
use statixagent.Prelude.Map.{is_some, get, put, del}
use statixagent.Tgui.Codec.{Call, CodecError, ok, encode, decode, valid_id, valid_arg, is_call}
use statixagent.Tgui.Screens.{
  Button, View, KeyboardButton, button, buttons, keyboard, Screen, open_,
}
use statixagent.Tgui.Screens.Keyboards.{SendsRows, keyboard-SendsRows}
use statixagent.Tgui.Registry.{
  Class, class_view, class_config, class_mutate, Action, Registry, new_registry, add_screen,
  add_action, target, shown, refused, Answer, bare, known_call, no_call, dispatch, render, show,
  after_gate,
}
use statixagent.Tgui.Registry.Built.{
  Built, built_new, built_screen, built_action, Sound, Built-Sound,
}
use statixagent.Tgui.Registry.Dispatch.{dispatch-shown, dispatch-total}
use statixagent.Tgui.Legacy.{
  LegacyRule, starts_with, new_legacy_table, rules_pass, rule_passes, has_prefix, claims, lookup,
  old_claims, not_shadowed, exact_free, prefixes_free,
}
use statixagent.Tgui.Legacy.Lookup.{lookup-exact}

abbrev cpu_button : Button
cpu_button = record {
  label = codes "CPU";
  call = open_ (codes "cpu");
  legacy = [];
  copy = [];
  style = [];
}

abbrev old_button : Button
old_button = record cpu_button { legacy = codes "ssl:x" }

abbrev cpu_key : KeyboardButton
cpu_key = record { text = codes "CPU"; data_ = codes "~1v|cpu"; copy = []; style = [] }

keyboard-SendsRows_example :
    SendsRows
      ((cpu_button ∷ old_button ∷ []) ∷ [] ∷ [])
      ((cpu_key ∷ record cpu_key { data_ = codes "ssl:x" } ∷ []) ∷ [])
unfolding keyboard buttons button encode open_ valid_id valid_arg
keyboard-SendsRows_example =
    keyboard-SendsRows ((cpu_button ∷ old_button ∷ []) ∷ [] ∷ [])
      ((cpu_key ∷ record cpu_key { data_ = codes "ssl:x" } ∷ []) ∷ []) refl

-- The world counts the renders and the presses that were asked about.
abbrev draw : Call → ℕ × ℕ → (ℕ × ℕ) × View
draw c (renders, asks) = ((renders + 1, asks), record { text = c.act; rows = [] })

abbrev admits_views : Class → ℕ × ℕ → (ℕ × ℕ) × Bool
admits_views class_view (renders, asks) = ((renders, asks + 1), true)
admits_views class_config (renders, asks) = ((renders, asks + 1), false)
admits_views class_mutate (renders, asks) = ((renders, asks + 1), false)

abbrev home : Screen (ℕ × ℕ)
home = record { id = codes "home"; parent = []; render = some draw; slow = false }

abbrev cpu : Screen (ℕ × ℕ)
cpu = record { id = codes "cpu"; parent = codes "home"; render = some draw; slow = false }

abbrev restart : Action
restart = record { id = codes "rs"; class = class_mutate; screen = codes "cpu" }

abbrev with_home : Registry (ℕ × ℕ)
with_home = record {
  screens = (codes "home", home) ∷ [];
  actions =
      (codes "v", record { id = codes "v"; class = class_view; screen = [] })
      ∷ (codes "o", record { id = codes "o"; class = class_view; screen = [] })
      ∷ [];
}

abbrev with_cpu : Registry (ℕ × ℕ)
with_cpu = record with_home { screens = (codes "cpu", cpu) ∷ (codes "home", home) ∷ [] }

abbrev bot : Registry (ℕ × ℕ)
bot = record with_cpu { actions = (codes "rs", restart) ∷ with_home.actions }

bot-Built : Built bot
unfolding new_registry add_screen add_action valid_arg valid_id get put del
bot-Built =
    built_action {r = with_cpu} restart
      (built_screen {r = with_home} cpu (built_screen {r = new_registry} home built_new refl) refl)
      refl

Built-Sound_example : Sound bot
Built-Sound_example = Built-Sound bot-Built

abbrev at_cpu : Call
at_cpu = open_ (codes "cpu")

dispatch-total_example :
    (w' : ℕ × ℕ) × (a : Answer) × (e : Option CodecError) × (dispatch bot
        (codes "~1rs")
        admits_views
        (0, 0)
      ≡ some (w', a, e))
dispatch-total_example = dispatch-total bot (codes "~1rs") admits_views (0, 0) bot-Built

dispatch-restart :
    dispatch bot (codes "~1rs") admits_views (0, 0) ≡ some ((0, 1), bare refused no_call, none)
unfolding dispatch decode known_call after_gate get cut_prefix statixagent.Prelude.Text.cut valid_id
    statixagent.Prelude.Text.split
dispatch-restart = refl

abbrev home_answer : Answer
home_answer = record {
  outcome = shown;
  call = record { act = codes "v"; args = codes "home" ∷ []; from = [] };
  text = codes "v";
  keyboard = [];
  new = false;
}

dispatch-home :
    dispatch bot (codes "~1v|home") admits_views (0, 0) ≡ some ((1, 1), home_answer, none)
unfolding dispatch decode known_call after_gate get show render target keyboard cut_prefix
    statixagent.Prelude.Text.cut valid_id statixagent.Prelude.Text.split valid_arg
dispatch-home = refl

dispatch-shown_example :
    (c : Call) × (act : Action) × (decode (codes "~1v|home") ≡ ok c)
    × (get bot.actions c.act ≡ some act)
    × ((admits_views act.class (0, 0)).1 ≡ true)
    × (is_some (get bot.screens (target bot c)) ≡ true)
dispatch-shown_example =
    dispatch-shown bot (codes "~1v|home") admits_views (0, 0) (1, 1) home_answer none dispatch-home
      refl

-- A rule for one certificate stands before the rule for all.
abbrev one_rule : LegacyRule ℕ
one_rule = record {
  name = codes "one";
  exact = codes "ssl" ∷ [];
  prefixes = codes "ssl:del:" ∷ [];
  slow = false;
  ack = [];
  handle = some 1;
}

abbrev all_rule : LegacyRule ℕ
all_rule = record {
  name = codes "all";
  exact = codes "ssls" ∷ [];
  prefixes = codes "ssl:" ∷ [];
  slow = false;
  ack = [];
  handle = some 2;
}

abbrev table : List (LegacyRule ℕ)
table = one_rule ∷ all_rule ∷ []

table-accepted : new_legacy_table table ≡ some table
unfolding new_legacy_table rules_pass rule_passes old_claims not_shadowed exact_free prefixes_free
    claims has_prefix cut_prefix is_call
table-accepted = refl

lookup-exact_example : lookup table (codes "ssls") ≡ some all_rule
lookup-exact_example =
    lookup-exact (one_rule ∷ []) all_rule [] table (codes "ssls") table-accepted refl

starts-ssl : starts_with (codes "ssl:del:a") (codes "ssl:") ≡ true
unfolding cut_prefix
starts-ssl = refl
