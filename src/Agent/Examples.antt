-- ===== src/Agent/Examples.antt =====
-- The gate in a group with one admin, and presses around a restart.
use statixagent.Prelude.{
  ℕ, List, refl, some, none, ◌+◌, nat_eq, str_eq, ◌≡◌, ◌↔◌, true, false, [], ◌∷◌,
}
use statixagent.Prelude.Decimal.{itoa}
use statixagent.Prelude.Int.{pos}
use statixagent.Prelude.Text.{codes}
use statixagent.Agent.Authorize.{Sender, allowed, Gate, MayIn, authorize, authorize-allowed_iff}
use statixagent.Agent.Replay.{
  Outside, Update, Bot, BotEvent, polled, restarted, run_bot, handle_update,
}
use statixagent.Agent.Replay.Once.{Falling, orderly, run_bot-Falling}

abbrev team : Gate
team = record { chat = pos 42; admins = pos 7 ∷ []; group_notice_sent = false; notices = 0 }

abbrev guest : Sender
guest = record {
  chat_id = pos 42;
  from_id = pos 8;
  chat_type = codes "supergroup";
  relayed = false;
}

authorize-allowed_iff_example :
    ((authorize team guest true).1 ≡ allowed)
    ↔ ((pos 42 ≡ pos 42) × (false ≡ false) × MayIn team guest true)
authorize-allowed_iff_example = authorize-allowed_iff team guest true

abbrev some_outside : Outside ℕ
some_outside = record {
  has_path = true;
  now = λ w. w;
  write_offset = λ text w. (w + 1, true);
  confirm = λ offset w. w;
  press = λ u w. w + 10;
  route = λ u w. w + 5;
  push = λ w. w;
}

abbrev a_press : ℕ → Update
a_press id = record {
  id = id;
  text = [];
  date = 0;
  callback = some (codes "~1rs");
  chat_id = pos 7;
  from_id = pos 7;
  chat_type = codes "private";
  forwarded = false;
  via_bot = false;
  sender_chat = false;
}

abbrev new_bot : Bot ℕ
new_bot = record { world = 0; offset = 0; boot = 0; gate = team; file = none; ran = [] }

-- Two presses, a start, and another press.
abbrev two_starts : List (BotEvent ℕ)
two_starts = polled (a_press 4 ∷ a_press 6 ∷ []) ∷ restarted true ∷ polled (a_press 7 ∷ []) ∷ []

run_bot-Falling_example : Falling (run_bot some_outside two_starts new_bot).ran
unfolding orderly handle_update itoa
run_bot-Falling_example =
    run_bot-Falling some_outside two_starts new_bot refl (λ text w. refl) refl refl
