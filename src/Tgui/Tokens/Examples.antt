-- ===== src/Tgui/Tokens/Examples.antt =====
-- The token store's theorems at a concrete run.
use statixagent.Prelude.{
  ◌+◌, ◌<◌, ◌≡◌, refl, true, false, none, some, List, [], ◌∷◌, Option, length, take, drop, arith,
  ◌↔◌,
}
use statixagent.Prelude.Int.{pos}
use statixagent.Prelude.Text.{Str, codes}
use statixagent.Tgui.Tokens.{
  Intent, Check, confirmed, Token, TokenState, Tokens, epoch_len, nonce_len, token_ttl, new_tokens,
  claim, new_token,
}
use statixagent.Tgui.Tokens.Press.{Wins}
use statixagent.Tgui.Tokens.Runs.{
  TokenOp, minting, rebinding, yes_press, no_press, finishing, Press, apply, Run, stop, call,
  WellFormed, new_tokens-WellFormed, new_tokens-Run,
}
use statixagent.Tgui.Tokens.SingleUse.{NeverConfirmed, Run-WellFormed, claim_iff, single_use}
use statixagent.Tgui.Tokens.Provenance.{WasMinted, onto, confirmed-WasMinted}

abbrev epoch : Str
epoch = codes "e0e0"

abbrev nonce : Str
nonce = codes "abcdefghijkl"

abbrev reboot : Intent
reboot = record {
  action = codes "reboot";
  target = codes "";
  actor_id = pos 7;
  chat_id = pos 42;
  message_id = pos 0;
  final = false;
}

abbrev shown : Intent
shown = record reboot { message_id = pos 5 }

abbrev yes_at : TokenOp
yes_at = yes_press (codes "e0e0abcdefghijkl") (pos 7) (pos 42) (pos 5) 3000

-- The question is asked and its message known; Yes is pressed twice; the action ends.
abbrev asked : List TokenOp
asked = minting reboot token_ttl (some nonce) 1000 1001 ∷ rebinding nonce (pos 5) ∷ []

abbrev pressed : List TokenOp
pressed = yes_at ∷ yes_at ∷ finishing nonce ∷ no_press nonce (pos 7) (pos 42) (pos 5) 4000 ∷ []

abbrev store : Tokens
store = record {
  epoch = epoch;
  tokens = (nonce, record (new_token reboot token_ttl nonce 1001) { intent = shown }) ∷ [];
  order = nonce ∷ [];
}

abbrev yes_again : Option Press
yes_again = some (record { nonce = nonce; intent = shown; check = Check.running })

abbrev no_late : Option Press
no_late = some (record { nonce = nonce; intent = shown; check = Check.done })

abbrev answers : List (Option Press)
answers =
    some (record { nonce = nonce; intent = shown; check = confirmed })
    ∷ yes_again
    ∷ none
    ∷ no_late
    ∷ []

Run-asked : Run (new_tokens epoch) asked (none ∷ none ∷ []) store
unfolding apply new_tokens statixagent.Prelude.Map.get statixagent.Prelude.Map.put
Run-asked = call refl (call refl stop)

abbrev answered : Tokens
answered = record {
  epoch = epoch;
  tokens =
      (
        nonce,
        record (new_token reboot token_ttl nonce 1001) { intent = shown; state = TokenState.done },
      )
      ∷ [];
  order = nonce ∷ [];
}

Run-pressed : Run store pressed answers answered
unfolding apply statixagent.Prelude.Map.get statixagent.Prelude.Map.put
Run-pressed = call refl (call refl (call refl (call refl stop)))

claim_shown : (claim store (codes "e0e0abcdefghijkl") (pos 7) (pos 42) (pos 5) 3000).2 ≡ confirmed
unfolding claim statixagent.Prelude.Map.get
claim_shown = refl

store-WellFormed : WellFormed store
store-WellFormed = Run-WellFormed Run-asked (new_tokens-WellFormed epoch)

new_tokens-Run_example :
    (ps : List (Option Press)) × (t : Tokens) × Run (new_tokens epoch) pressed ps t × WellFormed t
new_tokens-Run_example = new_tokens-Run epoch pressed

single_use_example : NeverConfirmed nonce (yes_again ∷ none ∷ no_late ∷ [])
single_use_example = single_use store-WellFormed Run-pressed refl (λ e. e, (λ e. e, (λ e. e, tt)))

claim_iff_example :
    ((claim store (codes "e0e0abcdefghijkl") (pos 7) (pos 42) (pos 5) 3000).2 ≡ confirmed) ↔ (
      (length (codes "e0e0abcdefghijkl") ≡ epoch_len + nonce_len)
      × (take epoch_len (codes "e0e0abcdefghijkl") ≡ store.epoch)
      × (tok : Token) × Wins store nonce (pos 7) (pos 42) (pos 5) 3000 tok)
claim_iff_example = claim_iff store (codes "e0e0abcdefghijkl") (pos 7) (pos 42) (pos 5) 3000

confirmed-WasMinted_example :
    (tok : Token) × WasMinted nonce tok (onto asked [])
    × (tok.intent.actor_id ≡ pos 7)
    × (tok.intent.chat_id ≡ pos 42)
    × (3000 < tok.expires)
    × ((claim store (codes "e0e0abcdefghijkl") (pos 7) (pos 42) (pos 5) 3000).1 ≡ tok.intent)
confirmed-WasMinted_example =
    confirmed-WasMinted epoch (codes "e0e0abcdefghijkl") (pos 7) (pos 42) (pos 5) 3000 Run-asked
      claim_shown
