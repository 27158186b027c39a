-- ===== src/Tgui/Tokens/Press.antt =====
-- What a press of Yes or Cancel finds, and what it does to the store.
use statixagent.Prelude.{
  ◌<◌, ◌≡◌, ◌⊎◌, inl, inr, false, some, ◌==◌, str_eq, nat_eq, Option-cases, arith,
}
use statixagent.Prelude.Int.{ℤ, pos, int_eq, int_beq_iff}
use statixagent.Prelude.Text.{Str}
use statixagent.Prelude.Time.{Time}
use statixagent.Prelude.Map.{get}
use statixagent.Tgui.Tokens.{
  Check, confirmed, expired, Token, pending, Tokens, remove, take_token, take_state,
}

Check-discrete : Discrete Check
Check-discrete = hlevel

-- The token that a press wins.
pub record Wins (t : Tokens) (nonce : Str) (actor_id chat_id message_id : ℤ) (now : Time)
    (tok : Token) : Type 0 where
  pub stored : get t.tokens nonce ≡ some tok
  pub fresh : now < tok.expires
  pub same_chat : tok.intent.chat_id ≡ chat_id
  pub same_message : tok.intent.message_id ≡ message_id
  pub known_message : (message_id == pos 0) ≡ false
  pub same_actor : tok.intent.actor_id ≡ actor_id
  pub is_pending : tok.state ≡ pending

module _ (t : Tokens) (nonce : Str) (actor_id chat_id message_id : ℤ) (now : Time)
    (win : Tokens → Token → Tokens) where
  pub confirmed-Wins :
      (tok : Token)
      → get t.tokens nonce ≡ some tok
      → (take_token t nonce actor_id chat_id message_id now win).2 ≡ confirmed
      → Wins t nonce actor_id chat_id message_id now tok
  unfolding take_token take_state
  confirmed-Wins tok s h = ground (
    arith,
    int_beq_iff tok.intent.chat_id chat_id,
    int_beq_iff tok.intent.message_id message_id,
    int_beq_iff tok.intent.actor_id actor_id,
  )

  pub take_of_Wins :
      (tok : Token)
      → Wins t nonce actor_id chat_id message_id now tok
      → take_token t nonce actor_id chat_id message_id now win ≡ (win t tok, tok.intent, confirmed)
  unfolding take_token take_state
  take_of_Wins tok w = ground (
    arith,
    w.stored,
    int_beq_iff tok.intent.chat_id chat_id,
    int_beq_iff tok.intent.message_id message_id,
    int_beq_iff tok.intent.actor_id actor_id,
  )

  pub stored_of_confirmed :
      (take_token t nonce actor_id chat_id message_id now win).2 ≡ confirmed
      → (tok : Token) × (get t.tokens nonce ≡ some tok)
  unfolding take_token
  stored_of_confirmed h = elim (Option-cases (get t.tokens nonce)) [
    | inl absent ↦ absurd (ground arith)
    | inr found ↦ found
  ]

  -- A press that is not confirmed changes nothing, or drops its own expired token.
  pub take_not_confirmed :
      ((take_token t nonce actor_id chat_id message_id now win).2 ≡ confirmed → ⊥)
      → ((take_token t nonce actor_id chat_id message_id now win).0 ≡ t)
        ⊎ (((take_token t nonce actor_id chat_id message_id now win).0 ≡ remove t nonce)
            × ((take_token t nonce actor_id chat_id message_id now win).2 ≡ expired))
  unfolding take_token take_state
  take_not_confirmed h = ground arith

  pub take_of_confirmed :
      (take_token t nonce actor_id chat_id message_id now win).2 ≡ confirmed
      → (tok : Token) × Wins t nonce actor_id chat_id message_id now tok
        × (take_token t nonce actor_id chat_id message_id now win
            ≡ (win t tok, tok.intent, confirmed))
  take_of_confirmed c =
      let (tok, s) = stored_of_confirmed c in
      let w = confirmed-Wins tok s c in (tok, w, take_of_Wins tok w)

  -- A press is confirmed and wins a pending token, or changes nothing but its own expired token.
  pub take_cases :
      (let r = take_token t nonce actor_id chat_id message_id now win in
        (r.0 ≡ t) ⊎ ((r.0 ≡ remove t nonce) × (r.2 ≡ expired)))
      ⊎ ((tok : Token) × Wins t nonce actor_id chat_id message_id now tok
          × (take_token t nonce actor_id chat_id message_id now win
              ≡ (win t tok, tok.intent, confirmed)))
  take_cases =
      elim (Check-discrete (take_token t nonce actor_id chat_id message_id now win).2 confirmed) [
        | yes c ↦ inr (take_of_confirmed c)
        | no n ↦ inl (take_not_confirmed n)
      ]
