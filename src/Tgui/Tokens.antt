-- ===== src/Tgui/Tokens.antt =====
-- internal/tgui/confirm.go: the confirm tokens. The mutex is left out: each method holds it over all
-- its accesses to the store. The clock's readings and what the random source gave are arguments. A
-- `nil` dereference, which would panic, is `none` of `evict`.
pub mod Evict
pub mod Press
pub mod Runs
pub mod Follow
pub mod SingleUse
pub mod Provenance
mod Examples
use statixagent.Prelude.{
  ℕ, ◌+◌, Bool, true, false, not, ◌&&◌, ◌||◌, Option, none, some, List, [], ◌∷◌, ◌++◌, ◌==◌, str_eq,
  nat_eq, length, take, drop, without, leb, ltb, if◌then◌else◌,
}
use statixagent.Prelude.Int.{ℤ, pos, int_eq}
use statixagent.Prelude.Text.{Str, codes}
use statixagent.Prelude.Time.{Time, before}
use statixagent.Prelude.Map.{is_some, Map, get, put, del}
use statixagent.Expiry.{drop_expired, drop_oldest}
use statixagent.Tgui.Codec.{Call}

abbrev pub act_yes : Str
act_yes = codes "y"

abbrev pub act_no : Str
act_no = codes "n"

-- `TokenTTL`, 120 seconds in nanoseconds
abbrev pub token_ttl : ℕ
token_ttl = 120_000_000_000

abbrev pub max_tokens : ℕ
max_tokens = 256

abbrev pub epoch_len : ℕ
epoch_len = 4

abbrev pub nonce_len : ℕ
nonce_len = 12

pub record Intent : Type 0 where
  pub action : Str
  pub target : Str
  pub actor_id : ℤ
  pub chat_id : ℤ
  pub message_id : ℤ
  pub final : Bool

-- `Intent{}`
abbrev pub no_intent : Intent
no_intent = record {
  action = [];
  target = [];
  actor_id = pos 0;
  chat_id = pos 0;
  message_id = pos 0;
  final = false;
}

pub data Check : Type 0 where
  confirmed stale expired wrong_actor running done : Check

pub data TokenState : Type 0 where
  pending running done : TokenState

pub record Token : Type 0 where
  pub intent : Intent
  pub nonce : Str
  pub expires : Time
  pub state : TokenState

pub record Tokens : Type 0 where
  pub epoch : Str
  pub tokens : Map Str Token
  pub order : List Str

-- `NewTokens`, for the epoch that the random source gave
unfoldable pub new_tokens : Str → Tokens
new_tokens epoch = record { epoch = epoch; tokens = []; order = [] }

-- The clock at which a token expires.
abbrev pub expiry : Token → Time
expiry tok = tok.expires

unfoldable pub evict : Tokens → Time → Option Tokens
unfolding drop_expired drop_oldest
evict t now =
    if ltb (length t.order) max_tokens
    then some t
    else elim (drop_expired expiry now t.order t.tokens) [
      | none ↦ none
      | some (ns, m) ↦
          let (ns', m') = drop_oldest max_tokens ns m in
          some (record t { tokens = m'; order = ns' })
    ]

pub data Minted : Type 0 where
  minted : Str → Minted
  rand_failed : Minted
  nonce_reused : Minted

abbrev pub new_token : Intent → ℕ → Str → Time → Token
new_token in_ ttl nonce now = record {
  intent = in_;
  nonce = nonce;
  expires = now + ttl;
  state = pending;
}

-- The end of `MintTTL`: the new token goes last.
unfoldable pub add_token : Tokens → Intent → ℕ → Str → Time → Tokens
add_token t in_ ttl nonce now = record t {
  tokens = put t.tokens nonce (new_token in_ ttl nonce now);
  order = t.order ++ nonce ∷ [];
}

-- `MintTTL`, for the nonce that the random source gave, if it did; the clock is read for the eviction
-- and again for the expiry. `none` is a panic.
unfoldable pub mint_ttl : Tokens → Intent → ℕ → Option Str → Time → Time → Option (Tokens × Minted)
unfolding add_token evict
mint_ttl t in_ ttl none evicted now = some (t, rand_failed)
mint_ttl t in_ ttl (some nonce) evicted now =
    if is_some (get t.tokens nonce) then some (t, nonce_reused) else elim (evict t evicted) [
      | none ↦ none
      | some t' ↦ some (add_token t' in_ ttl nonce now, minted nonce)
    ]

-- `Mint`
unfoldable pub mint : Tokens → Intent → Option Str → Time → Time → Option (Tokens × Minted)
unfolding mint_ttl
mint t in_ nonce evicted now = mint_ttl t in_ token_ttl nonce evicted now

unfoldable pub remove : Tokens → Str → Tokens
remove t nonce = record t { tokens = del t.tokens nonce; order = without nonce t.order }

-- The calls of the Yes and Cancel buttons.
unfoldable pub yes_call : Tokens → Str → Call
yes_call t nonce = record { act = act_yes; args = (t.epoch ++ nonce) ∷ []; from = [] }

unfoldable pub no_call : Str → Call
no_call nonce = record { act = act_no; args = nonce ∷ []; from = [] }

-- `Nonce`
unfoldable pub nonce_of : Str → Str
nonce_of arg = if not (length arg == epoch_len + nonce_len) then [] else drop epoch_len arg

abbrev pub is_pending : TokenState → Bool
is_pending pending = true
is_pending _ = false

unfoldable pub rebind : Tokens → Str → ℤ → Tokens
rebind t nonce message_id = elim (get t.tokens nonce) [
  | none ↦ t
  | some tok ↦
      if is_pending tok.state
      then record t {
        tokens =
            put t.tokens nonce
              (record tok { intent = record tok.intent { message_id = message_id } });
      }
      else t
]

-- The end of `take`: the verdict on a token that passed the other checks.
unfoldable pub take_state :
    Tokens → Token → TokenState → (Tokens → Token → Tokens) → Tokens × Intent × Check
take_state t tok running win = (t, tok.intent, Check.running)
take_state t tok done win = (t, tok.intent, Check.done)
take_state t tok pending win = (win t tok, tok.intent, confirmed)

-- `take`; `win` is what it applies to a token that passes the checks.
unfoldable pub take_token :
    Tokens → Str → ℤ → ℤ → ℤ → Time → (Tokens → Token → Tokens) → Tokens × Intent × Check
unfolding take_state remove
take_token t nonce actor_id chat_id message_id now win = elim (get t.tokens nonce) [
  | none ↦ (t, no_intent, stale)
  | some tok ↦
      if not (before now tok.expires)
      then (remove t nonce, tok.intent, expired)
      else if not (tok.intent.chat_id == chat_id)
          || not (tok.intent.message_id == message_id)
          || message_id == pos 0
      then (t, tok.intent, stale)
      else if not (tok.intent.actor_id == actor_id)
      then (t, tok.intent, wrong_actor)
      else take_state t tok tok.state win
]

-- `tok.state = running`, through the pointer that the store holds
abbrev set_running : Str → Tokens → Token → Tokens
set_running nonce t tok = record t {
  tokens = put t.tokens nonce (record tok { state = TokenState.running });
}

unfoldable pub claim : Tokens → Str → ℤ → ℤ → ℤ → Time → Tokens × Intent × Check
unfolding take_token
claim t arg actor_id chat_id message_id now =
    if not (length arg == epoch_len + nonce_len) || not (take epoch_len arg == t.epoch)
    then (t, no_intent, stale)
    else (let nonce = drop epoch_len arg in
        take_token t nonce actor_id chat_id message_id now (set_running nonce))

unfoldable pub cancel : Tokens → Str → ℤ → ℤ → ℤ → Time → Tokens × Intent × Check
unfolding take_token
cancel t nonce actor_id chat_id message_id now =
    if not (length nonce == nonce_len)
    then (t, no_intent, stale)
    else take_token t nonce actor_id chat_id message_id now (λ t tok. remove t tok.nonce)

-- `Finish`
unfoldable pub finish : Tokens → Str → Tokens
finish t nonce = elim (get t.tokens nonce) [
  | none ↦ t
  | some tok ↦ record t { tokens = put t.tokens nonce (record tok { state = TokenState.done }) }
]
