-- ===== src/Tgui/Tokens/Follow.antt =====
-- What each call makes of the token under one nonce.
use mathlib.Core.Path.{subst}
use statixagent.Prelude.{
  ℕ, ◌+◌, ◌≡◌, refl, sym, ◌⊎◌, inl, inr, true, false, not, ◌||◌, Option, none, some, ◌==◌, ==_iff,
  str_eq, nat_eq, length, take, drop, Bool-cases, Option-cases, arith,
}
use statixagent.Prelude.Int.{ℤ}
use statixagent.Prelude.Text.{Str}
use statixagent.Prelude.Time.{Time}
use statixagent.Prelude.Map.{Map, get, put, get-put, get-del}
use statixagent.Tgui.Tokens.{
  Intent, Token, Tokens, epoch_len, nonce_len, is_pending, add_token, remove, rebind, take_token,
  claim, cancel, finish,
}
use statixagent.Expiry.Evict.{Shrinks}
use statixagent.Tgui.Tokens.Evict.{evict_lem}
use statixagent.Tgui.Tokens.Press.{take_cases}
use statixagent.Tgui.Tokens.Runs.{
  TokenOp, minting, rebinding, yes_press, no_press, finishing, Press, apply, WellFormed,
}

-- What a call makes of a stored token: it is gone, or it keeps all but its message and its state, and it
-- is not pending unless it was before.
abbrev pub Follows : Option Token → Option Token → Type 0
Follows old none = Unit
Follows none (some new) = ⊥
Follows (some old) (some new) =
    (new.nonce ≡ old.nonce)
    × (new.expires ≡ old.expires)
    × (new.intent.action ≡ old.intent.action)
    × (new.intent.target ≡ old.intent.target)
    × (new.intent.actor_id ≡ old.intent.actor_id)
    × (new.intent.chat_id ≡ old.intent.chat_id)
    × (new.intent.final ≡ old.intent.final)
    × (is_pending new.state ≡ true → is_pending old.state ≡ true)

pub Follows-refl : (o : Option Token) → Follows o o
Follows-refl none = tt
Follows-refl (some tok) = (refl, refl, refl, refl, refl, refl, refl, λ p. p)

-- The calls that can put a token under a nonce.
abbrev pub Mints : Str → TokenOp → Type 0
Mints n (minting intent ttl (some nonce) evicted now) = nonce ≡ n
Mints n o = ⊥

-- A token under another nonce stays.
eq-Follows : {o o' : Option Token} → o' ≡ o → Follows o o'
eq-Follows {o} {o'} e = subst (λ x. Follows o x) (sym e) (Follows-refl o)

remove-Follows : (t : Tokens) (j n : Str) → Follows (get t.tokens n) (get (remove t j).tokens n)
unfolding remove
remove-Follows t j n = elim (Bool-cases (j == n)) [
  | inl same ↦ rw (get-del, same) tt
  | inr other ↦ rw (get-del, other) (Follows-refl (get t.tokens n))
]

update-Follows :
    (m : Map Str Token) (j n : Str) (tok tok' : Token)
    → get m j ≡ some tok
    → Follows (some tok) (some tok')
    → Follows (get m n) (get (put m j tok') n)
update-Follows m j n tok tok' s f = elim (Bool-cases (j == n)) [
  | inl same ↦ rw (get-put, same, ← (==_iff j n).0 same, s) f
  | inr other ↦ rw (get-put, other) (Follows-refl (get m n))
]

take_token-Follows :
    (t : Tokens) (j n : Str) (actor_id chat_id message_id : ℤ) (now : Time)
    (win : Tokens → Token → Tokens)
    → ((tok : Token)
        → get t.tokens j ≡ some tok
        → Follows (get t.tokens n) (get (win t tok).tokens n))
    → Follows (get t.tokens n) (get (take_token t j actor_id chat_id message_id now win).0.tokens n)
take_token-Follows t j n actor_id chat_id message_id now win won =
    elim (take_cases t j actor_id chat_id message_id now win) [
      | inl (inl same) ↦ rw same (Follows-refl (get t.tokens n))
      | inl (inr gone) ↦ rw gone.0 (remove-Follows t j n)
      | inr (tok, wins, r) ↦ rw r (won tok wins.stored)
    ]

claim-Follows :
    (t : Tokens) (arg n : Str) (actor_id chat_id message_id : ℤ) (now : Time)
    → Follows (get t.tokens n) (get (claim t arg actor_id chat_id message_id now).0.tokens n)
unfolding claim
claim-Follows t arg n actor_id chat_id message_id now =
    elim (Bool-cases
      (not (length arg == epoch_len + nonce_len) || not (take epoch_len arg == t.epoch))) [
        | inl bad ↦ rw bad (Follows-refl (get t.tokens n))
        | inr well ↦ rw well (
            take_token-Follows t (drop epoch_len arg) n actor_id chat_id message_id now _ (λ tok s.
              update-Follows t.tokens _ n tok _ s
                (refl, refl, refl, refl, refl, refl, refl, λ p. cc)))
      ]

cancel-Follows :
    (t : Tokens) (j n : Str) (actor_id chat_id message_id : ℤ) (now : Time)
    → Follows (get t.tokens n) (get (cancel t j actor_id chat_id message_id now).0.tokens n)
unfolding cancel
cancel-Follows t j n actor_id chat_id message_id now =
    elim (Bool-cases (not (length j == nonce_len))) [
      | inl bad ↦ rw bad (Follows-refl (get t.tokens n))
      | inr well ↦ rw well (
          take_token-Follows t j n actor_id chat_id message_id now _
            (λ tok s. remove-Follows t tok.nonce n))
    ]

finish-Follows : (t : Tokens) (j n : Str) → Follows (get t.tokens n) (get (finish t j).tokens n)
unfolding finish
finish-Follows t j n = elim (Option-cases (get t.tokens j)) [
  | inl absent ↦ rw (absent, finish) (Follows-refl (get t.tokens n))
  | inr (tok, s) ↦
      rw (s, finish)
        (update-Follows t.tokens j n tok _ s (refl, refl, refl, refl, refl, refl, refl, λ p. cc))
]

rebind-Follows :
    (t : Tokens) (j n : Str) (message_id : ℤ)
    → Follows (get t.tokens n) (get (rebind t j message_id).tokens n)
unfolding rebind
rebind-Follows t j n message_id = elim (Option-cases (get t.tokens j)) [
  | inl absent ↦ rw (absent, rebind) (Follows-refl (get t.tokens n))
  | inr (tok, s) ↦ elim (Bool-cases (is_pending tok.state)) [
    | inl p ↦
        rw (s, p, rebind)
          (update-Follows t.tokens j n tok _ s (refl, refl, refl, refl, refl, refl, refl, λ p. p))
    | inr p ↦ rw (s, p, rebind) (Follows-refl (get t.tokens n))
  ]
]

pub Shrinks-Follows : (m m' : Map Str Token) (n : Str) → Shrinks m m' → Follows (get m n) (get m' n)
Shrinks-Follows m m' n h = elim (h n) [
  | inl same ↦ rw same (Follows-refl (get m n))
  | inr gone ↦ rw gone tt
]

pub not_eq : (j n : Str) → (j ≡ n → ⊥) → (j == n) ≡ false
not_eq j n h = elim (Bool-cases (j == n)) [
  | inl same ↦ absurd (h ((==_iff j n).0 same))
  | inr other ↦ other
]

mint-Follows :
    (t t' : Tokens) (intent : Intent) (ttl : ℕ) (j n : Str) (now : Time)
    → (j == n) ≡ false
    → Shrinks t.tokens t'.tokens
    → Follows (get t.tokens n) (get (add_token t' intent ttl j now).tokens n)
unfolding add_token
mint-Follows t t' intent ttl j n now other h =
    rw (get-put, other) (Shrinks-Follows t.tokens t'.tokens n h)

-- What minting leaves, whether or not the nonce was free.
pub minting_result :
    (t t' : Tokens) (intent : Intent) (ttl : ℕ) (j : Str) (evicted now : Time) (p : Option Press)
    → WellFormed t
    → apply t (minting intent ttl (some j) evicted now) ≡ some (t', p)
    → (p ≡ none)
      × ((t' ≡ t)
          ⊎ ((e : Tokens) × Shrinks t.tokens e.tokens × (t' ≡ add_token e intent ttl j now)))
unfolding apply
minting_result t t' intent ttl j evicted now p w h = elim (Option-cases (get t.tokens j)) [
  | inl absent ↦
      let (e, returns, ev) = evict_lem t evicted w.distinct w.matched in
      (ground (arith, returns), inr (e, ev.shrinks, ground (arith, returns)))
  | inr (tok, s) ↦ (ground arith, inl (ground arith))
]

pub apply-Follows :
    (t t' : Tokens) (o : TokenOp) (p : Option Press) (n : Str)
    → WellFormed t
    → apply t o ≡ some (t', p)
    → (Mints n o → ⊥)
    → Follows (get t.tokens n) (get t'.tokens n)
apply-Follows t t' (minting intent ttl none evicted now) p n w h no_mint =
    let e : t ≡ t' = unfold apply in ground arith in rw (sym e) (Follows-refl (get t.tokens n))
apply-Follows t t' (minting intent ttl (some j) evicted now) p n w h no_mint =
    elim (minting_result t t' intent ttl j evicted now p w h).1 [
      | inl same ↦ rw same (Follows-refl (get t.tokens n))
      | inr (e, shrinks, added) ↦
          rw added (mint-Follows t e intent ttl j n now (not_eq j n no_mint) shrinks)
    ]
apply-Follows t t' (rebinding j message_id) p n w h no_mint =
    let e : t' ≡ rebind t j message_id = unfold apply in ground arith in
    rw e (rebind-Follows t j n message_id)
apply-Follows t t' (yes_press arg actor_id chat_id message_id now) p n w h no_mint =
    let e : t' ≡ (claim t arg actor_id chat_id message_id now).0 = unfold apply in ground arith in
    rw e (claim-Follows t arg n actor_id chat_id message_id now)
apply-Follows t t' (no_press j actor_id chat_id message_id now) p n w h no_mint =
    let e : t' ≡ (cancel t j actor_id chat_id message_id now).0 = unfold apply in ground arith in
    rw e (cancel-Follows t j n actor_id chat_id message_id now)
apply-Follows t t' (finishing j) p n w h no_mint =
    let e : t' ≡ finish t j = unfold apply in ground arith in rw e (finish-Follows t j n)
