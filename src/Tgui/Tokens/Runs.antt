-- ===== src/Tgui/Tokens/Runs.antt =====
-- Sequences of calls on the token store, and the store's invariant: no call of a run panics.
use statixagent.Prelude.{
  ℕ, ◌+◌, ◌≤◌, ◌≡◌, refl, inl, inr, not, ◌||◌, Option, none, some, List, [], ◌∷◌, ◌==◌, ==_iff,
  str_eq, length, length-append, take, drop, nat_eq, Bool-cases, Option-cases, arith,
}
use statixagent.Prelude.Int.{ℤ}
use statixagent.Prelude.Text.{Str}
use statixagent.Prelude.Time.{Time}
use statixagent.Prelude.Map.{get, put, get-nil, get-put, get-del}
use statixagent.Tgui.Tokens.{
  Intent, Check, Token, Tokens, Minted, max_tokens, epoch_len, nonce_len, is_pending, new_tokens,
  new_token, add_token, mint_ttl, remove, rebind, take_token, claim, cancel, finish,
}
use statixagent.Tgui.Tokens.Press.{take_cases}
use statixagent.Expiry.Evict.{Distinct, Matched}
use statixagent.Expiry.Keys.{
  mem?-append, Distinct-append, mem?-without, Distinct-without, length-without,
}
use statixagent.Tgui.Tokens.Evict.{Evicted, evict_lem}

pub data TokenOp : Type 0 where
  minting : Intent → ℕ → Option Str → Time → Time → TokenOp
  rebinding : Str → ℤ → TokenOp
  yes_press : Str → ℤ → ℤ → ℤ → Time → TokenOp
  no_press : Str → ℤ → ℤ → ℤ → Time → TokenOp
  finishing : Str → TokenOp

-- A press with its nonce, and what it was answered.
pub record Press : Type 0 where
  pub nonce : Str
  pub intent : Intent
  pub check : Check

abbrev answer : Str → Tokens × Intent × Check → Tokens × Option Press
answer nonce (t, intent, check) =
    (t, some (record { nonce = nonce; intent = intent; check = check }))

abbrev forget_result : Option (Tokens × Minted) → Option (Tokens × Option Press)
forget_result none = none
forget_result (some (t, r)) = some (t, none)

-- `none` is a panic.
unfoldable pub apply : Tokens → TokenOp → Option (Tokens × Option Press)
unfolding mint_ttl rebind claim cancel finish
apply t (minting intent ttl nonce evicted now) =
    forget_result (mint_ttl t intent ttl nonce evicted now)
apply t (rebinding nonce message_id) = some (rebind t nonce message_id, none)
apply t (yes_press arg actor_id chat_id message_id now) =
    some (answer (drop epoch_len arg) (claim t arg actor_id chat_id message_id now))
apply t (no_press nonce actor_id chat_id message_id now) =
    some (answer nonce (cancel t nonce actor_id chat_id message_id now))
apply t (finishing nonce) = some (finish t nonce, none)

-- A run that returns: the calls, what the presses were answered, and the stores at its ends.
pub data Run : Tokens → List TokenOp → List (Option Press) → Tokens → Type 0 where
  stop : {t : Tokens} → Run t [] [] t
  call :
      {t t' t'' : Tokens} {o : TokenOp} {os : List TokenOp} {p : Option Press}
      {ps : List (Option Press)}
      → apply t o ≡ some (t', p)
      → Run t' os ps t''
      → Run t (o ∷ os) (p ∷ ps) t''

pub record WellFormed (t : Tokens) : Type 0 where
  pub distinct : Distinct t.order
  pub matched : Matched t.order t.tokens
  pub bounded : length t.order ≤ max_tokens
  pub named : (n : Str) (tok : Token) → get t.tokens n ≡ some tok → tok.nonce ≡ n

remove-WellFormed : (t : Tokens) (n : Str) → WellFormed t → WellFormed (remove t n)
unfolding remove
remove-WellFormed t n w = record {
  distinct = Distinct-without t.order n w.distinct;
  matched =
      λ j. ground (arith, get-del t.tokens n j, mem?-without t.order n j, w.matched j, ==_iff n j);
  bounded = omega (arith, length-without t.order n, w.bounded);
  named = λ j tok e. ground (arith, get-del t.tokens n j, w.named j tok);
}

-- A stored token may be replaced.
update-WellFormed :
    (t : Tokens) (n : Str) (tok tok' : Token)
    → get t.tokens n ≡ some tok
    → tok'.nonce ≡ tok.nonce
    → WellFormed t
    → WellFormed (record t { tokens = put t.tokens n tok' })
update-WellFormed t n tok tok' s same w = record {
  distinct = w.distinct;
  matched = λ j. ground (arith, get-put t.tokens n j tok', w.matched j, ==_iff n j);
  bounded = w.bounded;
  named =
      λ j x e. ground (arith, get-put t.tokens n j tok', w.named j x, w.named n tok, ==_iff n j);
}

add_token-WellFormed :
    (t t' : Tokens) (intent : Intent) (ttl : ℕ) (n : Str) (now : Time)
    → WellFormed t
    → get t.tokens n ≡ none
    → Evicted t t'
    → WellFormed (add_token t' intent ttl n now)
unfolding add_token
add_token-WellFormed t t' intent ttl n now w absent e = record {
  distinct = Distinct-append t'.order n e.distinct (ground (arith, e.matched n, e.shrinks n));
  matched = λ j. ground (
    arith,
    get-put t'.tokens n j (new_token intent ttl n now),
    mem?-append t'.order n j,
    e.matched j,
  );
  bounded = omega (arith, e.room, length-append t'.order (n ∷ []));
  named = λ j x h. ground (
    arith,
    get-put t'.tokens n j (new_token intent ttl n now),
    e.shrinks j,
    w.named j x,
    ==_iff n j,
  );
}

take_token-WellFormed :
    (t : Tokens) (n : Str) (actor_id chat_id message_id : ℤ) (now : Time)
    (win : Tokens → Token → Tokens)
    → ((tok : Token) → get t.tokens n ≡ some tok → WellFormed (win t tok))
    → WellFormed t
    → WellFormed (take_token t n actor_id chat_id message_id now win).0
take_token-WellFormed t n actor_id chat_id message_id now win won w =
    elim (take_cases t n actor_id chat_id message_id now win) [
      | inl (inl same) ↦ rw same w
      | inl (inr gone) ↦ rw gone.0 (remove-WellFormed t n w)
      | inr (tok, wins, r) ↦ rw r (won tok wins.stored)
    ]

WellFormed-claim :
    (t : Tokens) (arg : Str) (actor_id chat_id message_id : ℤ) (now : Time)
    → WellFormed t
    → WellFormed (claim t arg actor_id chat_id message_id now).0
unfolding claim
WellFormed-claim t arg actor_id chat_id message_id now w =
    elim (Bool-cases
      (not (length arg == epoch_len + nonce_len) || not (take epoch_len arg == t.epoch))) [
        | inl bad ↦ rw bad w
        | inr well ↦ rw well (
            take_token-WellFormed t (drop epoch_len arg) actor_id chat_id message_id now _
              (λ tok s. update-WellFormed t _ tok _ s refl w) w)
      ]

WellFormed-cancel :
    (t : Tokens) (nonce : Str) (actor_id chat_id message_id : ℤ) (now : Time)
    → WellFormed t
    → WellFormed (cancel t nonce actor_id chat_id message_id now).0
unfolding cancel
WellFormed-cancel t nonce actor_id chat_id message_id now w =
    elim (Bool-cases (not (length nonce == nonce_len))) [
      | inl bad ↦ rw bad w
      | inr well ↦ rw well (
          take_token-WellFormed t nonce actor_id chat_id message_id now _
            (λ tok s. remove-WellFormed t tok.nonce w) w)
    ]

WellFormed-finish : (t : Tokens) (n : Str) → WellFormed t → WellFormed (finish t n)
unfolding finish
WellFormed-finish t n w = elim (Option-cases (get t.tokens n)) [
  | inl absent ↦ rw (absent, finish) w
  | inr (tok, s) ↦ rw (s, finish) (update-WellFormed t n tok _ s refl w)
]

WellFormed-rebind :
    (t : Tokens) (n : Str) (message_id : ℤ) → WellFormed t → WellFormed (rebind t n message_id)
unfolding rebind
WellFormed-rebind t n message_id w = elim (Option-cases (get t.tokens n)) [
  | inl absent ↦ rw (absent, rebind) w
  | inr (tok, s) ↦ elim (Bool-cases (is_pending tok.state)) [
    | inl p ↦ rw (s, p, rebind) (update-WellFormed t n tok _ s refl w)
    | inr p ↦ rw (s, p, rebind) w
  ]
]

-- From a well-formed store every call returns, and leaves a well-formed store.
pub apply-WellFormed :
    (t : Tokens) (o : TokenOp)
    → WellFormed t
    → (t' : Tokens) × (p : Option Press) × (apply t o ≡ some (t', p)) × WellFormed t'
unfolding apply
apply-WellFormed t (minting intent ttl none evicted now) w = (t, none, refl, w)
apply-WellFormed t (minting intent ttl (some n) evicted now) w =
    elim (Option-cases (get t.tokens n)) [
      | inl absent ↦
          let (t', returns, e) = evict_lem t evicted w.distinct w.matched in
          (
            add_token t' intent ttl n now,
            none,
            rw (absent, returns),
            add_token-WellFormed t t' intent ttl n now w absent e,
          )
      | inr (tok, s) ↦ (t, none, rw s, w)
    ]
apply-WellFormed t (rebinding nonce message_id) w =
    (_, _, refl, WellFormed-rebind t nonce message_id w)
apply-WellFormed t (yes_press arg actor_id chat_id message_id now) w =
    (_, _, refl, WellFormed-claim t arg actor_id chat_id message_id now w)
apply-WellFormed t (no_press nonce actor_id chat_id message_id now) w =
    (_, _, refl, WellFormed-cancel t nonce actor_id chat_id message_id now w)
apply-WellFormed t (finishing nonce) w = (_, _, refl, WellFormed-finish t nonce w)

pub new_tokens-WellFormed : (epoch : Str) → WellFormed (new_tokens epoch)
unfolding new_tokens
new_tokens-WellFormed epoch = record {
  distinct = tt;
  matched = λ n. ground (arith, get-nil {V = Token} n);
  bounded = omega arith;
  named = λ n tok e. ground (arith, get-nil {V = Token} n);
}

Run-total :
    (t : Tokens) (os : List TokenOp)
    → WellFormed t
    → (ps : List (Option Press)) × (t' : Tokens) × Run t os ps t' × WellFormed t'
Run-total t [] w = ([], t, stop, w)
Run-total t (o ∷ os) w =
    let (t', p, returns, w') = apply-WellFormed t o w in
    let (ps, final, r, wf) = Run-total t' os w' in (p ∷ ps, final, call returns r, wf)

-- From a new store no sequence of calls panics: each returns, and then the order lists each stored nonce
-- exactly once and no other, at most 256 of them, and each token is stored under its own nonce.
pub new_tokens-Run :
    (epoch : Str) (os : List TokenOp)
    → (ps : List (Option Press)) × (t : Tokens) × Run (new_tokens epoch) os ps t × WellFormed t
new_tokens-Run epoch os = Run-total (new_tokens epoch) os (new_tokens-WellFormed epoch)
