-- ===== src/Tgui/Tokens/Provenance.antt =====
-- Every stored token was minted: a forged Yes names nothing.
use mathlib.Core.Path.{subst}
use statixagent.Prelude.{
  ℕ, ◌+◌, ◌<◌, ◌≡◌, refl, ◌∙◌, sym, ap, ◌⊎◌, inl, inr, Option, none, some, List, [], ◌∷◌, ◌==◌,
  ==_iff, str_eq, nat_eq, drop, Bool-cases, arith,
}
use statixagent.Prelude.Int.{ℤ}
use statixagent.Prelude.Text.{Str}
use statixagent.Prelude.Time.{Time}
use statixagent.Prelude.Map.{get, get-nil, get-put}
use statixagent.Tgui.Tokens.{
  Intent, confirmed, Token, Tokens, epoch_len, new_tokens, new_token, add_token, claim,
}
use statixagent.Expiry.Evict.{Shrinks}
use statixagent.Tgui.Tokens.Runs.{
  TokenOp, minting, rebinding, yes_press, no_press, finishing, Press, apply, Run, stop, call,
  WellFormed, new_tokens-WellFormed,
}
use statixagent.Tgui.Tokens.Follow.{Follows, Shrinks-Follows, Mints, apply-Follows, minting_result}
use statixagent.Tgui.Tokens.SingleUse.{apply-WellFormed_at, claim_lem}

-- A token is as one that the call minted, but for its message and its state.
abbrev pub MintedBy : Str → Token → TokenOp → Type 0
MintedBy n tok (minting intent ttl (some nonce) evicted now) =
    (nonce ≡ n)
    × (tok.expires ≡ now + ttl)
    × (tok.intent.action ≡ intent.action)
    × (tok.intent.target ≡ intent.target)
    × (tok.intent.actor_id ≡ intent.actor_id)
    × (tok.intent.chat_id ≡ intent.chat_id)
    × (tok.intent.final ≡ intent.final)
MintedBy n tok o = ⊥

abbrev pub WasMinted : Str → Token → List TokenOp → Type 0
WasMinted n tok [] = ⊥
WasMinted n tok (o ∷ os) = MintedBy n tok o ⊎ WasMinted n tok os

abbrev Known : Tokens → List TokenOp → Type 0
Known t past = (n : Str) (tok : Token) → get t.tokens n ≡ some tok → WasMinted n tok past

MintedBy-Follows :
    (n : Str) (o : TokenOp) (old new : Token)
    → Follows (some old) (some new)
    → MintedBy n old o
    → MintedBy n new o
MintedBy-Follows n (minting intent ttl (some nonce) evicted now) old new f m = ground arith
MintedBy-Follows n (minting intent ttl none evicted now) old new f m = m
MintedBy-Follows n (rebinding j message_id) old new f m = m
MintedBy-Follows n (yes_press arg actor_id chat_id message_id now) old new f m = m
MintedBy-Follows n (no_press j actor_id chat_id message_id now) old new f m = m
MintedBy-Follows n (finishing j) old new f m = m

WasMinted-Follows :
    (n : Str) (past : List TokenOp) (old new : Token)
    → Follows (some old) (some new)
    → WasMinted n old past
    → WasMinted n new past
WasMinted-Follows n [] old new f m = m
WasMinted-Follows n (o ∷ past) old new f (inl m) = inl (MintedBy-Follows n o old new f m)
WasMinted-Follows n (o ∷ past) old new f (inr m) = inr (WasMinted-Follows n past old new f m)

Known-Follows :
    (n : Str) (past : List TokenOp) (o : Option Token) (tok : Token)
    → Follows o (some tok)
    → ((old : Token) → o ≡ some old → WasMinted n old past)
    → WasMinted n tok past
Known-Follows n past none tok f k = absurd f
Known-Follows n past (some old) tok f k = WasMinted-Follows n past old tok f (k old refl)

Follows-some :
    (old : Option Token) {new : Option Token} (tok : Token)
    → new ≡ some tok
    → Follows old new
    → Follows old (some tok)
Follows-some old tok e f = subst (λ x. Follows old x) e f

Known-add :
    (t e : Tokens) (intent : Intent) (ttl : ℕ) (j : Str) (evicted now : Time) (past : List TokenOp)
    → Known t past
    → Shrinks t.tokens e.tokens
    → Known (add_token e intent ttl j now) (minting intent ttl (some j) evicted now ∷ past)
unfolding add_token
Known-add t e intent ttl j evicted now past k h = λ n tok s. elim (Bool-cases (j == n)) [
  | inl same ↦
      let is : new_token intent ttl j now ≡ tok =
        ground (arith, get-put e.tokens j n (new_token intent ttl j now)) in
      inl (
        subst (λ x. MintedBy n x (minting intent ttl (some j) evicted now)) is
          ((==_iff j n).0 same, refl, refl, refl, refl, refl, refl))
  | inr other ↦ inr (
      Known-Follows n past (get t.tokens n) tok
        (Follows-some (get t.tokens n) tok
          (ground (arith, get-put e.tokens j n (new_token intent ttl j now)))
          (Shrinks-Follows t.tokens e.tokens n h))
        (k n))
]

Known-follow :
    (t t' : Tokens) (o : TokenOp) (past : List TokenOp)
    → Known t past
    → ((n : Str) → Follows (get t.tokens n) (get t'.tokens n))
    → Known t' (o ∷ past)
Known-follow t t' o past k f = λ n tok s. inr (
    Known-Follows n past (get t.tokens n) tok (subst (λ x. Follows (get t.tokens n) x) s (f n))
      (k n))

other-Known :
    (t t' : Tokens) (o : TokenOp) (p : Option Press) (past : List TokenOp)
    → WellFormed t
    → apply t o ≡ some (t', p)
    → Known t past
    → ((n : Str) → Mints n o → ⊥)
    → Known t' (o ∷ past)
other-Known t t' o p past w h k no_mint =
    Known-follow t t' o past k (λ n. apply-Follows t t' o p n w h (no_mint n))

apply-Known :
    (t t' : Tokens) (o : TokenOp) (p : Option Press) (past : List TokenOp)
    → WellFormed t
    → apply t o ≡ some (t', p)
    → Known t past
    → Known t' (o ∷ past)
apply-Known t t' (minting intent ttl (some j) evicted now) p past w h k =
    elim (minting_result t t' intent ttl j evicted now p w h).1 [
      | inl same ↦ λ n tok s. inr (k n tok (ap (λ (x : Tokens). get x.tokens n) (sym same) ∙ s))
      | inr (e, shrinks, added) ↦ rw added (Known-add t e intent ttl j evicted now past k shrinks)
    ]
apply-Known t t' (minting intent ttl none evicted now) p past w h k =
    other-Known t t' (minting intent ttl none evicted now) p past w h k (λ n m. m)
apply-Known t t' (rebinding j message_id) p past w h k =
    other-Known t t' (rebinding j message_id) p past w h k (λ n m. m)
apply-Known t t' (yes_press arg a c m now) p past w h k =
    other-Known t t' (yes_press arg a c m now) p past w h k (λ n x. x)
apply-Known t t' (no_press j a c m now) p past w h k =
    other-Known t t' (no_press j a c m now) p past w h k (λ n x. x)
apply-Known t t' (finishing j) p past w h k = other-Known t t' (finishing j) p past w h k (λ n m. m)

none-Known : (epoch : Str) → Known (new_tokens epoch) []
unfolding new_tokens
none-Known epoch = λ n tok s. absurd (ground (arith, get-nil {V = Token} n))

-- The calls of a run, newest first, on top of earlier ones.
abbrev pub onto : List TokenOp → List TokenOp → List TokenOp
onto [] past = past
onto (o ∷ os) past = onto os (o ∷ past)

Run-Known :
    {t t' : Tokens} {os : List TokenOp} {ps : List (Option Press)} (past : List TokenOp)
    → Run t os ps t'
    → WellFormed t
    → Known t past
    → Known t' (onto os past)
Run-Known past stop w k = k
Run-Known past (call {t} {t'} {t''} {o} {os} {p} {ps} h r) w k =
    Run-Known (o ∷ past) r (apply-WellFormed_at t t' o p w h) (apply-Known t t' o p past w h k)

-- After any calls on a new store, a Yes that is confirmed stands for a question that was asked: some call
-- minted its nonce, for the user who presses now and the chat that is pressed in, and what is confirmed
-- is the action, target and screen of that call. It is pressed before that call's time to live is over.
pub confirmed-WasMinted :
    (epoch : Str) {os : List TokenOp} {ps : List (Option Press)} {t : Tokens} (arg : Str)
    (actor_id chat_id message_id : ℤ) (now : Time)
    → Run (new_tokens epoch) os ps t
    → (claim t arg actor_id chat_id message_id now).2 ≡ confirmed
    → (tok : Token) × WasMinted (drop epoch_len arg) tok (onto os [])
      × (tok.intent.actor_id ≡ actor_id)
      × (tok.intent.chat_id ≡ chat_id)
      × (now < tok.expires)
      × ((claim t arg actor_id chat_id message_id now).1 ≡ tok.intent)
confirmed-WasMinted epoch {t = t} arg actor_id chat_id message_id now r c =
    let (only, back) = claim_lem t arg actor_id chat_id message_id now in
    let (ours, (tok, wins)) = only c in
    let known = Run-Known [] r (new_tokens-WellFormed epoch) (none-Known epoch) in
    (
      tok,
      known (drop epoch_len arg) tok wins.stored,
      wins.same_actor,
      wins.same_chat,
      wins.fresh,
      ap (λ q. q.1) (back ours tok wins),
    )
