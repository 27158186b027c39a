-- ===== src/Tgui/Tokens/SingleUse.antt =====
-- A confirm token is won once, and only by the user who asked, in the message of the question.
use mathlib.Core.Path.{subst, subst₂}
use mathlib.Core.Bool.{false≢true}
use statixagent.Prelude.{
  ◌+◌, ◌≡◌, refl, ◌∙◌, sym, ap, inl, inr, ◌↔◌, Bool, true, false, not, ◌||◌, Option, none, some,
  List, [], ◌∷◌, ◌==◌, ==_iff, str_eq, nat_eq, length, take, drop, Bool-cases, arith,
}
use statixagent.Prelude.Int.{ℤ}
use statixagent.Prelude.Text.{Str}
use statixagent.Prelude.Time.{Time}
use statixagent.Prelude.Map.{get, get-put_self, get-del}
use statixagent.Tgui.Tokens.{
  Intent, Check, confirmed, Token, Tokens, epoch_len, nonce_len, is_pending, remove, take_token,
  set_running, claim, cancel,
}
use statixagent.Tgui.Tokens.Press.{Wins, take_of_confirmed, take_of_Wins}
use statixagent.Tgui.Tokens.Runs.{
  TokenOp, minting, rebinding, yes_press, no_press, finishing, Press, apply, Run, stop, call,
  WellFormed, apply-WellFormed,
}
use statixagent.Tgui.Tokens.Follow.{Follows, Mints, apply-Follows, minting_result}

abbrev pending_in : Option Token → Bool
pending_in none = false
pending_in (some tok) = is_pending tok.state

pending_of_Follows :
    (old new : Option Token) → Follows old new → pending_in old ≡ false → pending_in new ≡ false
pending_of_Follows old none f h = refl
pending_of_Follows none (some new) f h = absurd f
pending_of_Follows (some old) (some new) f h = ground (arith, f.7)

-- What a confirmed Yes was checked for, and what it leaves.
pub claim_lem :
    (t : Tokens) (arg : Str) (actor_id chat_id message_id : ℤ) (now : Time)
    → let nonce = drop epoch_len arg in
      let r = claim t arg actor_id chat_id message_id now in
      let Won = λ (tok : Token). Wins t nonce actor_id chat_id message_id now tok in
      let IsOurs = (length arg ≡ epoch_len + nonce_len) × (take epoch_len arg ≡ t.epoch) in
      (r.2 ≡ confirmed → IsOurs × ((tok : Token) × Won tok))
      × (IsOurs → (tok : Token) → Won tok → r ≡ (set_running nonce t tok, tok.intent, confirmed))
unfolding claim
claim_lem t arg actor_id chat_id message_id now =
    let nonce = drop epoch_len arg in
    let bad = not (length arg == epoch_len + nonce_len) || not (take epoch_len arg == t.epoch) in
    (
      λ c.
          let well : bad ≡ false = ground arith in
          let (tok, wins, _) =
            take_of_confirmed t nonce actor_id chat_id message_id now (set_running nonce)
              (rw well at c) in
          ((ground arith, (==_iff (take epoch_len arg) t.epoch).0 (ground arith)), (tok, wins)),
      λ ours tok wins.
          let well : bad ≡ false = ground (arith, ==_iff (take epoch_len arg) t.epoch) in
          rw well
            (take_of_Wins t nonce actor_id chat_id message_id now (set_running nonce) tok wins),
    )

-- A Yes is confirmed exactly if its argument is this process's epoch and a nonce of the right length,
-- and the nonce's token has not expired, was asked for by the user who presses, in that chat and on
-- that message (which is known), and is still pending.
pub claim_iff :
    (t : Tokens) (arg : Str) (actor_id chat_id message_id : ℤ) (now : Time)
    → ((claim t arg actor_id chat_id message_id now).2 ≡ confirmed) ↔ (
        (length arg ≡ epoch_len + nonce_len)
        × (take epoch_len arg ≡ t.epoch)
        × (tok : Token) × Wins t (drop epoch_len arg) actor_id chat_id message_id now tok)
claim_iff t arg actor_id chat_id message_id now =
    let (only, back) = claim_lem t arg actor_id chat_id message_id now in
    (
      λ c. let ((l, e), (tok, wins)) = only c in (l, e, tok, wins),
      λ h. ap (λ (r : Tokens × Intent × Check). r.2) (back (h.0, h.1) h.2 h.3),
    )

won_by_take :
    (t : Tokens) (j : Str) (actor_id chat_id message_id : ℤ) (now : Time)
    (win : Tokens → Token → Tokens)
    → ((tok : Token) → get t.tokens j ≡ some tok → pending_in (get (win t tok).tokens j) ≡ false)
    → (take_token t j actor_id chat_id message_id now win).2 ≡ confirmed
    → pending_in (get (take_token t j actor_id chat_id message_id now win).0.tokens j) ≡ false
won_by_take t j actor_id chat_id message_id now win won h =
    let (tok, wins, r) = take_of_confirmed t j actor_id chat_id message_id now win h in
    rw r (won tok wins.stored)

lost_by_take :
    (t : Tokens) (j : Str) (actor_id chat_id message_id : ℤ) (now : Time)
    (win : Tokens → Token → Tokens)
    → (take_token t j actor_id chat_id message_id now win).2 ≡ confirmed
    → pending_in (get t.tokens j) ≡ true
lost_by_take t j actor_id chat_id message_id now win h =
    let (tok, wins, r) = take_of_confirmed t j actor_id chat_id message_id now win h in
    rw wins.stored (rw wins.is_pending)

-- A confirmed press found its token pending and leaves it used up.
record UsesUp (t t' : Tokens) (n : Str) : Type 0 where
  was_pending : pending_in (get t.tokens n) ≡ true
  used : pending_in (get t'.tokens n) ≡ false

claim-UsesUp :
    (t : Tokens) (arg : Str) (actor_id chat_id message_id : ℤ) (now : Time)
    → (claim t arg actor_id chat_id message_id now).2 ≡ confirmed
    → UsesUp t (claim t arg actor_id chat_id message_id now).0 (drop epoch_len arg)
unfolding claim
claim-UsesUp t arg actor_id chat_id message_id now h =
    elim (Bool-cases
      (not (length arg == epoch_len + nonce_len) || not (take epoch_len arg == t.epoch))) [
        | inl bad ↦ absurd (ground arith)
        | inr well ↦
            let nonce = drop epoch_len arg in
            let taken = rw well at h in
            record {
              was_pending =
                  lost_by_take t nonce actor_id chat_id message_id now (set_running nonce) taken;
              used = rw well (
                  won_by_take t nonce actor_id chat_id message_id now (set_running nonce)
                    (λ tok s. rw get-put_self refl) taken);
            }
      ]

cancel-UsesUp :
    (t : Tokens) (n : Str) (actor_id chat_id message_id : ℤ) (now : Time)
    → WellFormed t
    → (cancel t n actor_id chat_id message_id now).2 ≡ confirmed
    → UsesUp t (cancel t n actor_id chat_id message_id now).0 n
unfolding cancel
cancel-UsesUp t n actor_id chat_id message_id now w h =
    elim (Bool-cases (not (length n == nonce_len))) [
      | inl bad ↦ absurd (ground arith)
      | inr well ↦
          let taken = rw well at h in
          record {
            was_pending =
                lost_by_take t n actor_id chat_id message_id now (λ t tok. remove t tok.nonce)
                  taken;
            used = rw well (
                won_by_take t n actor_id chat_id message_id now (λ t tok. remove t tok.nonce)
                  (λ tok s. removed t n tok (w.named n tok s)) taken);
          }
    ]
  where
    removed :
        (t : Tokens) (n : Str) (tok : Token)
        → tok.nonce ≡ n
        → pending_in (get (remove t tok.nonce).tokens n) ≡ false
    removed t n tok e =
        unfold remove in ground (arith, get-del t.tokens tok.nonce n, ==_iff tok.nonce n)

confirmed-UsesUp :
    (t t' : Tokens) (o : TokenOp) (p : Press)
    → WellFormed t
    → apply t o ≡ some (t', some p)
    → p.check ≡ confirmed
    → UsesUp t t' p.nonce
unfolding apply
confirmed-UsesUp t t' (minting intent ttl none evicted now) p w h c = absurd (ground arith)
confirmed-UsesUp t t' (minting intent ttl (some j) evicted now) p w h c =
    absurd (ground (arith, minting_result t t' intent ttl j evicted now (some p) w h))
confirmed-UsesUp t t' (rebinding j message_id) p w h c = absurd (ground arith)
confirmed-UsesUp t t' (yes_press arg actor_id chat_id message_id now) p w h c =
    let s : (claim t arg actor_id chat_id message_id now).0 ≡ t' = ground arith in
    let n : drop epoch_len arg ≡ p.nonce = ground arith in
    subst₂ (λ x k. UsesUp t x k) s n
      (claim-UsesUp t arg actor_id chat_id message_id now (ground arith))
confirmed-UsesUp t t' (no_press j actor_id chat_id message_id now) p w h c =
    let s : (cancel t j actor_id chat_id message_id now).0 ≡ t' = ground arith in
    let n : j ≡ p.nonce = ground arith in
    subst₂ (λ x k. UsesUp t x k) s n
      (cancel-UsesUp t j actor_id chat_id message_id now w (ground arith))
confirmed-UsesUp t t' (finishing j) p w h c = absurd (ground arith)

-- None of the presses of a nonce was confirmed; no call minted it.
abbrev pub NeverConfirmed : Str → List (Option Press) → Type 0
NeverConfirmed n [] = Unit
NeverConfirmed n (none ∷ ps) = NeverConfirmed n ps
NeverConfirmed n (some p ∷ ps) = (p.nonce ≡ n → p.check ≡ confirmed → ⊥) × NeverConfirmed n ps

abbrev pub NeverMinted : Str → List TokenOp → Type 0
NeverMinted n [] = Unit
NeverMinted n (o ∷ os) = (Mints n o → ⊥) × NeverMinted n os

pub apply-WellFormed_at :
    (t t' : Tokens) (o : TokenOp) (p : Option Press)
    → WellFormed t
    → apply t o ≡ some (t', p)
    → WellFormed t'
apply-WellFormed_at t t' o p w h =
    let (u, q, returns, wf) = apply-WellFormed t o w in
    let e : u ≡ t' = ground arith in subst WellFormed e wf

not_confirmed :
    (t t' : Tokens) (o : TokenOp) (p : Press) (n : Str)
    → WellFormed t
    → apply t o ≡ some (t', some p)
    → pending_in (get t.tokens n) ≡ false
    → p.nonce ≡ n
    → p.check ≡ confirmed
    → ⊥
not_confirmed t t' o p n w h used e c =
    let was = rw e at ((confirmed-UsesUp t t' o p w h c).was_pending) in false≢true (sym used ∙ was)

NeverConfirmed-cons :
    (t t' : Tokens) (o : TokenOp) (p : Option Press) (n : Str) (ps : List (Option Press))
    → WellFormed t
    → apply t o ≡ some (t', p)
    → pending_in (get t.tokens n) ≡ false
    → NeverConfirmed n ps
    → NeverConfirmed n (p ∷ ps)
NeverConfirmed-cons t t' o none n ps w h used rest = rest
NeverConfirmed-cons t t' o (some p) n ps w h used rest = (not_confirmed t t' o p n w h used, rest)

used-Run :
    {t t' : Tokens} {os : List TokenOp} {ps : List (Option Press)} (n : Str)
    → Run t os ps t'
    → WellFormed t
    → pending_in (get t.tokens n) ≡ false
    → NeverMinted n os
    → NeverConfirmed n ps
used-Run n stop w used m = tt
used-Run n (call {t} {t'} {t''} {o} {os} {p} {ps} h r) w used m =
    let later = pending_of_Follows _ _ (apply-Follows t t' o p n w h m.0) used in
    NeverConfirmed-cons t t' o p n ps w h used
      (used-Run n r (apply-WellFormed_at t t' o p w h) later m.1)

-- Of the presses of a token at most one is confirmed: once a Yes or a Cancel of a nonce is confirmed, no
-- later press of it is, by anyone and at any time, whatever other calls are made in between, unless the
-- nonce is minted again.
pub single_use :
    {t t' : Tokens} {o : TokenOp} {os : List TokenOp} {p : Press} {ps : List (Option Press)}
    → WellFormed t
    → Run t (o ∷ os) (some p ∷ ps) t'
    → p.check ≡ confirmed
    → NeverMinted p.nonce os
    → NeverConfirmed p.nonce ps
single_use {o = o} {p = p} w (call {t} {t'} h r) c m =
    used-Run p.nonce r (apply-WellFormed_at t t' o (some p) w h)
      (confirmed-UsesUp t t' o p w h c).used m

pub Run-WellFormed :
    {t t' : Tokens} {os : List TokenOp} {ps : List (Option Press)}
    → Run t os ps t'
    → WellFormed t
    → WellFormed t'
Run-WellFormed stop w = w
Run-WellFormed (call {t} {t'} {t''} {o} {os} {p} {ps} h r) w =
    Run-WellFormed r (apply-WellFormed_at t t' o p w h)
