-- ===== src/Agent/Authorize.antt =====
-- internal/agent/authorize.go: the gate for text commands and button presses.
use statixagent.Prelude.{
  ◌≡◌, ◌↔◌, refl, ◌∙◌, ◌⊎◌, inl, inr, Bool, true, false, not, ◌||◌, List, [], ◌∷◌, ◌==◌, ==_iff,
  str_eq, mem?, Bool-cases, arith, if◌then◌else◌, ℕ, ◌+◌, ◌≤◌,
}
use statixagent.Prelude.Int.{ℤ, int_eq}
use statixagent.Prelude.Text.{Str, codes}

pub record Sender : Type 0 where
  pub chat_id : ℤ
  pub from_id : ℤ
  pub chat_type : Str
  pub relayed : Bool

pub data Verdict : Type 0 where
  allowed ignored admin_only : Verdict

-- What the gate reads and keeps: the configured chat and admins, whether the notice to a group without
-- admins was sent, and how many were pushed.
pub record Gate : Type 0 where
  pub chat : ℤ
  pub admins : List ℤ
  pub group_notice_sent : Bool
  pub notices : ℕ

unfoldable pub send_notice : Gate → Gate
send_notice g =
    if not g.group_notice_sent
    then record g { group_notice_sent = true; notices = g.notices + 1 }
    else g

abbrev pub is_group : Str → Bool
is_group t = t == codes "group" || t == codes "supergroup" || t == codes "channel"

abbrev pub no_admins : List ℤ → Bool
no_admins [] = true
no_admins (a ∷ admins) = false

unfoldable pub authorize : Gate → Sender → Bool → Gate × Verdict
unfolding send_notice
authorize g s view =
    if not (s.chat_id == g.chat)
    then (g, ignored)
    else if s.relayed
    then (g, ignored)
    else if s.chat_type == []
    then (g, allowed)
    else if s.chat_type == codes "private"
    then (if not (s.from_id == s.chat_id) then (g, ignored) else (g, allowed))
    else if is_group s.chat_type
    then (if no_admins g.admins
        then (send_notice g, allowed)
        else if view || mem? s.from_id g.admins
        then (g, allowed)
        else (g, admin_only))
    else (g, ignored)

-- Who may do what, by the kind of chat.
abbrev pub MayIn : Gate → Sender → Bool → Type 0
MayIn g s view =
    (s.chat_type ≡ [])
    ⊎ ((s.chat_type ≡ codes "private") × (s.from_id ≡ s.chat_id))
    ⊎ ((is_group s.chat_type ≡ true)
        × ((no_admins g.admins ≡ true) ⊎ (view ≡ true) ⊎ (mem? s.from_id g.admins ≡ true)))

not_both : (t a b : Str) → (t == a) ≡ true → (a == b) ≡ false → (t == b) ≡ false
not_both t a b h k = ground (arith, ==_iff t a, ==_iff t b, ==_iff a b)

is_group-other :
    (t : Str) → is_group t ≡ true → ((t == []) ≡ false) × ((t == codes "private") ≡ false)
is_group-other t h =
    let P = λ (l : Str).
      (t == l) ≡ true
      → ((l == []) ≡ false) × ((l == codes "private") ≡ false)
      → ((t == []) ≡ false) × ((t == codes "private") ≡ false) in
    let one : (l : Str) → P l =
      λ l e d. (not_both t l [] e d.0, not_both t l (codes "private") e d.1) in
    elim (Bool-cases (t == codes "group")) [
      | inl e ↦ one (codes "group") e (refl, refl)
      | inr n ↦ elim (Bool-cases (t == codes "supergroup")) [
        | inl e ↦ one (codes "supergroup") e (refl, refl)
        | inr m ↦ one (codes "channel") (ground arith) (refl, refl)
      ]
    ]

-- An update is allowed exactly if it comes from the configured chat, its author is who it appears to come
-- from, and the chat is a private one with the sender, or a group in which there are no admins, the
-- update only reads state or its sender is an admin; or the update was made without a chat type.
pub authorize-allowed_iff :
    (g : Gate) (s : Sender) (view : Bool)
    → ((authorize g s view).1 ≡ allowed)
      ↔ ((s.chat_id ≡ g.chat) × (s.relayed ≡ false) × MayIn g s view)
unfolding authorize
authorize-allowed_iff g s view = (
  λ h. ground (
    arith,
    ==_iff s.chat_id g.chat,
    ==_iff s.chat_type [],
    ==_iff s.chat_type (codes "private"),
    ==_iff s.from_id s.chat_id,
  ),
  λ h. elim h.2 [
    | inl e ↦ ground (arith, ==_iff s.chat_id g.chat, ==_iff s.chat_type [])
    | inr (inl (t, f)) ↦ ground (
      arith,
      ==_iff s.chat_id g.chat,
      ==_iff s.chat_type (codes "private"),
      ==_iff s.from_id s.chat_id,
    )
    | inr (inr (group, may)) ↦
        let (not_empty, not_private) = is_group-other s.chat_type group in
        let ours = (==_iff s.chat_id g.chat).1 h.0 in
        elim may [
          | inl none_ ↦ ground arith
          | inr (inl only_view) ↦ ground arith
          | inr (inr admin) ↦ ground arith
        ]
  ],
)

abbrev pub authorize_all : Gate → List (Sender × Bool) → Gate
authorize_all g [] = g
authorize_all g ((s, view) ∷ us) = authorize_all (authorize g s view).0 us

abbrev unsent : Gate → ℕ
unsent g = if g.group_notice_sent then 0 else 1

authorize-unsent :
    (g : Gate) (s : Sender) (view : Bool)
    → (authorize g s view).0.notices + unsent (authorize g s view).0 ≡ g.notices + unsent g
unfolding authorize send_notice
authorize-unsent g s view = ground arith

authorize_all-unsent :
    (g : Gate) (us : List (Sender × Bool))
    → (authorize_all g us).notices + unsent (authorize_all g us) ≡ g.notices + unsent g
authorize_all-unsent g [] = refl
authorize_all-unsent g ((s, view) ∷ us) =
    authorize_all-unsent (authorize g s view).0 us ∙ authorize-unsent g s view

-- Through any updates the notice is pushed once at most, and never if it was already sent.
authorize_all-notices :
    (g : Gate) (us : List (Sender × Bool))
    → (authorize_all g us).notices ≤ g.notices + (if g.group_notice_sent then 0 else 1)
authorize_all-notices g us = omega (arith, authorize_all-unsent g us)
