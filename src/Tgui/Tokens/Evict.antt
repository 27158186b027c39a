-- ===== src/Tgui/Tokens/Evict.antt =====
-- Eviction: it never dereferences `nil`, it makes room, and it only takes tokens away.
use statixagent.Prelude.{
  ◌<◌, ◌≡◌, refl, ◌∙◌, inl, inr, some, str_eq, length, ltb, Bool-cases, arith,
}
use statixagent.Prelude.Time.{Time}
use statixagent.Expiry.{drop_oldest}
use statixagent.Expiry.Evict.{
  Distinct, Matched, Shrinks, Shrinks-trans, Shrinks-left, Matched-left, drop_expired_lem,
  drop_oldest_room, drop_oldest-Matched, drop_oldest-Shrinks,
}
use statixagent.Tgui.Tokens.{expiry, Tokens, max_tokens, evict}

-- What an eviction leaves.
pub record Evicted (t t' : Tokens) : Type 0 where
  pub same_epoch : t'.epoch ≡ t.epoch
  pub distinct : Distinct t'.order
  pub matched : Matched t'.order t'.tokens
  pub room : length t'.order < max_tokens
  pub shrinks : Shrinks t.tokens t'.tokens

pub evict_lem :
    (t : Tokens) (now : Time)
    → Distinct t.order
    → Matched t.order t.tokens
    → (t' : Tokens) × (evict t now ≡ some t') × Evicted t t'
unfolding evict
evict_lem t now d h = elim (Bool-cases (ltb (length t.order) max_tokens)) [
  | inl room ↦ (
    t,
    rw room,
    record {
      same_epoch = refl;
      distinct = d;
      matched = h;
      room = ground arith;
      shrinks = λ j. inl refl;
    },
  )
  | inr full ↦
      let r = drop_expired_lem expiry now t.order t.tokens d (λ n. λ e. h n ∙ e) in
      let kept =
        drop_oldest-Matched max_tokens r.left r.store r.distinct
          (Matched-left expiry now t.order t.tokens h r) in
      (
        record t {
          tokens = (drop_oldest max_tokens r.left r.store).1;
          order = (drop_oldest max_tokens r.left r.store).0;
        },
        rw (full, r.returns),
        record {
          same_epoch = refl;
          distinct = kept.0;
          matched = kept.1;
          room = drop_oldest_room max_tokens r.left r.store (omega arith);
          shrinks =
              Shrinks-trans _ _ _ (Shrinks-left expiry now t.order t.tokens h r)
                (drop_oldest-Shrinks max_tokens r.left r.store);
        },
      )
]
