-- ===== src/Firewall/Pending/Valid.antt =====
-- The store of pending plans stays well-formed.
use statixagent.Prelude.{
  ◌<◌, ◌≤◌, ◌≡◌, refl, ◌∙◌, ◌⊎◌, inl, inr, true, none, some, [], ◌∷◌, ◌==◌, ==_iff, str_eq, length,
  length-append, Option-cases, arith,
}
use statixagent.Prelude.Text.{Str}
use statixagent.Prelude.Time.{Time}
use statixagent.Prelude.Map.{get, get-put, get-del}
use statixagent.Expiry.{drop_oldest}
use statixagent.Expiry.Evict.{
  Distinct, Matched, Shrinks-trans, Shrinks-left, Matched-left, drop_expired_lem, drop_oldest_room,
  drop_oldest-Matched, drop_oldest-Shrinks,
}
use statixagent.Expiry.Keys.{
  mem?-append, Distinct-append, mem?-without, Distinct-without, length-without,
}
use statixagent.Firewall.Pending.{
  PlanReq, Plans, max_plans, plan_expiry, keep_plan, plans_of, put_plan, get_plan, forget,
  take_plan,
}

-- The order has each id of the map once, and no more than the limit.
pub record IsValid (s : Plans) : Type 0 where
  pub distinct : Distinct s.order
  pub matched : Matched s.order s.m
  pub bounded : length s.order ≤ max_plans

keep_plan-IsValid :
    (r : PlanReq) (s : Plans)
    → Distinct s.order
    → Matched s.order s.m
    → length s.order < max_plans
    → get s.m r.id ≡ none
    → IsValid (keep_plan r s)
unfolding keep_plan
keep_plan-IsValid r s d h room absent = record {
  distinct = Distinct-append s.order r.id d (ground (arith, h r.id));
  matched = λ j. ground (arith, get-put s.m r.id j r, mem?-append s.order r.id j, h j);
  bounded = omega (arith, length-append s.order (r.id ∷ []), room);
}

-- What is stored after a plan is put: the plan, and of the others no more than were there.
pub record Stored (s : Plans) (r : PlanReq) (s' : Plans) : Type 0 where
  pub valid : IsValid s'
  pub there : get s'.m r.id ≡ some r
  pub others : (j : Str) → (r.id == j) ≡ true ⊎ (get s'.m j ≡ get s.m j) ⊎ (get s'.m j ≡ none)

-- Putting a plan under a fresh id never panics; after it the plan is stored, the others are as they were or
-- gone, and there are at most 32 plans, each once in the order.
pub put_plan-IsValid :
    (s : Plans) (r : PlanReq) (now : Time)
    → IsValid s
    → get s.m r.id ≡ none
    → (s' : Plans) × (put_plan s r now ≡ some s') × Stored s r s'
unfolding put_plan keep_plan
put_plan-IsValid s r now h fresh =
    let d = drop_expired_lem plan_expiry now s.order s.m h.distinct (λ n e. h.matched n ∙ e) in
    let kept =
      drop_oldest-Matched max_plans d.left d.store d.distinct
        (Matched-left plan_expiry now s.order s.m h.matched d) in
    let lost =
      Shrinks-trans _ _ _ (Shrinks-left plan_expiry now s.order s.m h.matched d)
        (drop_oldest-Shrinks max_plans d.left d.store) in
    let left = plans_of (drop_oldest max_plans d.left d.store) in
    (
      keep_plan r left,
      rw (put_plan, d.returns) refl,
      record {
        valid =
            keep_plan-IsValid r left kept.0 kept.1
              (drop_oldest_room max_plans d.left d.store (omega arith)) (ground (arith, lost r.id));
        there = ground (arith, get-put left.m r.id r.id r, ==_iff r.id r.id);
        others = λ j. ground (arith, get-put left.m r.id j r, lost j);
      },
    )

forget-IsValid : (s : Plans) (id : Str) → IsValid s → IsValid (forget s id)
unfolding forget
forget-IsValid s id h = record {
  distinct = Distinct-without s.order id h.distinct;
  matched =
      λ j. ground (arith, get-del s.m id j, mem?-without s.order id j, h.matched j, ==_iff id j);
  bounded = omega (arith, length-without s.order id, h.bounded);
}

-- Taking a plan leaves a store that is well-formed.
pub take_plan-IsValid :
    (s : Plans) (id : Str) (now : Time) → IsValid s → IsValid (take_plan s id now).1
unfolding take_plan
take_plan-IsValid s id now h = elim (Option-cases (get_plan s id now)) [
  | inl gone ↦ rw (take_plan, gone) h
  | inr (r, there) ↦ rw (take_plan, there) (forget-IsValid s id h)
]
