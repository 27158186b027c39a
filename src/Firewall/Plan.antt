-- ===== src/Firewall/Plan.antt =====
-- internal/agent/fwplan.go, fwbackend.go: the plans that add rules, restore a list of rules, or take a
-- plan back.
use statixagent.Prelude.{
  ℕ, ◌+◌, ◌-◌, Bool, true, false, not, ◌&&◌, ◌||◌, Option, none, some, List, [], ◌∷◌, ◌++◌,
  Comparable, ◌==◌, ==_iff, nat_eq, bool_eq, str_eq, ltb, length, arith, ◌≡◌, ◌↔◌, if◌then◌else◌,
  mem?,
}
use statixagent.Prelude.Text.{Str, codes}
use statixagent.Prelude.Strings.{any}
use statixagent.Netip.{NetText, source_eq}
use statixagent.Firewall.Rules.{Rule, Status}
use statixagent.Firewall.Rows.{blank_rule}
use statixagent.Firewall.Specs.{
  FwSpec, Family, both, only_v4, only_v6, is_v6_only, spec_args, spec_rule,
}
use statixagent.Firewall.Simulate.{
  ChangeOp, op_insert, op_prepend, op_add, op_delete, Change, is_delete, same_match, simulate,
}

abbrev pub spec_beq : List Str → List Str → Bool
spec_beq [] [] = true
spec_beq [] (w ∷ ws) = false
spec_beq (v ∷ vs) [] = false
spec_beq (v ∷ vs) (w ∷ ws) = v == w && spec_beq vs ws

pub spec_beq_iff : (v w : List Str) → (spec_beq v w ≡ true) ↔ (v ≡ w)
spec_beq_iff [] [] = ground arith
spec_beq_iff [] (w ∷ ws) = ground arith
spec_beq_iff (v ∷ vs) [] = ground arith
spec_beq_iff (v ∷ vs) (w ∷ ws) = ground (arith, ==_iff v w, spec_beq_iff vs ws)

instance abbrev pub spec_eq : Comparable (List Str)
spec_eq = record { same = spec_beq; same_iff = spec_beq_iff }

abbrev pub family_beq : Family → Family → Bool
family_beq both both = true
family_beq only_v4 only_v4 = true
family_beq only_v6 only_v6 = true
family_beq _ _ = false

-- `fwMaxUserRules`
abbrev pub max_user_rules : ℕ
max_user_rules = 64

abbrev pub deletes : List Str → Change → Bool
deletes spec c = is_delete c.op && c.spec == spec

abbrev pub delete_spec : List Str → Change
delete_spec spec = record { op = op_delete; spec = spec }

abbrev pub add_spec : List Str → Change
add_spec spec = record { op = op_add; spec = spec }

-- What a round of the loops knows: the plan so far, the number of user rules after it, and whether the
-- wanted rule is there.
pub record Planned : Type 0 where
  pub plan : List Change
  pub count : ℕ
  pub present : Bool

-- `inverse`
unfoldable pub inverse : List Change → List Change
inverse [] = []
inverse (c ∷ cs) =
    inverse cs ++ (if is_delete c.op then add_spec c.spec else delete_spec c.spec) ∷ []

-- The specs that the second list has not, as changes.
unfoldable pub missing_as : (List Str → Change) → List (List Str) → List (List Str) → List Change
missing_as change [] others = []
missing_as change (s ∷ specs) others =
    let rest = missing_as change specs others in if mem? s others then rest else change s ∷ rest

unfoldable pub restore_plan : List (List Str) → List (List Str) → List Change
unfolding missing_as
restore_plan cur snap = missing_as delete_spec cur snap ++ missing_as add_spec snap cur

pub data PlanResult : Type 0 where
  planned : List Change → PlanResult
  too_many_rules no_change : PlanResult

module _ (net : NetText) where
  -- A round of the loop over the added rules, for a wanted rule `wr` of family `wfam`.
  unfoldable pub against : Rule → Family → List Str → Planned → Planned
  unfolding spec_rule same_match
  against wr wfam spec p = elim (spec_rule net spec) [
    | none ↦ p
    | some (r, fam) ↦
        if not (family_beq fam wfam) || not (same_match r wr) || any (deletes spec) p.plan
        then p
        else if r.action == wr.action
        then record p { present = true }
        else record p { plan = p.plan ++ delete_spec spec ∷ []; count = p.count - 1 }
  ]

  unfoldable pub against_all : Rule → Family → List (List Str) → Planned → Planned
  unfolding against
  against_all wr wfam [] p = p
  against_all wr wfam (spec ∷ added) p = against_all wr wfam added (against wr wfam spec p)

  -- How a rule is put in: a deny rule first in its family.
  unfoldable pub choose_op : FwSpec → Family → Status → List Change → Bool → ChangeOp
  unfolding simulate
  choose_op s wfam st plan v6 =
      let has_v4 = any (λ (r : Rule). not r.v6) (simulate net st plan v6).rules in
      if not (s.action == codes "deny")
      then op_add
      else if is_v6_only wfam
      then op_prepend
      else if has_v4
      then op_insert
      else op_add

  -- The rule of a spec that the bot writes; one that it could not read would be of any traffic.
  abbrev pub wanted : Option (Rule × Family) → Rule × Family
  wanted (some rf) = rf
  wanted none = (blank_rule, both)

  -- A round of the loop over the specs.
  unfoldable pub plan_spec : List (List Str) → Status → Bool → FwSpec → Planned → Planned
  unfolding against_all choose_op
  plan_spec added st v6 s p =
      let want = spec_args net s in
      let (wr, wfam) = wanted (spec_rule net want) in
      let q = against_all wr wfam added (record p { present = false }) in
      if q.present then q else record q {
        plan = q.plan ++ record { op = choose_op s wfam st q.plan v6; spec = want } ∷ [];
        count = q.count + 1;
      }

  unfoldable pub plan_each : List (List Str) → Status → Bool → List FwSpec → Planned → Planned
  unfolding plan_spec
  plan_each added st v6 [] p = p
  plan_each added st v6 (s ∷ specs) p = plan_each added st v6 specs (plan_spec added st v6 s p)

  abbrev pub no_changes : List Change → Bool
  no_changes [] = true
  no_changes (c ∷ cs) = false

  unfoldable pub plan_specs : List (List Str) → Status → List FwSpec → Bool → PlanResult
  unfolding plan_each
  plan_specs added st specs v6 =
      let p =
        plan_each added st v6 specs (record { plan = []; count = length added; present = false }) in
      if ltb max_user_rules p.count
      then too_many_rules
      else if no_changes p.plan
      then no_change
      else planned p.plan
