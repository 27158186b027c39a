-- ===== src/Brute/Sweep.antt =====
-- What a sweep does to one address: nothing, or it forgets an address whose attempts are all over.
use statixagent.Prelude.{
  ◌≡◌, refl, ◌&&◌, ◌||◌, if◌then◌else◌, Bool, false, Option, none, some, List, [], ◌∷◌, str_eq,
  ◌==◌, ==_iff, arith,
}
use statixagent.Prelude.Text.{Str}
use statixagent.Prelude.Time.{Time, Duration}
use statixagent.Prelude.Map.{get, get-del}
use statixagent.Brute.{BruteDetector, is_stale, prune_one, prune_each, prune, keys}

-- The attempts of an address are all over.
abbrev pub is_over : Duration → Time → Option (List Time) → Bool
is_over window now none = false
is_over window now (some times) = is_stale window now times

prune_one_lem :
    (now : Time) (j ip : Str) (b : BruteDetector)
    → let over = j == ip && is_over b.window now (get b.attempts ip) in
      (get (prune_one now j b).attempts ip ≡ (if over then none else get b.attempts ip))
      × (get (prune_one now j b).fired ip ≡ (if over then none else get b.fired ip))
unfolding prune_one
prune_one_lem now j ip b = (
  ground (arith, get-del b.attempts j ip, ==_iff j ip),
  ground (arith, get-del b.fired j ip, ==_iff j ip),
)

window-prune_one :
    (now : Time) (j : Str) (b : BruteDetector) → (prune_one now j b).window ≡ b.window
unfolding prune_one
window-prune_one now j b = ground arith

-- What a detector has of an address: its attempts, and when it last fired.
abbrev pub part : BruteDetector → Str → Option (List Time) × Option Time
part b ip = (get b.attempts ip, get b.fired ip)

abbrev pub mem? : Str → List Str → Bool
mem? ip [] = false
mem? ip (j ∷ js) = j == ip || mem? ip js

prune_each-part :
    (now : Time) (js : List Str) (ip : Str) (b : BruteDetector)
    → part (prune_each now js b) ip
      ≡ (if mem? ip js && is_over b.window now (get b.attempts ip) then (none, none) else part b ip)
unfolding prune_each
prune_each-part now [] ip b = refl
prune_each-part now (j ∷ js) ip b = ground (
  arith,
  prune_one_lem now j ip b,
  window-prune_one now j b,
  prune_each-part now js ip (prune_one now j b),
)

mem?-keys :
    {V : Type 0} (m : List (Str × V)) (ip : Str) → mem? ip (keys m) ≡ false → get m ip ≡ none
unfolding keys get
mem?-keys [] ip h = refl
mem?-keys ((j, v) ∷ m) ip h = ground (arith, mem?-keys m ip)

-- The prune forgets exactly the addresses whose attempts have all left the window, and changes nothing
-- of the others.
pub prune-part :
    (now : Time) (ip : Str) (b : BruteDetector)
    → part (prune now b) ip
      ≡ (if is_over b.window now (get b.attempts ip) then (none, none) else part b ip)
unfolding prune
prune-part now ip b =
    ground (arith, prune_each-part now (keys b.attempts) ip b, mem?-keys b.attempts ip)
