-- ===== src/Brute.antt =====
-- internal/sshwatch/brute.go: the brute-force detector. The mutex is left out: each method holds it
-- throughout. `range` over a map visits each key once, in an order that the result does not depend on.
pub mod Sweep
pub mod Windows
pub mod Spec
pub mod Refines
mod Examples
use statixagent.Prelude.{
  ℕ, suc, Bool, true, false, not, ◌||◌, Option, none, some, List, [], ◌∷◌, ◌++◌, map, str_eq,
  length, if◌then◌else◌,
}
use statixagent.Prelude.Int.{ℤ, pos, ltb_ℤ}
use statixagent.Prelude.Text.{Str}
use statixagent.Prelude.Time.{Time, Duration, before, sub_lt}
use statixagent.Prelude.Map.{Map, get, put, del, or_else}

pub record BruteDetector : Type 0 where
  pub window : Duration
  pub threshold : ℤ
  pub attempts : Map Str (List Time)
  pub fired : Map Str Time
  pub last_sweep : Time

unfoldable pub new_brute_detector : Duration → ℤ → BruteDetector
new_brute_detector window threshold = record {
  window = window;
  threshold = threshold;
  attempts = [];
  fired = [];
  last_sweep = 0;
}

-- The rest of the loop, with the newest so far.
unfoldable pub newest_from : Time → List Time → Time
newest_from newest [] = newest
newest_from newest (t ∷ ts) = newest_from (if before newest t then t else newest) ts

-- `len(times) == 0 || !newestAttempt(times).After(cutoff)`, the cutoff being `now` less the window;
-- the caller asks for the newest attempt of no empty list.
unfoldable pub is_stale : Duration → Time → List Time → Bool
unfolding newest_from
is_stale window now [] = true
is_stale window now (t ∷ ts) = not (sub_lt now (newest_from t ts) window)

unfoldable pub prune_one : Time → Str → BruteDetector → BruteDetector
prune_one now ip b = elim (get b.attempts ip) [
  | none ↦ b
  | some times ↦
      if is_stale b.window now times
      then record b { attempts = del b.attempts ip; fired = del b.fired ip }
      else b
]

unfoldable pub prune_each : Time → List Str → BruteDetector → BruteDetector
prune_each now [] b = b
prune_each now (ip ∷ ips) b = prune_each now ips (prune_one now ip b)

unfoldable pub keys {ℓ} : {V : Type ℓ} → Map Str V → List Str
keys [] = []
keys ((k, v) ∷ m) = k ∷ keys m

unfoldable pub prune : Time → BruteDetector → BruteDetector
prune now b = prune_each now (keys b.attempts) b

-- The attempts after the cutoff, in order.
unfoldable pub still : Duration → Time → List Time → List Time
still window at [] = []
still window at (t ∷ ts) =
    let rest = still window at ts in if sub_lt at t window then t ∷ rest else rest

-- The sweep that `Record` makes first, once a window.
unfoldable pub sweep : Time → BruteDetector → BruteDetector
sweep at b = if sub_lt at b.last_sweep b.window then b else record (prune at b) { last_sweep = at }

-- `last, ok := b.fired[ip]; ok && at.Sub(last) < b.Window` on the value that was found
abbrev pub in_quiet : Duration → Time → Option Time → Bool
in_quiet window at none = false
in_quiet window at (some last) = sub_lt at last window

-- The body of `Record` after the sweep.
unfoldable pub register : Str → Time → BruteDetector → BruteDetector × Bool
unfolding still
register ip at b =
    let kept = still b.window at (or_else (get b.attempts ip) []) ++ at ∷ [] in
    let counted = record b { attempts = put b.attempts ip kept } in
    if ltb_ℤ (pos (length kept)) b.threshold
    then (counted, false)
    else (record counted { fired = put b.fired ip at }, not (in_quiet b.window at (get b.fired ip)))

-- `Record`
unfoldable pub record_attempt : Str → Time → BruteDetector → BruteDetector × Bool
record_attempt ip at b = register ip at (sweep at b)

unfoldable pub count_from : Duration → Time → ℕ → List Time → ℕ
count_from window now n [] = n
count_from window now n (t ∷ ts) =
    count_from window now (if sub_lt now t window then suc n else n) ts

-- `Count`
unfoldable pub count : BruteDetector → Str → Time → ℕ
unfolding count_from
count b ip now = count_from b.window now 0 (or_else (get b.attempts ip) [])
