-- ===== src/Brute/Refines.antt =====
-- The detector over a whole history of attempts, against the reference.
use mathlib.Core.Path.{ap₂, subst, subst₂}
use mathlib.Core.List.{append-nil, append_assoc}
use native.Mathlib.Nat.{zero-add}
use statixagent.Prelude.{
  ◌≤◌, ◌≡◌, refl, sym, ◌∙◌, ap, inl, inr, Bool, true, List, [], ◌∷◌, ◌++◌, length, str_eq, ◌==◌,
  Bool-cases, arith, if◌then◌else◌,
}
use statixagent.Prelude.Int.{ℤ}
use statixagent.Prelude.Text.{Str}
use statixagent.Prelude.Time.{Time, Duration}
use statixagent.Prelude.Map.{get, or_else}
use statixagent.Brute.{
  BruteDetector, new_brute_detector, prune, prune_each, prune_one, keys, still, sweep, register,
  record_attempt, count,
}
use statixagent.Brute.Sweep.{part}
use statixagent.Brute.Windows.{count_from-still, still-congr}
use statixagent.Brute.Spec.{
  Seen, unseen, see, Sim, Sim-later, Sim-sweep, register-take_in, Sim-take_in,
}

-- The attempts of one address in a history, and what the detector and the reference report of them.
abbrev pub Attempts : Type 0
Attempts = List (Str × Time)

abbrev pub times_of : Str → Attempts → List Time
times_of ip [] = []
times_of ip ((j, at) ∷ h) = if j == ip then at ∷ times_of ip h else times_of ip h

unfoldable pub watch : BruteDetector → Attempts → BruteDetector
watch b [] = b
watch b ((j, at) ∷ h) = watch (record_attempt j at b).0 h

unfoldable pub alarms : Str → BruteDetector → Attempts → List Bool
alarms ip b [] = []
alarms ip b ((j, at) ∷ h) =
    let rest = alarms ip (record_attempt j at b).0 h in
    if j == ip then (record_attempt j at b).1 ∷ rest else rest

unfoldable pub see_all : Duration → ℤ → Seen → List Time → Seen
see_all w threshold s [] = s
see_all w threshold s (at ∷ ts) = see_all w threshold (see w threshold at s).0 ts

unfoldable pub spec_alarms : Duration → ℤ → Seen → List Time → List Bool
spec_alarms w threshold s [] = []
spec_alarms w threshold s (at ∷ ts) =
    (see w threshold at s).1 ∷ spec_alarms w threshold (see w threshold at s).0 ts

-- The attempts are recorded in the order of their times.
abbrev pub InOrder : Time → Attempts → Type 0
InOrder now [] = Unit
InOrder now ((j, at) ∷ h) = (now ≤ at) × InOrder at h

abbrev pub last_time : Time → Attempts → Time
last_time now [] = now
last_time now ((j, at) ∷ h) = last_time at h

settings-prune_each :
    (now : Time) (ips : List Str) (b : BruteDetector)
    → ((prune_each now ips b).window ≡ b.window) × ((prune_each now ips b).threshold ≡ b.threshold)
unfolding prune_each prune_one
settings-prune_each now [] b = (refl, refl)
settings-prune_each now (ip ∷ ips) b =
    ground (arith, settings-prune_each now ips (prune_one now ip b))

settings-sweep :
    (at : Time) (b : BruteDetector)
    → ((sweep at b).window ≡ b.window) × ((sweep at b).threshold ≡ b.threshold)
unfolding sweep prune
settings-sweep at b = ground (arith, settings-prune_each at (keys b.attempts) b)

settings-record_attempt :
    (ip : Str) (at : Time) (b : BruteDetector)
    → ((record_attempt ip at b).0.window ≡ b.window)
      × ((record_attempt ip at b).0.threshold ≡ b.threshold)
unfolding record_attempt register
settings-record_attempt ip at b = ground (arith, settings-sweep at b)

record_attempt-Sim :
    (j ip : Str) (now at : Time) (b : BruteDetector) (s : Seen)
    → now ≤ at
    → Sim b.window now (part b ip) s
    → Sim b.window at
        (part (record_attempt j at b).0 ip)
        (if j == ip then (see b.window b.threshold at s).0 else s)
      × (j == ip ≡ true → (record_attempt j at b).1 ≡ (see b.window b.threshold at s).1)
unfolding record_attempt
record_attempt-Sim j ip now at b s h m =
    let swept = Sim-sweep b at ip s (Sim-later at h m) in
    let (moved, said) =
      register-take_in j ip at (sweep at b) (settings-sweep at b).0 (settings-sweep at b).1 in
    let (next, agrees) = Sim-take_in b.window at (part (sweep at b) ip) s swept b.threshold in
    elim (Bool-cases (j == ip)) [
      | inl same ↦ rw same (rw (moved, same) next, λ _. said same ∙ agrees)
      | inr other ↦ rw other (rw (moved, other) swept, λ e. cc)
    ]

-- The same under names for the settings.
record_attempt_at :
    (j ip : Str) {w : Duration} {threshold : ℤ} (now at : Time) (b : BruteDetector) (s : Seen)
    → b.window ≡ w
    → b.threshold ≡ threshold
    → now ≤ at
    → Sim w now (part b ip) s
    → Sim w at (part (record_attempt j at b).0 ip) (if j == ip then (see w threshold at s).0 else s)
      × (j == ip ≡ true → (record_attempt j at b).1 ≡ (see w threshold at s).1)
record_attempt_at j ip now at b s ew et h m =
    subst₂
      (λ w t.
        Sim w at (part (record_attempt j at b).0 ip) (if j == ip then (see w t at s).0 else s)
        × (j == ip ≡ true → (record_attempt j at b).1 ≡ (see w t at s).1))
      ew et (record_attempt-Sim j ip now at b s h (subst (λ w. Sim w now (part b ip) s) (sym ew) m))

module _ (ip : Str) (w : Duration) (threshold : ℤ) where
  watch-Sim :
      (now : Time) (b : BruteDetector) (s : Seen) (h : Attempts)
      → b.window ≡ w
      → b.threshold ≡ threshold
      → InOrder now h
      → Sim w now (part b ip) s
      → Sim w (last_time now h) (part (watch b h) ip) (see_all w threshold s (times_of ip h))
        × (alarms ip b h ≡ spec_alarms w threshold s (times_of ip h))
  unfolding watch alarms see_all spec_alarms
  watch-Sim now b s [] ew et o m = (m, refl)
  watch-Sim now b s ((j, at) ∷ h) ew et o m =
      let b' = (record_attempt j at b).0 in
      let (w', t') = settings-record_attempt j at b in
      let (m', said) = record_attempt_at j ip now at b s ew et o.0 m in
      elim (Bool-cases (j == ip)) [
        | inl same ↦
            let (final, rest) =
              watch-Sim at b' (see w threshold at s).0 h (w' ∙ ew) (t' ∙ et) o.1 (rw same at m') in
            rw same (final, ap₂ ◌∷◌ (said same) rest)
        | inr other ↦ rw other (watch-Sim at b' s h (w' ∙ ew) (t' ∙ et) o.1 (rw other at m'))
      ]

Sim-empty : (ip : Str) (w : Duration) → Sim w 0 (get [] ip, get [] ip) unseen
unfolding get
Sim-empty ip w = record { same_window = refl; same_quiet = inl refl; fired_seen = λ f e. cc }

window-watch : (b : BruteDetector) (h : Attempts) → (watch b h).window ≡ b.window
unfolding watch
window-watch b [] = refl
window-watch b ((j, at) ∷ h) =
    window-watch (record_attempt j at b).0 h ∙ (settings-record_attempt j at b).0

all-see :
    (w : Duration) (threshold : ℤ) (at : Time) (s : Seen)
    → (see w threshold at s).0.all ≡ s.all ++ at ∷ []
unfolding see
all-see w threshold at s = ground arith

all-see_all :
    (w : Duration) (threshold : ℤ) (s : Seen) (ts : List Time)
    → (see_all w threshold s ts).all ≡ s.all ++ ts
unfolding see_all
all-see_all w threshold s [] = sym (append-nil s.all)
all-see_all w threshold s (at ∷ ts) =
    all-see_all w threshold (see w threshold at s).0 ts
    ∙ ap (λ l. l ++ ts) (all-see w threshold at s)
    ∙ append_assoc s.all (at ∷ []) ts

-- The detector forgets addresses and old attempts, and this never changes what it reports: for attempts
-- recorded in the order of their times, the reports for each address are those of the reference, which
-- keeps every attempt of that address and sees no other address. That is, an attempt is reported
-- exactly when with it at least `threshold` attempts of its address lie inside the window before it, and
-- the address was not over the threshold less than a window ago. The comment of `BruteDetector` asks for more
-- before the second report, that the address falls silent for a full window: here it need only stay below the
-- threshold for one, and may go on with fewer attempts in it.
pub alarms-spec_alarms :
    (ip : Str) (w : Duration) (threshold : ℤ) (h : Attempts)
    → InOrder 0 h
    → alarms ip (new_brute_detector w threshold) h ≡ spec_alarms w threshold unseen (times_of ip h)
unfolding new_brute_detector
alarms-spec_alarms ip w threshold h o =
    (watch-Sim ip w threshold 0 (new_brute_detector w threshold) unseen h refl refl o
      (Sim-empty ip w)).1

-- After attempts in the order of their times, `Count` at any later time is the number of all attempts
-- ever recorded for the address that lie inside the window.
count-watch :
    (ip : Str) (w : Duration) (threshold : ℤ) (h : Attempts) (now : Time)
    → InOrder 0 h
    → last_time 0 h ≤ now
    → count (watch (new_brute_detector w threshold) h) ip now ≡ length (still w now (times_of ip h))
unfolding new_brute_detector count
count-watch ip w threshold h now o late =
    let b = watch (new_brute_detector w threshold) h in
    let (m, _) =
      watch-Sim ip w threshold 0 (new_brute_detector w threshold) unseen h refl refl o
        (Sim-empty ip w) in
    let known =
      still-congr w (last_time 0 h) now _ _ late m.same_window
      ∙ ap (still w now) (all-see_all w threshold unseen (times_of ip h)) in
    count_from-still b.window now 0 _
    ∙ zero-add _
    ∙ ap (λ v. length (still v now (or_else (get b.attempts ip) [])))
        (window-watch (new_brute_detector w threshold) h)
    ∙ ap length known
