-- ===== src/Brute/Spec.antt =====
-- The detector against a reference that never forgets: one history of attempts for each address.
use statixagent.Prelude.{
  ◌+◌, ◌≤◌, ◌≡◌, refl, sym, ◌∙◌, ap, ◌⊎◌, inl, inr, Bool, true, false, not, Option, none, some,
  List, [], ◌∷◌, ◌++◌, length, length-append, str_eq, ◌==◌, ==_iff, Bool-cases, arith,
  if◌then◌else◌,
}
use statixagent.Prelude.Int.{ℤ, pos, ltb_ℤ}
use statixagent.Prelude.Text.{Str}
use statixagent.Prelude.Time.{Time, Duration, sub_lt}
use statixagent.Prelude.Map.{get, get-put, or_else}
use statixagent.Brute.{BruteDetector, is_stale, still, sweep, in_quiet, register}
use statixagent.Brute.Sweep.{is_over, part, prune-part}
use statixagent.Brute.Windows.{
  still-append, still-still, still-congr, AnyGe, AnyGe-append, still_of_is_stale, over_of_is_stale,
}

-- All attempts of an address, oldest first, and when it last reached the threshold.
pub record Seen : Type 0 where
  pub all : List Time
  pub fired : Option Time

abbrev pub unseen : Seen
unseen = record { all = []; fired = none }

-- The attempt is over the threshold if with it there are enough inside the window; then it is
-- reported unless the address was over the threshold less than a window ago.
unfoldable pub see : Duration → ℤ → Time → Seen → Seen × Bool
see w threshold at s =
    let s' = record s { all = s.all ++ at ∷ [] } in
    if ltb_ℤ (pos (length (still w at s.all) + 1)) threshold
    then (s', false)
    else (record s' { fired = some at }, not (in_quiet w at s.fired))

-- The detector, at a time `now`, knows of an address all that can still matter.
pub record Sim (w : Duration) (now : Time) (c : Option (List Time) × Option Time) (s : Seen)
    : Type 0 where
  pub same_window : still w now (or_else c.0 []) ≡ still w now s.all
  pub same_quiet :
      (c.1 ≡ s.fired) ⊎ ((in_quiet w now c.1 ≡ false) × (in_quiet w now s.fired ≡ false))
  pub fired_seen : (f : Time) → c.1 ≡ some f → AnyGe f (or_else c.0 []) × (f ≤ now)

quiet_later :
    (w : Duration) (now at : Time) (f : Option Time)
    → now ≤ at
    → in_quiet w now f ≡ false
    → in_quiet w at f ≡ false
quiet_later w now at none h q = refl
quiet_later w now at (some f) h q = ground arith

pub Sim-later :
    {w : Duration} {now : Time} (at : Time) {c : Option (List Time) × Option Time} {s : Seen}
    → now ≤ at
    → Sim w now c s
    → Sim w at c s
Sim-later {w} {now} at {c} {s} h m = record {
  same_window = still-congr w now at _ _ h m.same_window;
  same_quiet = elim m.same_quiet [
    | inl e ↦ inl e
    | inr q ↦ inr (quiet_later w now at c.1 h q.0, quiet_later w now at s.fired h q.1)
  ];
  fired_seen = λ f e. ((m.fired_seen f e).0, ground (arith, m.fired_seen f e));
}

fired_is_over :
    (w : Duration) (now : Time) (times : List Time) (fired : Option Time)
    → is_stale w now times ≡ true
    → ((f : Time) → fired ≡ some f → AnyGe f times × (f ≤ now))
    → in_quiet w now fired ≡ false
fired_is_over w now times none h seen = refl
fired_is_over w now times (some f) h seen = over_of_is_stale w now f times h (seen f refl).0

Sim-forget :
    (w : Duration) (now : Time) (times : List Time) (fired : Option Time) (s : Seen)
    → is_stale w now times ≡ true
    → Sim w now (some times, fired) s
    → Sim w now (none, none) s
unfolding still
Sim-forget w now times fired s h m =
    let over = fired_is_over w now times fired h m.fired_seen in
    record {
      same_window = sym (still_of_is_stale w now times h) ∙ m.same_window;
      same_quiet = inr (refl, elim m.same_quiet [ inl e ↦ rw e at over | inr q ↦ q.1 ]);
      fired_seen = λ f e. cc;
    }

Sim-is_over :
    (w : Duration) (now : Time) (times : Option (List Time)) (fired : Option Time) (s : Seen)
    → Sim w now (times, fired) s
    → Sim w now (if is_over w now times then (none, none) else (times, fired)) s
Sim-is_over w now none fired s m = m
Sim-is_over w now (some times) fired s m = elim (Bool-cases (is_stale w now times)) [
  | inl over ↦ rw over (Sim-forget w now times fired s over m)
  | inr fresh ↦ rw fresh m
]

pub Sim-sweep :
    (b : BruteDetector) (at : Time) (ip : Str) (s : Seen)
    → Sim b.window at (part b ip) s
    → Sim b.window at (part (sweep at b) ip) s
unfolding sweep
Sim-sweep b at ip s m = elim (Bool-cases (sub_lt at b.last_sweep b.window)) [
  | inl early ↦ rw early m
  | inr due ↦ rw (due, prune-part at ip b) (Sim-is_over b.window at _ _ s m)
]

-- What `register` does to its own address.
pub take_in :
    Duration
    → ℤ
    → Time
    → Option (List Time) × Option Time
    → (Option (List Time) × Option Time) × Bool
take_in w threshold at c =
    let kept = still w at (or_else c.0 []) ++ at ∷ [] in
    if ltb_ℤ (pos (length kept)) threshold
    then ((some kept, c.1), false)
    else ((some kept, some at), not (in_quiet w at c.1))

pub register-take_in :
    (ip j : Str) (at : Time) (b : BruteDetector) {w : Duration} {threshold : ℤ}
    → b.window ≡ w
    → b.threshold ≡ threshold
    → (part (register ip at b).0 j
        ≡ (if ip == j then (take_in w threshold at (part b j)).0 else part b j))
      × (ip == j ≡ true → (register ip at b).1 ≡ (take_in w threshold at (part b j)).1)
unfolding register take_in
register-take_in ip j at b ew et =
    let kept = still b.window at (or_else (get b.attempts ip) []) ++ at ∷ [] in
    (
      ground (arith, get-put b.attempts ip j kept, get-put b.fired ip j at, ==_iff ip j),
      λ same. ground (arith, ==_iff ip j),
    )

module _ (w : Duration) (at : Time) (c : Option (List Time) × Option Time) (s : Seen)
    (m : Sim w at c s) where
  kept : List Time
  kept = still w at (or_else c.0 []) ++ at ∷ []

  still-kept : still w at kept ≡ still w at (s.all ++ at ∷ [])
  unfolding kept
  still-kept =
      rw (still-append, still-append)
        (ap (λ l. l ++ still w at (at ∷ [])) (still-still w at at _ (omega arith) ∙ m.same_window))

  length-kept : length kept ≡ length (still w at s.all) + 1
  unfolding kept
  length-kept = rw m.same_window (length-append (still w at s.all) (at ∷ []))

  quiet_agrees : in_quiet w at c.1 ≡ in_quiet w at s.fired
  quiet_agrees = elim m.same_quiet [ inl e ↦ ap (in_quiet w at) e | inr q ↦ q.0 ∙ sym q.1 ]

  Sim-below : Sim w at (some kept, c.1) (record s { all = s.all ++ at ∷ [] })
  unfolding kept
  Sim-below = record {
    same_window = still-kept;
    same_quiet = m.same_quiet;
    fired_seen = λ f e. (AnyGe-append f at _ (m.fired_seen f e).1, (m.fired_seen f e).1);
  }

  Sim-over : Sim w at (some kept, some at) (record { all = s.all ++ at ∷ []; fired = some at })
  unfolding kept
  Sim-over = record {
    same_window = still-kept;
    same_quiet = inl refl;
    fired_seen = λ f e. let le : f ≤ at = ground arith in (AnyGe-append f at _ le, le);
  }

  pub Sim-take_in :
      (threshold : ℤ)
      → Sim w at (take_in w threshold at c).0 (see w threshold at s).0
        × ((take_in w threshold at c).1 ≡ (see w threshold at s).1)
  unfolding take_in see kept
  Sim-take_in threshold =
      elim (Bool-cases (ltb_ℤ (pos (length (still w at s.all) + 1)) threshold)) [
        | inl few ↦ rw (few, ap (λ n. ltb_ℤ (pos n) threshold) length-kept ∙ few) (Sim-below, refl)
        | inr enough ↦
            rw (enough, ap (λ n. ltb_ℤ (pos n) threshold) length-kept ∙ enough)
              (Sim-over, ap not quiet_agrees)
      ]
