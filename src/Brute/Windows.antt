-- ===== src/Brute/Windows.antt =====
-- The attempts inside a window: filtering twice, filtering later, and lists that are over.
use statixagent.Prelude.{
  ℕ, suc, ◌+◌, ◌≤◌, ◌≡◌, refl, ◌∙◌, sym, ap, ◌⊎◌, inl, inr, true, false, List, [], ◌∷◌, ◌++◌,
  length, arith,
}
use statixagent.Prelude.Time.{Time, Duration, sub_lt}
use statixagent.Brute.{newest_from, is_stale, still, count_from}

pub still-append :
    (w : Duration) (now : Time) (xs ys : List Time)
    → still w now (xs ++ ys) ≡ still w now xs ++ still w now ys
unfolding still
still-append w now [] ys = refl
still-append w now (x ∷ xs) ys = ground (arith, still-append w now xs ys)

-- What is outside a window stays outside.
pub still-still :
    (w : Duration) (now at : Time) (xs : List Time)
    → now ≤ at
    → still w at (still w now xs) ≡ still w at xs
unfolding still
still-still w now at [] h = refl
still-still w now at (x ∷ xs) h = ground (arith, still-still w now at xs h)

pub still-congr :
    (w : Duration) (now at : Time) (xs ys : List Time)
    → now ≤ at
    → still w now xs ≡ still w now ys
    → still w at xs ≡ still w at ys
still-congr w now at xs ys h e =
    sym (still-still w now at xs h) ∙ ap (still w at) e ∙ still-still w now at ys h

le-newest_from : (m : Time) (ts : List Time) → m ≤ newest_from m ts
unfolding newest_from
le-newest_from m [] = omega arith
le-newest_from m (t ∷ ts) = ground (arith, le-newest_from t ts, le-newest_from m ts)

-- Some attempt is not before `f`.
abbrev pub AnyGe : Time → List Time → Type 0
AnyGe f [] = ⊥
AnyGe f (t ∷ ts) = (f ≤ t) ⊎ AnyGe f ts

pub AnyGe-append : (f at : Time) (ts : List Time) → f ≤ at → AnyGe f (ts ++ at ∷ [])
AnyGe-append f at [] h = inl h
AnyGe-append f at (t ∷ ts) h = inr (AnyGe-append f at ts h)

le-newest_of_AnyGe : (f m : Time) (ts : List Time) → AnyGe f ts → f ≤ newest_from m ts
unfolding newest_from
le-newest_of_AnyGe f m [] h = absurd h
le-newest_of_AnyGe f m (t ∷ ts) (inl h) = ground (arith, le-newest_from t ts, le-newest_from m ts)
le-newest_of_AnyGe f m (t ∷ ts) (inr h) =
    ground (arith, le-newest_of_AnyGe f t ts h, le-newest_of_AnyGe f m ts h)

still-nil_of_newest :
    (w : Duration) (now m : Time) (ts : List Time)
    → sub_lt now (newest_from m ts) w ≡ false
    → still w now ts ≡ []
unfolding still newest_from
still-nil_of_newest w now m [] h = refl
still-nil_of_newest w now m (t ∷ ts) h = ground (
  arith,
  le-newest_from t ts,
  le-newest_from m ts,
  still-nil_of_newest w now t ts,
  still-nil_of_newest w now m ts,
)

pub still_of_is_stale :
    (w : Duration) (now : Time) (ts : List Time) → is_stale w now ts ≡ true → still w now ts ≡ []
unfolding is_stale still
still_of_is_stale w now [] h = refl
still_of_is_stale w now (t ∷ ts) h =
    ground (arith, le-newest_from t ts, still-nil_of_newest w now t ts)

pub over_of_is_stale :
    (w : Duration) (now f : Time) (ts : List Time)
    → is_stale w now ts ≡ true
    → AnyGe f ts
    → sub_lt now f w ≡ false
unfolding is_stale
over_of_is_stale w now f [] h a = absurd a
over_of_is_stale w now f (t ∷ ts) h (inl a) = ground (arith, le-newest_from t ts)
over_of_is_stale w now f (t ∷ ts) h (inr a) = ground (arith, le-newest_of_AnyGe f t ts a)

pub count_from-still :
    (w : Duration) (now : Time) (n : ℕ) (ts : List Time)
    → count_from w now n ts ≡ n + length (still w now ts)
unfolding count_from still
count_from-still w now n [] = omega arith
count_from-still w now n (t ∷ ts) =
    ground (arith, count_from-still w now n ts, count_from-still w now (suc n) ts)
