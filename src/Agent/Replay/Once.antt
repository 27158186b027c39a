-- ===== src/Agent/Replay/Once.antt =====
-- No update that may change state is run twice.
use statixagent.Prelude.{
  ℕ, ◌+◌, ◌≤◌, ◌<◌, ◌≡◌, refl, ◌∙◌, sym, ap, ◌⊎◌, inl, inr, Bool, true, false, ◌&&◌, Option, none,
  some, List, [], ◌∷◌, nat_eq, str_eq, ltb, leb, Option-cases, arith, if◌then◌else◌, if-both,
  if-split,
}
use mathlib.Core.Path.{subst}
use statixagent.Prelude.Text.{Str}
use statixagent.Prelude.Decimal.{max_int}
use statixagent.Prelude.Time.{Time}
use statixagent.Agent.Authorize.{Verdict, allowed, ignored, admin_only, authorize}
use statixagent.Agent.Replay.{
  Update, Outside, Bot, is_view, parse_command, sender_of, queued, load_offset, offset_text,
  commit_offset, run_change, run_view, refuse, run_command, handle_text, handle_update, advance,
  handle_all, restart, BotEvent, polled, restarted, elsewhere, happens, run_bot,
}
use statixagent.Agent.Replay.Cursor.{is_fresh, load_offset-written}

abbrev Below : List ℕ → ℕ → Type 0
Below [] n = Unit
Below (x ∷ xs) n = (x < n) × Below xs n

-- Each is below the one before, so that none is there twice.
abbrev pub Falling : List ℕ → Type 0
Falling [] = Unit
Falling (x ∷ xs) = Below xs x × Falling xs

Below-trans : (xs : List ℕ) (m n : ℕ) → Below xs m → m ≤ n → Below xs n
Below-trans [] m n b h = tt
Below-trans (x ∷ xs) m n b h = (omega (arith, b.0, h), Below-trans xs m n b.1 h)

-- Telegram's updates, from the cursor on, in the order of their ids.
abbrev pub in_order : ℕ → List Update → Bool
in_order offset [] = true
in_order offset (u ∷ ups) = leb offset u.id && ltb u.id max_int && in_order (u.id + 1) ups

both_true : (a b : Bool) → (a && b) ≡ true → (a ≡ true) × (b ≡ true)
both_true a b e = ground (arith, e)

in_order_parts :
    (offset : ℕ) (u : Update) (ups : List Update)
    → in_order offset (u ∷ ups) ≡ true
    → (leb offset u.id ≡ true) × (ltb u.id max_int ≡ true) × (in_order (u.id + 1) ups ≡ true)
in_order_parts offset u ups e = ground (arith, e)

module _ {W : Type 0} (o : Outside W) where
  -- The file has a cursor above all that was run.
  abbrev Saved : Bot W → Type 0
  Saved st =
      (c : ℕ) × (t : Time) × (st.file ≡ some (record { text = offset_text o c; written = t }))
      × (c ≤ max_int)
      × Below st.ran c

  abbrev CursorKept : Bot W → Type 0
  CursorKept st = Falling st.ran × Below st.ran st.offset × ((st.ran ≡ []) ⊎ Saved st)

  -- Before update `id` is handled: the cursor is past it.
  abbrev Due : ℕ → Bot W → Type 0
  Due id st =
      Falling st.ran
      × Below st.ran id
      × (st.offset ≡ id + 1)
      × (id < max_int)
      × ((st.ran ≡ []) ⊎ Saved st)

  abbrev KeptAt : ℕ → Bot W → Type 0
  KeptAt id st = CursorKept st × (st.offset ≡ id + 1)

  Due-KeptAt : (id : ℕ) (st : Bot W) → Due id st → KeptAt id st
  Due-KeptAt id st (falling, below, at, small, saved) =
      ((falling, Below-trans st.ran id st.offset below (omega (arith, at)), saved), at)

  -- Polls give updates in order from the cursor on, and a start reads a cursor file that is not too old.
  abbrev pub orderly_event : BotEvent W → Bot W → Bool
  orderly_event (polled ups) st = in_order st.offset ups
  orderly_event (restarted readable) st = readable && is_fresh (o.now st.world) st.file
  orderly_event (elsewhere w) st = true

  unfoldable pub orderly : List (BotEvent W) → Bot W → Bool
  unfolding happens
  orderly [] st = true
  orderly (e ∷ es) st = orderly_event e st && orderly es (happens o e st)

  -- The file of a commit, and what it leaves.
  abbrev Committed : Bot W → Bot W → Type 0
  Committed st st' =
      (t : Time) × (st'.file ≡ some (record { text = offset_text o st.offset; written = t }))
      × (st'.ran ≡ st.ran)
      × (st'.offset ≡ st.offset)

  module _ (has_path : o.has_path ≡ true)
      (saves : (text : Str) (w : W) → (o.write_offset text w).1 ≡ true) where
    commit_offset-Committed : (st : Bot W) → Committed st (commit_offset o st)
    unfolding commit_offset
    commit_offset-Committed st =
        if-split (Committed st)
          (o.has_path && (o.write_offset (offset_text o st.offset) st.world).1) _ _
          (λ ok. (o.now (o.write_offset (offset_text o st.offset) st.world).0, refl, refl, refl))
          (λ failed. ground (arith, failed, has_path, saves (offset_text o st.offset) st.world))

    run_change-KeptAt :
        (u : Update) (act : Update → W → W) (st : Bot W)
        → Due u.id st
        → KeptAt u.id (run_change o u act st)
    unfolding run_change
    run_change-KeptAt u act st (falling, below, at, small, saved) =
        let (t, file, ran, offset) = commit_offset-Committed st in
        let falls = subst Falling (sym (ap (λ l. u.id ∷ l) ran)) (below, falling) in
        let past = Below-trans st.ran u.id (u.id + 1) below (omega arith) in
        let all_past =
          subst (λ l. Below l (u.id + 1)) (sym (ap (λ l. u.id ∷ l) ran)) (omega arith, past) in
        let at' = offset ∙ at in
        (
          (
            falls,
            subst (λ n. Below (u.id ∷ (commit_offset o st).ran) n) (sym at') all_past,
            inr (
              u.id + 1,
              t,
              file ∙ ap (λ n. some (record { text = offset_text o n; written = t })) at,
              omega (arith, small),
              all_past,
            ),
          ),
          at',
        )

    run_command-KeptAt :
        (u : Update) (view : Bool) (v : Verdict) (st : Bot W)
        → Due u.id st
        → KeptAt u.id (run_command o u view v st)
    unfolding run_command
    run_command-KeptAt u view ignored st due = Due-KeptAt u.id st due
    run_command-KeptAt u view admin_only st due = Due-KeptAt u.id st due
    run_command-KeptAt u view allowed st due =
        if-both (KeptAt u.id) view (run_view o u st) _ (Due-KeptAt u.id st due) (
          if-both (KeptAt u.id) (queued st.boot u) (refuse o st) (run_change o u o.route st)
            (Due-KeptAt u.id st due) (run_change-KeptAt u o.route st due))

    handle_text-KeptAt :
        (u : Update) (cmd : Option (Str × List Str)) (st : Bot W)
        → Due u.id st
        → KeptAt u.id (handle_text o u cmd st)
    unfolding handle_text
    handle_text-KeptAt u none st due = Due-KeptAt u.id st due
    handle_text-KeptAt u (some (cmd, args)) st due =
        let asked = authorize st.gate (sender_of u) (is_view cmd args) in
        run_command-KeptAt u (is_view cmd args) asked.1 (record st { gate = asked.0 }) due

    handle_update-KeptAt :
        (u : Update) (st : Bot W) → Due u.id st → KeptAt u.id (handle_update o u st)
    unfolding handle_update
    handle_update-KeptAt u st due = elim (Option-cases u.callback) [
      | inl text ↦ rw (handle_update, text) (handle_text-KeptAt u (parse_command u.text) st due)
      | inr (data_, press) ↦ rw (handle_update, press) (run_change-KeptAt u o.press st due)
    ]

    handle_all-Kept :
        (ups : List Update) (st : Bot W)
        → in_order st.offset ups ≡ true
        → CursorKept st
        → CursorKept (handle_all o ups st)
    unfolding handle_all
    handle_all-Kept [] st ordered kept = kept
    handle_all-Kept (u ∷ ups) st ordered (falling, below, saved) =
        let there = leb st.offset u.id in
        let (from, small, rest) = in_order_parts st.offset u ups ordered in
        let at = ap (λ b. if b then u.id + 1 else st.offset) from in
        let next = advance o u.id st in
        let (kept, after) = handle_update-KeptAt u next (
          falling,
          Below-trans st.ran st.offset u.id below (ground (arith, from)),
          at,
          ground (arith, small),
          saved,
        ) in
        handle_all-Kept ups (handle_update o u next) (ap (λ n. in_order n ups) after ∙ rest) kept

    restart-Kept :
        (st : Bot W)
        → is_fresh (o.now st.world) st.file ≡ true
        → CursorKept st
        → CursorKept (restart o true st)
    unfolding restart load_offset
    restart-Kept st fresh (falling, below, inl none_ran) = (
      falling,
      subst (λ l. Below l (load_offset true (o.now st.world) st.file)) (sym none_ran) tt,
      inl none_ran,
    )
    restart-Kept st fresh (falling, below, inr (c, t, file, small, all_below)) =
        let now = o.now st.world in
        let loads =
          ap (load_offset true now) file
          ∙ load_offset-written now t c (subst (λ f. is_fresh now f ≡ true) file fresh) small in
        (falling, subst (Below st.ran) (sym loads) all_below, inr (c, t, file, small, all_below))

    happens-Kept :
        (e : BotEvent W) (st : Bot W)
        → orderly_event e st ≡ true
        → CursorKept st
        → CursorKept (happens o e st)
    unfolding happens
    happens-Kept (polled ups) st ordered kept = handle_all-Kept ups st ordered kept
    happens-Kept (restarted true) st ordered kept = restart-Kept st ordered kept
    happens-Kept (restarted false) st ordered kept = ground (arith, ordered)
    happens-Kept (elsewhere w) st ordered kept = kept

    run_bot-Kept :
        (es : List (BotEvent W)) (st : Bot W)
        → orderly es st ≡ true
        → CursorKept st
        → CursorKept (run_bot o es st)
    unfolding run_bot orderly
    run_bot-Kept [] st ordered kept = kept
    run_bot-Kept (e ∷ es) st ordered kept =
        let (first, rest) = both_true (orderly_event e st) (orderly es (happens o e st)) ordered in
        run_bot-Kept es (happens o e st) rest (happens-Kept e st first kept)

  -- Where the cursor's file can be written, and is read at each start before it is a day old, and
  -- polls give updates in order from the cursor that they ask for: from a bot that has run none,
  -- whatever polls and restarts come, the updates whose state-changing part is run have strictly
  -- rising ids, so that none is run twice.
  pub run_bot-Falling :
      (es : List (BotEvent W)) (st : Bot W)
      → o.has_path ≡ true
      → ((text : Str) (w : W) → (o.write_offset text w).1 ≡ true)
      → st.ran ≡ []
      → orderly es st ≡ true
      → Falling (run_bot o es st).ran
  run_bot-Falling es st has_path saves fresh ordered =
      (run_bot-Kept has_path saves es st ordered
        (subst Falling (sym fresh) tt, subst (λ l. Below l st.offset) (sym fresh) tt, inl fresh)).0
