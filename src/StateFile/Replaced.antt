-- ===== src/StateFile/Replaced.antt =====
-- What state files read as after one of them was replaced.
use statixagent.Prelude.{
  ◌≡◌, refl, ◌∙◌, inl, inr, Bool, true, false, not, ◌&&◌, some, List, [], ◌∷◌, ◌==◌, str_eq,
  Option-cases, arith, if-both, if-split,
}
use statixagent.Prelude.Text.{Str}
use statixagent.StateFile.{
  contents, TempOp, op_chmod, op_sync, op_close, op_remove, op_write, Files, temp_pattern, fill,
  fill_ops, put_in_place, write_state_file,
}

-- The operations that leave a temporary file's text as it is.
abbrev pub is_idle : TempOp → Bool
is_idle op_remove = false
is_idle (op_write data_) = false
is_idle _ = true

-- What is relied on of the file system, for some state files, which are told apart by their paths, and
-- temporary files, which are none of them: a new temporary file is empty, and reads as what was written
-- to it; nothing done to it changes a state file but a rename that succeeds, which changes only the file of
-- that name.
pub record ReplaceLaws {W : Type 0} (fs : Files W) (is_state is_temp : Str → Bool) : Type 0 where
  pub created :
      (p t : Str) (w : W)
      → is_state p ≡ true
      → (fs.create_temp (fs.dir_of p) (temp_pattern fs p) w).1 ≡ some t
      → (is_temp t ≡ true)
        × (fs.read_at t (fs.create_temp (fs.dir_of p) (temp_pattern fs p) w).0 ≡ contents [])
  pub read_created :
      (p q : Str) (w : W)
      → is_state p ≡ true
      → is_state q ≡ true
      → fs.read_at q (fs.create_temp (fs.dir_of p) (temp_pattern fs p) w).0 ≡ fs.read_at q w
  pub read_beside :
      (op : TempOp) (t q : Str) (w : W)
      → is_temp t ≡ true
      → is_state q ≡ true
      → fs.read_at q (fs.on_temp op t w).0 ≡ fs.read_at q w
  pub read_filled :
      (data_ t : Str) (w : W)
      → is_temp t ≡ true
      → fs.read_at t w ≡ contents []
      → (fs.on_temp (op_write data_) t w).1 ≡ true
      → fs.read_at t (fs.on_temp (op_write data_) t w).0 ≡ contents data_
  pub read_idle :
      (op : TempOp) (t : Str) (w : W)
      → is_temp t ≡ true
      → is_idle op ≡ true
      → fs.read_at t (fs.on_temp op t w).0 ≡ fs.read_at t w
  pub read_renamed :
      (t p : Str) (w : W)
      → is_temp t ≡ true
      → is_state p ≡ true
      → (fs.rename t p w).1 ≡ true
      → fs.read_at p (fs.rename t p w).0 ≡ fs.read_at t w
  pub read_not_renamed :
      (t p q : Str) (w : W)
      → is_temp t ≡ true
      → is_state p ≡ true
      → is_state q ≡ true
      → (fs.rename t p w).1 ≡ false
      → fs.read_at q (fs.rename t p w).0 ≡ fs.read_at q w
  pub read_other :
      (t p q : Str) (w : W)
      → is_temp t ≡ true
      → is_state p ≡ true
      → is_state q ≡ true
      → (p == q) ≡ false
      → fs.read_at q (fs.rename t p w).0 ≡ fs.read_at q w
  pub read_synced :
      (d q : Str) (w : W) → is_state q ≡ true → fs.read_at q (fs.sync_dir d w) ≡ fs.read_at q w

module _ {W : Type 0} (fs : Files W) (is_state is_temp : Str → Bool)
    (laws : ReplaceLaws fs is_state is_temp) where
  fill-beside :
      (ops : List TempOp) (t q : Str) (w : W)
      → is_temp t ≡ true
      → is_state q ≡ true
      → fs.read_at q (fill fs ops t w).0 ≡ fs.read_at q w
  unfolding fill
  fill-beside [] t q w it iq = refl
  fill-beside (op ∷ ops) t q w it iq =
      let (w', ok) = fs.on_temp op t w in
      let same = laws.read_beside op t q w it iq in
      if-both (λ (r : W × Bool). fs.read_at q r.0 ≡ fs.read_at q w) ok (fill fs ops t w')
        (w', false) (fill-beside ops t q w' it iq ∙ same) same

  fill-contents :
      (data_ t : Str) (w : W)
      → is_temp t ≡ true
      → fs.read_at t w ≡ contents []
      → (fill fs (fill_ops fs data_) t w).1 ≡ true
      → fs.read_at t (fill fs (fill_ops fs data_) t w).0 ≡ contents data_
  unfolding fill
  fill-contents data_ t w it empty =
      let P = λ (r : W × Bool). r.1 ≡ true → fs.read_at t r.0 ≡ contents data_ in
      let one = fs.on_temp op_chmod t w in
      let two = fs.on_temp (op_write data_) t one.0 in
      let three = fs.on_temp op_sync t two.0 in
      if-split P one.1 (fill fs (op_write data_ ∷ op_sync ∷ []) t one.0) (one.0, false)
        (λ _.
          if-split P two.1 (fill fs (op_sync ∷ []) t two.0) (two.0, false)
            (λ wrote.
              let there =
                laws.read_idle op_sync t two.0 it refl
                ∙ laws.read_filled data_ t one.0 it (laws.read_idle op_chmod t w it refl ∙ empty)
                    wrote in
              if-split P three.1 (three.0, true) (three.0, false) (λ _ _. there)
                (λ _ e. absurd (ground (arith, e))))
            (λ _ e. absurd (ground (arith, e))))
        (λ _ e. absurd (ground (arith, e)))

  -- A state file that is not the one that is replaced.
  place-beside :
      (p q data_ t : Str) (w : W)
      → is_temp t ≡ true
      → is_state p ≡ true
      → is_state q ≡ true
      → (p == q) ≡ false
      → fs.read_at q (put_in_place fs p data_ t w).0 ≡ fs.read_at q w
  unfolding put_in_place
  place-beside p q data_ t w it ip iq other =
      let P = λ (r : W × Bool). fs.read_at q r.0 ≡ fs.read_at q w in
      let filled = fill fs (fill_ops fs data_) t w in
      let closed = fs.on_temp op_close t filled.0 in
      let renamed = fs.rename t p closed.0 in
      let still =
        laws.read_beside op_close t q filled.0 it iq
        ∙ fill-beside (fill_ops fs data_) t q w it iq in
      let still' = laws.read_other t p q closed.0 it ip iq other ∙ still in
      if-both P (not (filled.1 && closed.1)) (closed.0, false) _ still
        (if-both P (not renamed.1) (renamed.0, false) (fs.sync_dir (fs.dir_of p) renamed.0, true)
          still' (laws.read_synced (fs.dir_of p) q renamed.0 iq ∙ still'))

  place-failed :
      (p q data_ t : Str) (w : W)
      → is_temp t ≡ true
      → is_state p ≡ true
      → is_state q ≡ true
      → (put_in_place fs p data_ t w).1 ≡ false
      → fs.read_at q (put_in_place fs p data_ t w).0 ≡ fs.read_at q w
  unfolding put_in_place
  place-failed p q data_ t w it ip iq =
      let P = λ (r : W × Bool). r.1 ≡ false → fs.read_at q r.0 ≡ fs.read_at q w in
      let filled = fill fs (fill_ops fs data_) t w in
      let closed = fs.on_temp op_close t filled.0 in
      let renamed = fs.rename t p closed.0 in
      let still =
        laws.read_beside op_close t q filled.0 it iq
        ∙ fill-beside (fill_ops fs data_) t q w it iq in
      if-both P (not (filled.1 && closed.1)) (closed.0, false) _ (λ _. still)
        (if-split P (not renamed.1) (renamed.0, false) (fs.sync_dir (fs.dir_of p) renamed.0, true)
          (λ failed _.
            laws.read_not_renamed t p q closed.0 it ip iq (ground (arith, failed)) ∙ still)
          (λ _ e. absurd (ground (arith, e))))

  place-contents :
      (p data_ t : Str) (w : W)
      → is_temp t ≡ true
      → is_state p ≡ true
      → fs.read_at t w ≡ contents []
      → (put_in_place fs p data_ t w).1 ≡ true
      → fs.read_at p (put_in_place fs p data_ t w).0 ≡ contents data_
  unfolding put_in_place
  place-contents p data_ t w it ip empty =
      let P = λ (r : W × Bool). r.1 ≡ true → fs.read_at p r.0 ≡ contents data_ in
      let filled = fill fs (fill_ops fs data_) t w in
      let closed = fs.on_temp op_close t filled.0 in
      let renamed = fs.rename t p closed.0 in
      if-split P (not (filled.1 && closed.1)) (closed.0, false) _
        (λ _ e. absurd (ground (arith, e)))
        (λ whole.
          if-split P (not renamed.1) (renamed.0, false) (fs.sync_dir (fs.dir_of p) renamed.0, true)
            (λ _ e. absurd (ground (arith, e)))
            (λ moved _.
              laws.read_synced (fs.dir_of p) p renamed.0 ip
              ∙ laws.read_renamed t p closed.0 it ip (ground (arith, moved))
              ∙ laws.read_idle op_close t filled.0 it refl
              ∙ fill-contents data_ t w it empty (ground (arith, whole))))

  -- A file that was replaced reads as it was written.
  pub read_written :
      (p data_ : Str) (w : W)
      → is_state p ≡ true
      → (write_state_file fs p data_ w).1 ≡ true
      → fs.read_at p (write_state_file fs p data_ w).0 ≡ contents data_
  unfolding write_state_file
  read_written p data_ w ip ok =
      let made = fs.create_temp (fs.dir_of p) (temp_pattern fs p) w in
      elim (Option-cases made.1) [
        | inl none_ ↦ absurd (ground (arith, none_, ok))
        | inr (t, is) ↦
            let (it, empty) = laws.created p t w ip is in
            rw (write_state_file, is)
              (laws.read_beside op_remove t p (put_in_place fs p data_ t made.0).0 it ip
                ∙ place-contents p data_ t made.0 it ip empty (rw (write_state_file, is) at ok))
      ]

  -- Where the file could not be replaced, every state file is as it was.
  pub read_unwritten :
      (p q data_ : Str) (w : W)
      → is_state p ≡ true
      → is_state q ≡ true
      → (write_state_file fs p data_ w).1 ≡ false
      → fs.read_at q (write_state_file fs p data_ w).0 ≡ fs.read_at q w
  unfolding write_state_file
  read_unwritten p q data_ w ip iq failed =
      let made = fs.create_temp (fs.dir_of p) (temp_pattern fs p) w in
      let same = laws.read_created p q w ip iq in
      elim (Option-cases made.1) [
        | inl none_ ↦ rw (write_state_file, none_) same
        | inr (t, is) ↦
            let (it, empty) = laws.created p t w ip is in
            rw (write_state_file, is)
              (laws.read_beside op_remove t q (put_in_place fs p data_ t made.0).0 it iq
                ∙ place-failed p q data_ t made.0 it ip iq (rw (write_state_file, is) at failed)
                ∙ same)
      ]

  -- Any other state file is as it was.
  pub read_other_file :
      (p q data_ : Str) (w : W)
      → is_state p ≡ true
      → is_state q ≡ true
      → (p == q) ≡ false
      → fs.read_at q (write_state_file fs p data_ w).0 ≡ fs.read_at q w
  unfolding write_state_file
  read_other_file p q data_ w ip iq other =
      let made = fs.create_temp (fs.dir_of p) (temp_pattern fs p) w in
      let same = laws.read_created p q w ip iq in
      elim (Option-cases made.1) [
        | inl none_ ↦ rw (write_state_file, none_) same
        | inr (t, is) ↦
            let (it, empty) = laws.created p t w ip is in
            rw (write_state_file, is)
              (laws.read_beside op_remove t q (put_in_place fs p data_ t made.0).0 it iq
                ∙ place-beside p q data_ t made.0 it ip iq other
                ∙ same)
      ]
