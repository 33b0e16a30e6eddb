-- ===== src/Queue/Next/Slots.antt =====
-- The active-document limit (OCR_MAX_ACTIVE_JOBS), and that no slot stays free while a job waits.
use pdf_engine_toolbox.Base.{
  ℕ, zero, suc, ◌≡◌, refl, ◌∙◌, ◌≤◌, ◌<◌, ◌⊎◌, inl, inr, Option, none, some, [], ◌∷◌, arith, ltb,
  Bool-cases, Option-cases, length, length-append, length-remove, count-get_or, get_or, count,
}
use pdf_engine_toolbox.Queue.State.{Host, OcrQueue}
use pdf_engine_toolbox.Queue.Next.{
  Pick, Lane, choose, choose_between, make_room, yield_slot, admit_one, admit_loop, admit,
  hand_finish, visit, dispatch, lane, next_unit,
}
use pdf_engine_toolbox.Queue.Next.Cases.{make_room_cases, scan_cases, next_unit_cases}
use pdf_engine_toolbox.Queue.Next.Rooms.{choose-pending, find?-active, yield_candidate-active}

module _ {h : Host} where
  -- Under `b` slots, no more than `b` jobs are active.
  abbrev pub Fits : ℕ → OcrQueue h → Type 0
  Fits b q = (q.max_active ≡ b) × (length q.active ≤ b)

  hand_finish-Fits :
      (b r : ℕ) (q : OcrQueue h) → 0 < count r q.active → Fits b q → Fits b (hand_finish r q).0
  unfolding hand_finish
  hand_finish-Fits b r q m f = ground (arith, length-remove r q.active m)

  visit-Fits :
      (b i : ℕ) (q q' : OcrQueue h) (l : Lane) (p : Pick)
      → i < length q.active
      → visit q l i ≡ some (q', p)
      → Fits b q
      → Fits b q'
  unfolding visit
  visit-Fits b i q q' l p lt e f =
      ground (arith, length-remove (get_or q.active i 0) q.active (count-get_or q.active i lt))

  dispatch-Fits : (b : ℕ) (q : OcrQueue h) (y : Option ℕ) → Fits b q → Fits b (dispatch q y).0
  unfolding dispatch
  dispatch-Fits b q y f =
      scan_cases (λ x. Fits b x.0) q (lane q y) f
        (λ i q' p lt e. visit-Fits b i q q' (lane q y) p lt e f) (length q.active) (omega arith)

  make_room-Fits : (b : ℕ) (q : OcrQueue h) → Fits b q → Fits b (make_room q).0
  unfolding yield_slot
  make_room-Fits b q f =
      make_room_cases (λ x. Fits b x.0) q f
        (λ r _ e _. ground (arith, length-remove r q.active (yield_candidate-active q r e)))
        (λ r _ _ _. f)

  admit_loop-Fits : (b fuel : ℕ) (q : OcrQueue h) → Fits b q → Fits b (admit_loop fuel q)
  unfolding admit_loop admit_one
  admit_loop-Fits b zero q f = f
  admit_loop-Fits b (suc fuel) q f = elim (Bool-cases (ltb (length q.active) q.max_active)) [
    | inr full ↦ rw full f
    | inl free ↦ elim (Option-cases (choose q)) [
      | inl e ↦ rw (free, e) f
      | inr (s, e) ↦
          rw (free, e)
            (admit_loop-Fits b fuel (admit_one s q)
              (ground (arith, length-append q.active (s ∷ []))))
    ]
  ]

  -- If the active jobs fit the limit before a scheduling decision, they fit it after, and the
  -- limit is the same.
  pub next_unit-Fits : (b : ℕ) (q : OcrQueue h) → Fits b q → Fits b (next_unit q).0
  unfolding admit
  next_unit-Fits b q f =
      next_unit_cases (λ x. Fits b x.0) q (λ r e. hand_finish-Fits b r q (find?-active q r e) f)
        (λ _.
          dispatch-Fits b (admit (make_room q).0) (make_room q).1
            (admit_loop-Fits b _ (make_room q).0 (make_room-Fits b q f)))

  choose-none : (q : OcrQueue h) → choose q ≡ none → q.pending ≡ []
  unfolding choose choose_between
  choose-none q e = ground arith

  admit_loop_settles :
      (fuel : ℕ) (q : OcrQueue h)
      → length q.pending ≤ fuel
      → ((admit_loop fuel q).max_active ≤ length (admit_loop fuel q).active)
        ⊎ ((admit_loop fuel q).pending ≡ [])
  unfolding admit_loop admit_one
  admit_loop_settles zero q le = inr (ground arith)
  admit_loop_settles (suc fuel) q le = elim (Bool-cases (ltb (length q.active) q.max_active)) [
    | inr full ↦ rw full (inl (ground arith))
    | inl free ↦ elim (Option-cases (choose q)) [
      | inl e ↦ rw (free, e) (inr (choose-none q e))
      | inr (s, e) ↦
          rw (free, e)
            (admit_loop_settles fuel (admit_one s q)
              (ground (arith, length-remove s q.pending (choose-pending q s e))))
    ]
  ]

  -- The admission loop, on fuel equal to the number of waiting jobs, ends with every slot taken or
  -- no job waiting.
  pub admit_settles :
      (q : OcrQueue h) → ((admit q).max_active ≤ length (admit q).active) ⊎ ((admit q).pending ≡ [])
  unfolding admit
  admit_settles q = admit_loop_settles (length q.pending) q (omega arith)

  admit_loop-max_active :
      (fuel : ℕ) (q : OcrQueue h) → (admit_loop fuel q).max_active ≡ q.max_active
  unfolding admit_loop admit_one
  admit_loop-max_active zero q = refl
  admit_loop-max_active (suc fuel) q = elim (Bool-cases (ltb (length q.active) q.max_active)) [
    | inr full ↦ rw full refl
    | inl free ↦ elim (Option-cases (choose q)) [
      | inl e ↦ rw (free, e) refl
      | inr (s, e) ↦ rw (free, e) (admit_loop-max_active fuel (admit_one s q))
    ]
  ]

  -- The configured limit is not changed on the way.
  pub settled-max_active : (q : OcrQueue h) → (admit (make_room q).0).max_active ≡ q.max_active
  unfolding admit yield_slot
  settled-max_active q =
      admit_loop-max_active _ (make_room q).0
      ∙ make_room_cases (λ x. x.0.max_active ≡ q.max_active) q refl (λ r _ _ _. refl)
          (λ r _ _ _. refl)
