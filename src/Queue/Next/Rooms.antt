-- ===== src/Queue/Next/Rooms.antt =====
-- `_next_unit_locked` neither loses nor duplicates a job: what it takes out of `_pending` it puts
-- into `_active` and back, and only a job handed out to be finished leaves both.
use pdf_engine_toolbox.Base.{
  ℕ, zero, suc, ◌+◌, ◌≡◌, refl, ◌∙◌, ◌<◌, inl, inr, Option, none, some, [], ◌∷◌, reverse, arith,
  ltb, ◌==◌, if◌then◌else◌, Bool-cases, Option-cases, length, find?, get_or, count, count-append,
  count-remove, count-find?, count-head?, count-reverse, count-get_or,
}
use pdf_engine_toolbox.Queue.State.{Host, OcrQueue}
use pdf_engine_toolbox.Queue.Next.Cases.{make_room_cases, scan_cases, next_unit_cases}
use pdf_engine_toolbox.Queue.Next.{
  Pick, Lane, choose, choose_between, make_room, yield_candidate, yield_slot, admit_one, admit_loop,
  admit, hand_finish, visit, dispatch, next_unit, drained_at, lane, sync_at, persistent_at,
}

-- How often `r` is queued: waiting or active.
abbrev pub queued : {h : Host} → ℕ → OcrQueue h → ℕ
queued r q = count r q.pending + count r q.active

-- 1 if the pick takes `r` out to be finished.
abbrev pub taken : ℕ → Option Pick → ℕ
taken r none = 0
taken r (some p) = elim p.unit [ none ↦ if p.job == r then 1 else 0 | some _ ↦ 0 ]

module _ {h : Host} where
  pub queued-hand_finish :
      (r s : ℕ) (q : OcrQueue h)
      → 0 < count s q.active
      → queued r (hand_finish s q).0 + taken r (some (hand_finish s q).1) ≡ queued r q
  unfolding hand_finish
  queued-hand_finish r s q m = ground (arith, count-remove r s q.active m)

  queued-yield_slot :
      (r s : ℕ) (q : OcrQueue h) → 0 < count s q.active → queued r (yield_slot s q) ≡ queued r q
  unfolding yield_slot
  queued-yield_slot r s q m = ground (arith, count-remove r s q.active m)

  pub yield_candidate-active :
      (q : OcrQueue h) (s : ℕ) → yield_candidate q ≡ some s → 0 < count s q.active
  unfolding yield_candidate
  yield_candidate-active q s e =
      ground (arith, count-find? _ (reverse q.active) s e, count-reverse s q.active)

  pub queued-make_room : (r : ℕ) (q : OcrQueue h) → queued r (make_room q).0 ≡ queued r q
  queued-make_room r q =
      make_room_cases (λ x. queued r x.0 ≡ queued r q) q refl
        (λ s _ e _. queued-yield_slot r s q (yield_candidate-active q s e)) (λ s _ _ _. refl)

  pub choose-pending : (q : OcrQueue h) (s : ℕ) → choose q ≡ some s → 0 < count s q.pending
  unfolding choose choose_between
  choose-pending q s e = ground (
    arith,
    count-find? (sync_at q) q.pending s,
    count-find? (persistent_at q) q.pending s,
    count-head? q.pending s,
  )

  queued-admit_one :
      (r s : ℕ) (q : OcrQueue h) → 0 < count s q.pending → queued r (admit_one s q) ≡ queued r q
  unfolding admit_one
  queued-admit_one r s q m =
      ground (arith, count-remove r s q.pending m, count-append r q.active (s ∷ []))

  pub queued-admit_loop : (r fuel : ℕ) (q : OcrQueue h) → queued r (admit_loop fuel q) ≡ queued r q
  unfolding admit_loop
  queued-admit_loop r zero q = refl
  queued-admit_loop r (suc fuel) q = elim (Bool-cases (ltb (length q.active) q.max_active)) [
    | inr full ↦ rw full refl
    | inl free ↦ elim (Option-cases (choose q)) [
      | inl e ↦ rw (free, e) refl
      | inr (s, e) ↦
          rw (free, e)
            (queued-admit_loop r fuel (admit_one s q)
              ∙ queued-admit_one r s q (choose-pending q s e))
    ]
  ]

  pub queued-admit : (r : ℕ) (q : OcrQueue h) → queued r (admit q) ≡ queued r q
  unfolding admit
  queued-admit r q = queued-admit_loop r (length q.pending) q

  pub queued-visit :
      (r i : ℕ) (q q' : OcrQueue h) (l : Lane) (p : Pick)
      → i < length q.active
      → visit q l i ≡ some (q', p)
      → queued r q' + taken r (some p) ≡ queued r q
  unfolding visit
  queued-visit r i q q' l p lt e = ground (
    arith,
    count-get_or q.active i lt,
    count-remove r (get_or q.active i 0) q.active (count-get_or q.active i lt),
  )

  -- Where `find?` looked among the active jobs, it found one of them.
  pub find?-active :
      (q : OcrQueue h) (s : ℕ) → find? (drained_at q) q.active ≡ some s → 0 < count s q.active
  find?-active q s e = count-find? (drained_at q) q.active s e

  abbrev Accounts : ℕ → OcrQueue h → OcrQueue h × Option Pick → Type 0
  Accounts r q (q', p) = queued r q' + taken r p ≡ queued r q

  queued-dispatch : (r : ℕ) (q : OcrQueue h) (y : Option ℕ) → Accounts r q (dispatch q y)
  unfolding dispatch
  queued-dispatch r q y =
      scan_cases (Accounts r q) q (lane q y) (omega arith)
        (λ i q' p lt e. queued-visit r i q q' (lane q y) p lt e) (length q.active) (omega arith)

  -- A scheduling decision keeps how often each job stands in the waiting and active lists
  -- together, but for a job handed out to be finished, which leaves them once.
  pub queued-next_unit :
      (r : ℕ) (q : OcrQueue h) → queued r (next_unit q).0 + taken r (next_unit q).1 ≡ queued r q
  queued-next_unit r q =
      next_unit_cases (Accounts r q) q (λ s e. queued-hand_finish r s q (find?-active q s e))
        (λ _.
          queued-dispatch r (admit (make_room q).0) (make_room q).1
          ∙ queued-admit r (make_room q).0
          ∙ queued-make_room r q)
