-- ===== src/Queue/Next/Pages.antt =====
-- What one scheduling decision does to the jobs themselves: it starts the next page of one job, or
-- hands a drained job out, and leaves the work of every other job alone.
use pdf_engine_toolbox.Base.{
  ℕ, zero, suc, Bool, ◌≢◌, ◌≡◌, refl, inl, inr, Option, none, some, [], ◌∷◌, true, false, not, sym,
  arith, ltb, Bool-cases, Option-cases, length, find?-holds, subst, get_or,
}
use pdf_engine_toolbox.Queue.State.{Host, Job, OcrQueue, is_drained, is_ready}
use pdf_engine_toolbox.Queue.Next.{
  Pick, Lane, choose, make_room, yield_slot, admit_one, admit_loop, admit, hand_finish, hand_unit,
  visit, dispatch, lane, next_unit, drained_at,
}
use pdf_engine_toolbox.Queue.Next.Cases.{
  make_room_cases, scan_cases, next_unit_cases, visit_inv, is_candidate-ready,
}

module _ {h : Host} where
  -- The same work left, under way, done and recorded.
  pub record SameWork (j k : Job h) : Type 0 where
    pub units : k.units ≡ j.units
    pub inflight : k.inflight ≡ j.inflight
    pub done : k.done ≡ j.done
    pub error : k.error ≡ j.error
    pub started : k.started ≡ j.started
    pub finishing : k.finishing ≡ j.finishing
    pub persistent : k.persistent ≡ j.persistent
    pub targets : k.targets ≡ j.targets

  -- A page is started: the first unit left is taken and counted as in flight.
  pub record Starts (j k : Job h) (u : ℕ) (first : Bool) : Type 0 where
    pub units : j.units ≡ u ∷ k.units
    pub inflight : k.inflight ≡ suc j.inflight
    pub done : k.done ≡ j.done
    pub started : k.started ≡ true
    pub error : k.error ≡ j.error
    pub finishing : k.finishing ≡ j.finishing
    pub targets : k.targets ≡ j.targets
    pub was : first ≡ not j.started
    pub clean : j.error ≡ none

  -- A job is handed out to be finished: nothing is left or under way, and this happens once.
  pub record Finishes (j k : Job h) : Type 0 where
    pub units : j.units ≡ []
    pub inflight : j.inflight ≡ 0
    pub before : j.finishing ≡ false
    pub after : k.finishing ≡ true
    pub left : k.units ≡ j.units
    pub idle : k.inflight ≡ j.inflight
    pub done : k.done ≡ j.done
    pub error : k.error ≡ j.error
    pub targets : k.targets ≡ j.targets

  abbrev pub Own : Job h → Job h → Pick → Type 0
  Own j k p = elim p.unit [ none ↦ Finishes j k | some u ↦ Starts j k u p.first ]

  abbrev pub Effect : OcrQueue h → OcrQueue h → Option Pick → Type 0
  Effect q q' none = (r : ℕ) → SameWork (q.heap r) (q'.heap r)
  Effect q q' (some p) =
      ((r : ℕ) → p.job ≢ r → SameWork (q.heap r) (q'.heap r)) × Own (q.heap p.job) (q'.heap p.job) p

  SameWork-refl : (j : Job h) → SameWork j j
  SameWork-refl j = ground arith

  SameWork-trans : (i j k : Job h) → SameWork i j → SameWork j k → SameWork i k
  SameWork-trans i j k a b = ground arith

  Own-before : (i j k : Job h) (p : Pick) → SameWork i j → Own j k p → Own i k p
  Own-before i j k p a b = ground arith

  Effect-before :
      (q q1 q2 : OcrQueue h) (p : Option Pick)
      → ((r : ℕ) → SameWork (q.heap r) (q1.heap r))
      → Effect q1 q2 p
      → Effect q q2 p
  Effect-before q q1 q2 none a b = λ r. SameWork-trans _ _ _ (a r) (b r)
  Effect-before q q1 q2 (some p) a b =
      (λ r ne. SameWork-trans _ _ _ (a r) (b.0 r ne), Own-before _ _ _ p (a p.job) b.1)

  hand_finish-others :
      (s r : ℕ) (q : OcrQueue h) → s ≢ r → SameWork (q.heap r) ((hand_finish s q).0.heap r)
  unfolding hand_finish
  hand_finish-others s r q ne = ground arith

  hand_finish-Effect :
      (s : ℕ) (q : OcrQueue h)
      → is_drained (q.heap s) ≡ true
      → Effect q (hand_finish s q).0 (some (hand_finish s q).1)
  unfolding hand_finish
  hand_finish-Effect s q e = (λ r ne. hand_finish-others s r q ne, ground arith)

  hand_unit-others :
      (s i r : ℕ) (q : OcrQueue h) → s ≢ r → SameWork (q.heap r) ((hand_unit s i q).0.heap r)
  unfolding hand_unit
  hand_unit-others s i r q ne = ground arith

  hand_unit-Own :
      (s i : ℕ) (q : OcrQueue h)
      → is_ready (q.heap s) ≡ true
      → Own (q.heap s) ((hand_unit s i q).0.heap s) (hand_unit s i q).1
  unfolding hand_unit
  hand_unit-Own s i q e = ground arith

  hand_unit-Effect :
      (s i : ℕ) (q : OcrQueue h)
      → is_ready (q.heap s) ≡ true
      → Effect q (hand_unit s i q).0 (some (hand_unit s i q).1)
  unfolding hand_unit
  hand_unit-Effect s i q e = (λ r ne. hand_unit-others s i r q ne, hand_unit-Own s i q e)

  visit-Effect :
      (q q' : OcrQueue h) (l : Lane) (i : ℕ) (p : Pick)
      → visit q l i ≡ some (q', p)
      → Effect q q' (some p)
  visit-Effect q q' l i p e = elim (visit_inv q l i (q', p) e) [
    | inl (d, same) ↦
        subst (λ x. Effect q x.0 (some x.1)) (sym same)
          (hand_finish-Effect (get_or q.active i 0) q d)
    | inr (c, _, same) ↦
        subst (λ x. Effect q x.0 (some x.1)) (sym same)
          (hand_unit-Effect (get_or q.active i 0) i q
            (is_candidate-ready q l.yielding (get_or q.active i 0) c))
  ]

  dispatch-Effect : (q : OcrQueue h) (y : Option ℕ) → Effect q (dispatch q y).0 (dispatch q y).1
  unfolding dispatch
  dispatch-Effect q y =
      scan_cases (λ x. Effect q x.0 x.1) q (lane q y) (λ r. SameWork-refl (q.heap r))
        (λ i q' p lt e. visit-Effect q q' (lane q y) i p e) (length q.active) (omega arith)

  yield_slot-SameWork : (s r : ℕ) (q : OcrQueue h) → SameWork (q.heap r) ((yield_slot s q).heap r)
  unfolding yield_slot
  yield_slot-SameWork s r q = ground arith

  pub make_room-SameWork : (q : OcrQueue h) (r : ℕ) → SameWork (q.heap r) ((make_room q).0.heap r)
  make_room-SameWork q r =
      make_room_cases (λ x. SameWork (q.heap r) (x.0.heap r)) q (SameWork-refl (q.heap r))
        (λ s _ _ _. yield_slot-SameWork s r q) (λ s _ _ _. SameWork-refl (q.heap r))

  admit_loop-heap : (fuel : ℕ) (q : OcrQueue h) (r : ℕ) → (admit_loop fuel q).heap r ≡ q.heap r
  unfolding admit_loop admit_one
  admit_loop-heap zero q r = refl
  admit_loop-heap (suc fuel) q r = elim (Bool-cases (ltb (length q.active) q.max_active)) [
    | inr full ↦ rw full refl
    | inl free ↦ elim (Option-cases (choose q)) [
      | inl e ↦ rw (free, e) refl
      | inr (s, e) ↦ rw (free, e) (admit_loop-heap fuel (admit_one s q) r)
    ]
  ]

  pub settled-SameWork :
      (q : OcrQueue h) (r : ℕ) → SameWork (q.heap r) ((admit (make_room q).0).heap r)
  unfolding admit
  settled-SameWork q r =
      subst (SameWork (q.heap r)) (sym (admit_loop-heap _ (make_room q).0 r))
        (make_room-SameWork q r)

  -- A scheduling decision starts the first page left of one job that has no error, or hands out
  -- one job that has no page left or in flight and was not handed out before, or does nothing; the
  -- work of every other job stays as it was.
  pub next_unit-Effect : (q : OcrQueue h) → Effect q (next_unit q).0 (next_unit q).1
  next_unit-Effect q =
      next_unit_cases (λ x. Effect q x.0 x.1) q
        (λ s e. hand_finish-Effect s q (find?-holds (drained_at q) q.active s e))
        (λ _.
          let settled = admit (make_room q).0 in
          Effect-before q settled (dispatch settled (make_room q).1).0
            (dispatch settled (make_room q).1).1 (settled-SameWork q)
            (dispatch-Effect settled (make_room q).1))
