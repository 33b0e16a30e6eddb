-- ===== src/Queue/Next/Progress.antt =====
-- A free worker is never left idle while a job waits: with no page in flight, a queue that holds a
-- job hands out work.
use pdf_engine_toolbox.Base.{
  ℕ, zero, suc, ◌+◌, ◌-◌, ◌%◌, ◌≡◌, refl, ◌<◌, inl, inr, ◌⊎◌, Bool, none, true, false, not, subst,
  ap, ◌≢◌, arith, leb, ◌==◌, length, get_or, any-position, count, count-get_or, ◌&&◌, Bool-cases,
  Option-cases, List, [], ◌∷◌,
}
use pdf_engine_toolbox.Queue.State.{Host, Job, OcrQueue}
use pdf_engine_toolbox.Queue.Next.{
  Lane, make_room, admit, visit, scan, dispatch, lane, next_unit, drained_at, ready_at,
  is_candidate, is_same, persistent_at, sync_at,
}
use pdf_engine_toolbox.Queue.Next.Cases.{make_room_cases, next_unit_cases}
use pdf_engine_toolbox.Queue.Next.Rooms.{
  queued, queued-admit, queued-make_room, yield_candidate-active,
}
use pdf_engine_toolbox.Queue.Next.Pages.{SameWork, settled-SameWork}
use pdf_engine_toolbox.Queue.Next.Slots.{admit_settles, settled-max_active}

-- Every position is met by some offset, wherever the scan starts.
mod_cover : (start j n : ℕ) → j < n → (o : ℕ) × (o < n) × ((start + o) % n ≡ j)
mod_cover start j n lt = elim (Bool-cases (leb (start % n) j)) [
  | inl le ↦ (j - start % n, grind arith, grind arith)
  | inr gt ↦ (j + n - start % n, grind arith, grind arith)
]

and_not : (m b : Bool) → (m ≡ false) ⊎ (b ≡ true) → (m && not b) ≡ false
and_not m b h = ground arith

-- A list that holds something is not empty.
count-length : (r : ℕ) (xs : List ℕ) → 0 < count r xs → 0 < length xs
count-length r [] m = m
count-length r (x ∷ xs) m = omega arith

module _ {h : Host} where
  -- A job between pages: nothing in flight, not handed out, and no page left once it has failed
  -- (every failure clears `units`).
  pub record IsWaiting (j : Job h) : Type 0 where
    pub inflight : j.inflight ≡ 0
    pub finishing : j.finishing ≡ false
    pub failed : (j.units ≡ []) ⊎ (j.error ≡ none)

  -- Every job in the queue is between pages.
  abbrev pub AllWaiting : OcrQueue h → Type 0
  AllWaiting q = (r : ℕ) → 0 < queued r q → IsWaiting (q.heap r)

  SameWork-IsWaiting : (j k : Job h) → SameWork j k → IsWaiting j → IsWaiting k
  SameWork-IsWaiting j k s w = ground arith

  settled-AllWaiting : (q : OcrQueue h) → AllWaiting q → AllWaiting (admit (make_room q).0)
  settled-AllWaiting q w r m =
      SameWork-IsWaiting (q.heap r) _ (settled-SameWork q r)
        (w r (omega (arith, queued-admit r (make_room q).0, queued-make_room r q)))

  -- With no page in flight nobody is made to wait before yielding its slot.
  make_room-none : (q : OcrQueue h) → AllWaiting q → (make_room q).1 ≡ none
  make_room-none q w =
      make_room_cases (λ x. x.1 ≡ none) q refl (λ r _ _ _. refl)
        (λ r _ e busy. ground (arith, w r, yield_candidate-active q r e))

  scan-none :
      (q : OcrQueue h) (l : Lane) (left o : ℕ)
      → (scan q l left).1 ≡ none
      → o < left
      → visit q l ((l.start + (length q.active - suc o)) % length q.active) ≡ none
  unfolding scan
  scan-none q l zero o e lt = elim lt [ ]
  scan-none q l (suc left) o e lt =
      elim (Option-cases (visit q l ((l.start + (length q.active - suc left)) % length q.active))) [
        | inr ((q', p), v) ↦ absurd (ground arith)
        | inl v ↦ elim (Bool-cases (o == left)) [
          | inl same ↦ ground arith
          | inr less ↦ scan-none q l left o (ground arith) (ground arith)
        ]
      ]

  -- The scan meets every position.
  scan-ne-none :
      (q : OcrQueue h) (l : Lane) (j : ℕ)
      → j < length q.active
      → visit q l j ≢ none
      → (scan q l (length q.active)).1 ≢ none
  scan-ne-none q l j lt hit e =
      let (o, below, at) = mod_cover l.start j (length q.active) lt in
      let missed = scan-none q l (length q.active) (length q.active - suc o) e (omega arith) in
      let back : length q.active - suc (length q.active - suc o) ≡ o = omega arith in
      hit (subst (λ k. visit q l k ≡ none) at (rw back at missed))

  visit-drained :
      (q : OcrQueue h) (l : Lane) (j : ℕ)
      → drained_at q (get_or q.active j 0) ≡ true
      → visit q l j ≢ none
  unfolding visit
  visit-drained q l j d = ground arith

  visit-due :
      (q : OcrQueue h) (l : Lane) (j : ℕ)
      → is_candidate q l.yielding (get_or q.active j 0) ≡ true
      → (l.mixed && not (is_same (persistent_at q (get_or q.active j 0)) l.prefer_persistent))
        ≡ false
      → visit q l j ≢ none
  unfolding visit
  visit-due q l j c due = ground arith

  waiting-works :
      (q : OcrQueue h) (r : ℕ)
      → IsWaiting (q.heap r)
      → (drained_at q r ≡ true) ⊎ (ready_at q r ≡ true)
  waiting-works q r w = ground arith

  -- When both lanes are ready, the preferred one has a job.
  mixed-due :
      (q : OcrQueue h)
      → (lane q none).mixed ≡ true
      → (j : ℕ) × (j < length q.active)
        × (is_candidate q none (get_or q.active j 0) ≡ true)
        × (is_same (persistent_at q (get_or q.active j 0)) (lane q none).prefer_persistent ≡ true)
  unfolding lane
  mixed-due q m = elim (Bool-cases (leb 2 q.sync_streak)) [
    | inl turn ↦
        let (j, lt, at) =
          any-position (λ r. is_candidate q none r && persistent_at q r) q.active (ground arith) in
        (j, lt, ground arith, ground arith)
    | inr turn ↦
        let (j, lt, at) =
          any-position (λ r. is_candidate q none r && sync_at q r) q.active (ground arith) in
        (j, lt, ground arith, ground arith)
  ]

  dispatch-ne-none :
      (q : OcrQueue h) → 0 < length q.active → AllWaiting q → (dispatch q none).1 ≢ none
  unfolding dispatch
  dispatch-ne-none q some_active w =
      elim (waiting-works q (get_or q.active 0 0)
        (w _ (omega (arith, count-get_or q.active 0 some_active)))) [
          | inl d ↦ scan-ne-none q (lane q none) 0 some_active (visit-drained q (lane q none) 0 d)
          | inr c ↦ elim (Bool-cases (lane q none).mixed) [
            | inl m ↦
                let (j, lt, ready, due) = mixed-due q m in
                scan-ne-none q (lane q none) j lt
                  (visit-due q (lane q none) j ready (and_not _ _ (inr due)))
            | inr m ↦
                scan-ne-none q (lane q none) 0 some_active
                  (visit-due q (lane q none) 0 c (and_not _ _ (inl m)))
          ]
        ]

  settled-active :
      (q : OcrQueue h) (r : ℕ)
      → 0 < q.max_active
      → 0 < queued r q
      → 0 < length (admit (make_room q).0).active
  settled-active q r slots m =
      let settled = admit (make_room q).0 in
      elim (admit_settles (make_room q).0) [
        | inl full ↦ omega (arith, full, settled-max_active q)
        | inr empty ↦ count-length r settled.active (
            omega (arith, queued-admit r (make_room q).0, queued-make_room r q, ap (count r) empty))
      ]

  -- If at least one slot is configured, some job is waiting or active, and every queued job is
  -- between pages (nothing in flight, not handed out, no page left once it has failed), the
  -- scheduler hands out a page or a job to finish.
  pub next_unit-ne-none :
      (q : OcrQueue h) (r : ℕ)
      → 0 < q.max_active
      → 0 < queued r q
      → AllWaiting q
      → (next_unit q).1 ≢ none
  next_unit-ne-none q r slots m w =
      next_unit_cases (λ x. x.1 ≢ none) q (λ s _ e. cc)
        (λ _. rw (make_room-none q w) (
          dispatch-ne-none (admit (make_room q).0) (settled-active q r slots m)
            (settled-AllWaiting q w)))
