-- ===== src/Queue/Next/Cases.antt =====
-- Case rules for `_next_unit_locked`: a statement about its result is proved on each way through.
use pdf_engine_toolbox.Base.{
  ℕ, zero, suc, ◌+◌, ◌-◌, ◌%◌, ◌≡◌, ◌≤◌, ◌<◌, inl, inr, true, false, Option, none, some, arith,
  get_or, true, false, not, ◌&&◌, ◌⊎◌, ◌==◌, Bool-cases, Option-cases, length, find?,
}
use pdf_engine_toolbox.Queue.State.{Host, OcrQueue}
use pdf_engine_toolbox.Queue.Next.{
  Pick, Lane, make_room, yield_candidate, yield_slot, wants_slot, hand_finish, hand_unit,
  is_candidate, is_same, persistent_at, ready_at, visit, scan, dispatch, admit, next_unit,
  drained_at,
}

module _ {ℓ} {h : Host} where
  pub make_room_cases :
      (P : OcrQueue h × Option ℕ → Type ℓ) (q : OcrQueue h)
      → P (q, none)
      → ((r : ℕ)
          → wants_slot q ≡ true
          → yield_candidate q ≡ some r
          → ((q.heap r).inflight == 0) ≡ true
          → P (yield_slot r q, none))
      → ((r : ℕ)
          → wants_slot q ≡ true
          → yield_candidate q ≡ some r
          → ((q.heap r).inflight == 0) ≡ false
          → P (q, some r))
      → P (make_room q)
  unfolding make_room
  make_room_cases P q same yields waits = elim (Bool-cases (wants_slot q)) [
    | inr no_need ↦ rw (no_need, make_room) same
    | inl need ↦ elim (Option-cases (yield_candidate q)) [
      | inl e ↦ rw (need, e, make_room) same
      | inr (r, e) ↦ elim (Bool-cases ((q.heap r).inflight == 0)) [
        | inl idle ↦ rw (need, e, idle, make_room) (yields r need e idle)
        | inr busy ↦ rw (need, e, busy, make_room) (waits r need e busy)
      ]
    ]
  ]

  pub scan_cases :
      (P : OcrQueue h × Option Pick → Type ℓ) (q : OcrQueue h) (l : Lane)
      → P (q, none)
      → ((i : ℕ) (q' : OcrQueue h) (p : Pick)
          → i < length q.active
          → visit q l i ≡ some (q', p)
          → P (q', some p))
      → (left : ℕ) → left ≤ length q.active
      → P (scan q l left)
  unfolding scan
  scan_cases P q l idle picked zero le = idle
  scan_cases P q l idle picked (suc left) le =
      let i = (l.start + (length q.active - suc left)) % length q.active in
      elim (Option-cases (visit q l i)) [
        | inl e ↦ rw (e, scan) (scan_cases P q l idle picked left (omega arith))
        | inr ((q', p), e) ↦ rw (e, scan) (picked i q' p (grind arith) e)
      ]

  pub next_unit_cases :
      (P : OcrQueue h × Option Pick → Type ℓ) (q : OcrQueue h)
      → ((r : ℕ)
          → find? (drained_at q) q.active ≡ some r
          → P ((hand_finish r q).0, some (hand_finish r q).1))
      → (find? (drained_at q) q.active ≡ none
          → P (dispatch (admit (make_room q).0) (make_room q).1))
      → P (next_unit q)
  unfolding next_unit
  next_unit_cases P q finishes dispatches = elim (Option-cases (find? (drained_at q) q.active)) [
    | inr (r, e) ↦ rw (e, next_unit) (finishes r e)
    | inl e ↦ rw (e, next_unit) (dispatches e)
  ]

module _ {h : Host} where
  -- What a visit that answers has done, by the job at its position.
  pub visit_inv :
      (q : OcrQueue h) (l : Lane) (i : ℕ) (x : OcrQueue h × Pick)
      → visit q l i ≡ some x
      → let r = get_or q.active i 0 in
        ((drained_at q r ≡ true) × (x ≡ hand_finish r q))
        ⊎ ((is_candidate q l.yielding r ≡ true)
            × ((l.mixed && not (is_same (persistent_at q r) l.prefer_persistent)) ≡ false)
            × (x ≡ hand_unit r i q))
  unfolding visit
  visit_inv q l i x e = ground arith

  pub is_candidate-ready :
      (q : OcrQueue h) (y : Option ℕ) (r : ℕ) → is_candidate q y r ≡ true → ready_at q r ≡ true
  is_candidate-ready q none r e = e
  is_candidate-ready q (some s) r e = ground arith
