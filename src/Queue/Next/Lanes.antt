-- ===== src/Queue/Next/Lanes.antt =====
-- Fairness of the page scheduler: when a synchronous and a persistent job both have a page ready,
-- the classes are served two pages to one.
use pdf_engine_toolbox.Base.{
  ℕ, ◌+◌, ◌≡◌, refl, ◌≤◌, ◌<◌, inl, inr, Bool, Option, none, some, true, false, not, ◌&&◌, sym,
  subst, min, ◌≢◌, arith, leb, length, get_or, if◌then◌else◌,
}
use pdf_engine_toolbox.Queue.State.{Host, OcrQueue}
use pdf_engine_toolbox.Queue.Next.{
  Pick, Lane, hand_finish, hand_unit, dispatch, lane, persistent_at, is_same,
}
use pdf_engine_toolbox.Queue.Next.Cases.{scan_cases, visit_inv}

-- What a start says of the streak before and after it, both lanes being ready.
abbrev Streak : Bool → ℕ → ℕ → Type 0
Streak true before after = (2 ≤ before) × (after ≡ 0)
Streak false before after = (before < 2) × (after ≡ before + 1)

module _ {h : Host} where
  -- The decision starts a page of a job of this class.
  abbrev pub StartsOf : OcrQueue h → Option Pick → Bool → Type 0
  StartsOf q none persistent = ⊥
  StartsOf q (some p) persistent = (p.unit ≢ none) × (persistent_at q p.job ≡ persistent)

  -- What a dispatch leaves for the next one: a start is of the lane that was due, if both were
  -- ready, and the streak of synchronous starts is counted up to two.
  abbrev Served : OcrQueue h → Lane → OcrQueue h × Option Pick → Type 0
  Served q l (q', none) = Unit
  Served q l (q', some p) =
      p.unit ≢ none
      → (l.mixed ≡ true → persistent_at q p.job ≡ l.prefer_persistent)
        × (q'.sync_streak ≡ (if persistent_at q p.job then 0 else min 2 (q.sync_streak + 1)))

  hand_finish-Served :
      (r : ℕ) (q : OcrQueue h) (l : Lane)
      → Served q l ((hand_finish r q).0, some (hand_finish r q).1)
  unfolding hand_finish
  hand_finish-Served r q l = λ ne. absurd (ne refl)

  hand_unit-Served :
      (r i : ℕ) (q : OcrQueue h) (l : Lane)
      → (l.mixed && not (is_same (persistent_at q r) l.prefer_persistent)) ≡ false
      → Served q l ((hand_unit r i q).0, some (hand_unit r i q).1)
  unfolding hand_unit
  hand_unit-Served r i q l e = λ ne. ground arith

  dispatch-Served : (q : OcrQueue h) (y : Option ℕ) → Served q (lane q y) (dispatch q y)
  unfolding dispatch
  dispatch-Served q y =
      scan_cases (Served q (lane q y)) q (lane q y) tt
        (λ i q' p lt e. elim (visit_inv q (lane q y) i (q', p) e) [
          | inl (_, same) ↦
              subst (λ x. Served q (lane q y) (x.0, some x.1)) (sym same)
                (hand_finish-Served (get_or q.active i 0) q (lane q y))
          | inr (_, due, same) ↦
              subst (λ x. Served q (lane q y) (x.0, some x.1)) (sym same)
                (hand_unit-Served (get_or q.active i 0) i q (lane q y) due)
        ])
        (length q.active) (omega arith)

  due-lane :
      (q : OcrQueue h) (y : Option ℕ)
      → (lane q y).mixed ≡ true
      → (lane q y).prefer_persistent ≡ leb 2 q.sync_streak
  unfolding lane
  due-lane q y e = ground arith

  start-Streak :
      (b : Bool) (q : OcrQueue h) (l : Lane) (x : OcrQueue h × Option Pick)
      → l.mixed ≡ true
      → l.prefer_persistent ≡ leb 2 q.sync_streak
      → Served q l x
      → StartsOf q x.1 b
      → Streak b q.sync_streak x.0.sync_streak
  start-Streak b q l (q', none) m d s st = absurd st
  start-Streak true q l (q', some p) m d s st = let served = s st.0 in ground arith
  start-Streak false q l (q', some p) m d s st = let served = s st.0 in ground arith

  dispatch-Streak :
      (b : Bool) (q : OcrQueue h) (y : Option ℕ)
      → (lane q y).mixed ≡ true
      → StartsOf q (dispatch q y).1 b
      → Streak b q.sync_streak (dispatch q y).0.sync_streak
  dispatch-Streak b q y m =
      start-Streak b q (lane q y) (dispatch q y) m (due-lane q y m) (dispatch-Served q y)

  -- At three decisions, each with a page ready in both classes and with no other change of the
  -- streak between them, the three do not all start a synchronous page, and the first two do not
  -- both start a persistent one.
  pub dispatch_two_to_one :
      (q0 q1 q2 : OcrQueue h) (y0 y1 y2 : Option ℕ)
      → (lane q0 y0).mixed ≡ true
      → (lane q1 y1).mixed ≡ true
      → (lane q2 y2).mixed ≡ true
      → q1.sync_streak ≡ (dispatch q0 y0).0.sync_streak
      → q2.sync_streak ≡ (dispatch q1 y1).0.sync_streak
      → (¬ (
          StartsOf q0 (dispatch q0 y0).1 false
          × StartsOf q1 (dispatch q1 y1).1 false
          × StartsOf q2 (dispatch q2 y2).1 false))
        × (¬ (StartsOf q0 (dispatch q0 y0).1 true × StartsOf q1 (dispatch q1 y1).1 true))
  dispatch_two_to_one q0 q1 q2 y0 y1 y2 m0 m1 m2 e1 e2 = (
    λ s. omega (
      arith,
      dispatch-Streak false q0 y0 m0 s.0,
      dispatch-Streak false q1 y1 m1 s.1,
      dispatch-Streak false q2 y2 m2 s.2,
    ),
    λ s. omega (arith, dispatch-Streak true q0 y0 m0 s.0, dispatch-Streak true q1 y1 m1 s.1),
  )
