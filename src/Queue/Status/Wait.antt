-- ===== src/Queue/Status/Wait.antt =====
-- The named waits: within their limits, and in the order of submission.
use pdf_engine_toolbox.Base.{
  ℕ, ◌+◌, ◌≤◌, ◌<◌, ◌≡◌, false, List, [], ◌∷◌, ◌++◌, ltb, keep_if, contains, count, arith,
}
use pdf_engine_toolbox.Queue.State.{Host, OcrQueue}
use pdf_engine_toolbox.Queue.Status.{sum_by, remaining_at, eta_work, eta, retry_after}

-- A later bound keeps what an earlier one keeps, and the element between them.
sum_by-keep_if :
    (f g : ℕ → ℕ) (a b : ℕ) (r : ℕ) (xs : List ℕ)
    → a ≤ b
    → sum_by f (keep_if (λ o. ltb (g o) a) xs) ≤ sum_by f (keep_if (λ o. ltb (g o) b) xs)
sum_by-keep_if f g a b r [] le = omega arith
sum_by-keep_if f g a b r (x ∷ xs) le = ground (arith, sum_by-keep_if f g a b r xs)

sum_by-keep_if_with :
    (f g : ℕ → ℕ) (b : ℕ) (r : ℕ) (xs : List ℕ)
    → g r < b
    → 0 < count r xs
    → sum_by f (keep_if (λ o. ltb (g o) (g r)) xs) + f r ≤ sum_by f (keep_if (λ o. ltb (g o) b) xs)
sum_by-keep_if_with f g b r [] lt m = elim m [ ]
sum_by-keep_if_with f g b r (x ∷ xs) lt m =
    ground (arith, sum_by-keep_if_with f g b r xs, sum_by-keep_if f g (g r) b r xs)

module _ {h : Host} where
  -- A full queue names a wait of 5 to 300 seconds, whatever the backlog.
  pub retry_after_bounds : (q : OcrQueue h) → (5 ≤ retry_after q) × (retry_after q ≤ 300)
  unfolding retry_after
  retry_after_bounds q = ground arith

  eta_work-le :
      (q : OcrQueue h) (r s : ℕ)
      → contains r q.active ≡ false
      → contains s q.active ≡ false
      → (q.heap r).seq < (q.heap s).seq
      → 0 < count r (q.active ++ q.pending)
      → eta_work q r ≤ eta_work q s
  unfolding eta_work
  eta_work-le q r s nr ns lt m = ground (
    arith,
    sum_by-keep_if_with (remaining_at q) (λ o. (q.heap o).seq) (q.heap s).seq r
        (q.active ++ q.pending) lt m,
  )

  -- Of two jobs that are not active, the one with the earlier sequence number is not told a longer
  -- wait, if the first is waiting and the wait grows with the number of pages before a job.
  pub eta_fifo :
      (q : OcrQueue h) (r s : ℕ)
      → ((a b : ℕ)
          → a ≤ b
          → h.wait_seconds a q.page_seconds q.workers ≤ h.wait_seconds b q.page_seconds q.workers)
      → contains r q.active ≡ false
      → contains s q.active ≡ false
      → (q.heap r).seq < (q.heap s).seq
      → 0 < count r (q.active ++ q.pending)
      → eta q r ≤ eta q s
  unfolding eta
  eta_fifo q r s grows nr ns lt m = grows _ _ (eta_work-le q r s nr ns lt m)
