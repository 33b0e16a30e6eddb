-- ===== src/Queue/Status.antt =====
-- What the queue tells a client about an unfinished job, and the wait it names when it is full
-- (`status`, `_eta_locked` and `_retry_after_locked`, app/services/ocr_queue.py).
pub mod Wait
use pdf_engine_toolbox.Base.{
  ℕ, ◌+◌, min, max, Bool, true, false, String, Option, none, some, List, [], ◌∷◌, ◌++◌, ltb,
  if◌then◌else◌, keep_if, contains, Dict, lookup,
}
use pdf_engine_toolbox.Queue.State.{
  Host, Job, OcrQueue, Operation, Status, pending, processing, remaining_pages,
}

-- The dict that `status` returns for a job it holds in memory.
pub data Report : Type 0 where
  ended : ℕ → Status → Operation → ℕ → String → Report
  waiting : ℕ → Status → Operation → ℕ → ℕ → ℕ → Report

abbrev pub sum_by : (ℕ → ℕ) → List ℕ → ℕ
sum_by f [] = 0
sum_by f (x ∷ xs) = f x + sum_by f xs

-- `sum(1 for ...)`
abbrev pub count_if : (ℕ → Bool) → List ℕ → ℕ
count_if p [] = 0
count_if p (x ∷ xs) = (if p x then 1 else 0) + count_if p xs

abbrev pub values : Dict ℕ → List ℕ
values [] = []
values ((k, v) ∷ d) = v ∷ values d

module _ {h : Host} where
  abbrev pub remaining_at : OcrQueue h → ℕ → ℕ
  remaining_at q r = remaining_pages (q.heap r)

  -- The pages read before job `r` is done, counting its own.
  unfoldable pub eta_work : OcrQueue h → ℕ → ℕ
  eta_work q r =
      let mine = max (remaining_at q r) 1 in
      if contains r q.active
      then sum_by (λ o. min (remaining_at q o) mine) q.active
      else sum_by (remaining_at q)
          (keep_if (λ o. ltb (q.heap o).seq (q.heap r).seq) (q.active ++ q.pending))
        + mine

  -- `_eta_locked`
  unfoldable pub eta : OcrQueue h → ℕ → ℕ
  unfolding eta_work
  eta q r = h.wait_seconds (eta_work q r) q.page_seconds q.workers

  -- `_retry_after_locked`
  unfoldable pub retry_after : OcrQueue h → ℕ
  retry_after q = min 300 (
      max 5
        (h.wait_seconds (sum_by (remaining_at q) (q.active ++ q.pending)) q.page_seconds q.workers))

  -- Its place among the unfinished jobs.
  unfoldable pub queue_position : OcrQueue h → ℕ → ℕ
  queue_position q r = count_if (λ o. ltb (q.heap o).seq (q.heap r).seq) (values q.jobs)

  report : OcrQueue h → ℕ → Option (Status × String) → Report
  unfolding queue_position eta
  report q r (some (s, e)) = let job = q.heap r in ended job.id s job.operation job.created_at e
  report q r none =
      let job = q.heap r in
      waiting job.id (if job.started then processing else pending) job.operation job.created_at
        (queue_position q r) (eta q r)

  -- `status` for a task this process holds; `none` sends the question to the ledger.
  unfoldable pub live_status : OcrQueue h → ℕ → Option Report
  unfolding report
  live_status q task = elim (lookup task q.jobs) [
    | none ↦ none
    | some r ↦ some (report q r (q.heap r).terminal)
  ]
