-- ===== src/Queue/Admission.antt =====
-- The limit on unfinished jobs (OCR_QUEUE_MAX_JOBS): `submit_ocr` reserves a place under the lock,
-- does its work outside it, queues the job under the lock again, and gives the place back last. A
-- step is one of these sections of some submitter, or the end of a job.
use pdf_engine_toolbox.Base.{
  ℕ, suc, ◌+◌, ◌≤◌, ◌≡◌, true, some, [], ◌∷◌, length, arith, Dict, insert, erase,
}
use pdf_engine_toolbox.Queue.State.{Host, Request, OcrQueue}
use pdf_engine_toolbox.Queue.Work.{reserve, release, add_job}

-- The queue, the submitters between their reservation and their job's arrival (`open`), and those
-- that have yet to give their place back.
pub record Desk (h : Host) : Type 0 where
  pub queue : OcrQueue h
  pub entered : ℕ
  pub leaving : ℕ

length-insert : (k v : ℕ) (d : Dict ℕ) → length (insert k v d) ≤ suc (length d)
length-insert k v [] = omega arith
length-insert k v (e ∷ d) = ground (arith, length-insert k v d)

length-erase : (k : ℕ) (d : Dict ℕ) → length (erase k d) ≤ length d
length-erase k [] = omega arith
length-erase k (e ∷ d) = ground (arith, length-erase k d)

module _ {h : Host} where
  pub data Submit : Desk h → Desk h → Type 0 where
    enter :
        (d : Desk h) (q : OcrQueue h)
        → reserve d.queue ≡ some q
        → Submit d (record d { queue = q; entered = suc d.entered })
    -- the request is invalid: its task is recorded as failed and no job is queued
    refuse :
        (d : Desk h) (n : ℕ)
        → d.entered ≡ suc n
        → Submit d (record d { entered = n; leaving = suc d.leaving })
    queue_job :
        (d : Desk h) (n r : ℕ) (a : Request h)
        → d.entered ≡ suc n
        → a.persistent ≡ true
        → Submit d (record { queue = add_job r a d.queue; entered = n; leaving = suc d.leaving })
    leave :
        (d : Desk h) (n : ℕ)
        → d.leaving ≡ suc n
        → Submit d (record d { queue = release d.queue; leaving = n })
    -- a job completes or fails
    end_job :
        (d : Desk h) (task : ℕ)
        → Submit d (record d { queue = record d.queue { jobs = erase task d.queue.jobs } })

  pub data Submits (d : Desk h) : Desk h → Type 0 where
    start : Submits d d
    next : {e f : Desk h} → Submits d e → Submit e f → Submits d f

  -- Every reservation has its submitter, and there is a place for each that has yet to queue.
  pub record HasRoom (limit : ℕ) (d : Desk h) : Type 0 where
    pub limited : d.queue.max_jobs ≡ limit
    pub reserved : d.queue.reserved ≡ d.entered + d.leaving
    pub fits : length d.queue.jobs + d.entered ≤ limit

  enter-HasRoom :
      (limit : ℕ) (d : Desk h) (q : OcrQueue h)
      → reserve d.queue ≡ some q
      → HasRoom limit d
      → HasRoom limit (record d { queue = q; entered = suc d.entered })
  unfolding reserve
  enter-HasRoom limit d q e v = ground arith

  queue_job-HasRoom :
      (limit : ℕ) (d : Desk h) (n r : ℕ) (a : Request h)
      → d.entered ≡ suc n
      → HasRoom limit d
      → HasRoom limit (record { queue = add_job r a d.queue; entered = n; leaving = suc d.leaving })
  unfolding add_job
  queue_job-HasRoom limit d n r a e v = ground (arith, length-insert a.id r d.queue.jobs)

  leave-HasRoom :
      (limit : ℕ) (d : Desk h) (n : ℕ)
      → d.leaving ≡ suc n
      → HasRoom limit d
      → HasRoom limit (record d { queue = release d.queue; leaving = n })
  unfolding release
  leave-HasRoom limit d n e v = ground arith

  Submit-HasRoom : (limit : ℕ) {d e : Desk h} → Submit d e → HasRoom limit d → HasRoom limit e
  Submit-HasRoom limit (enter d q e) v = enter-HasRoom limit d q e v
  Submit-HasRoom limit (refuse d n e) v = ground arith
  Submit-HasRoom limit (queue_job d n r a e _) v = queue_job-HasRoom limit d n r a e v
  Submit-HasRoom limit (leave d n e) v = leave-HasRoom limit d n e v
  Submit-HasRoom limit (end_job d task) v = ground (arith, length-erase task d.queue.jobs)

  -- From a desk with room, after any interleaving of submissions and ends of jobs, the unfinished
  -- jobs do not outnumber the limit and the reservations are those of the submitters under way.
  pub Submits-limit :
      (limit : ℕ) {d e : Desk h}
      → HasRoom limit d
      → Submits d e
      → (length e.queue.jobs ≤ limit) × (e.queue.reserved ≡ e.entered + e.leaving)
  Submits-limit limit v run = let w = all_steps run v in (omega (arith, w.fits), w.reserved)
    where
      all_steps : {d e : Desk h} → Submits d e → HasRoom limit d → HasRoom limit e
      all_steps start v = v
      all_steps (next r st) v = Submit-HasRoom limit st (all_steps r v)
