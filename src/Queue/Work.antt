-- ===== src/Queue/Work.antt =====
-- What `OcrQueue` does to a job around the scheduler (app/services/ocr_queue.py): a worker's
-- bookkeeping before and after a page, finishing and failing a job, a synchronous caller's deadline,
-- the reservation of a place, and shutdown. Each function is one critical section of the code.
use pdf_engine_toolbox.Base.{
  ℕ, suc, ◌+◌, ◌-◌, max, Bool, true, not, ◌&&◌, Option, none, some, List, [], ◌∷◌, ◌++◌, map, leb,
  ◌==◌, if◌then◌else◌, or_else, length, contains, remove, lookup, insert, erase,
}
use pdf_engine_toolbox.Queue.State.{
  Host, Job, OcrQueue, Request, failed, Failure, timed_out, stopped_queue, update, new_job, enqueue,
}

-- What a call into the page reader, the assembler or the ledger came to.
pub data Outcome (A : Type 0) : Type 0 where
  returned : A → Outcome A
  threw : Failure → Outcome A

module _ {h : Host} where
  -- The first lines of `_run_and_record`.
  unfoldable pub begin_run : OcrQueue h → OcrQueue h
  begin_run q = record q {
    running = suc q.running;
    max_running = max q.max_running (suc q.running);
  }

  -- The job after its page came back: `job.inflight -= 1` and the result or the error.
  unfoldable pub record_unit : ℕ → Outcome (h.Page) → Job h → Job h
  record_unit unit (returned page) j = record j {
    inflight = j.inflight - 1;
    done = insert unit page j.done;
  }
  record_unit unit (threw e) j = record j {
    inflight = j.inflight - 1;
    error = or_else j.error (some e);
    units = [];
  }

  -- The last lines of `_run_and_record`. After a shutdown nothing is recorded.
  unfoldable pub end_run : ℕ → ℕ → Outcome (h.Page) → h.Float → OcrQueue h → OcrQueue h
  unfolding record_unit
  end_run r unit outcome elapsed q =
      if q.stopped then record q { running = q.running - 1 } else record q {
        running = q.running - 1;
        heap = update q.heap r (record_unit unit outcome (q.heap r));
        page_seconds = average outcome;
      }
    where
      average : Outcome (h.Page) → h.Float
      average (returned _) = h.smooth q.page_seconds elapsed
      average (threw _) = q.page_seconds

  -- `_fail_job`; `recorded` says whether `store.fail` returned.
  unfoldable pub fail_job : ℕ → Failure → Bool → OcrQueue h → OcrQueue h
  fail_job r e recorded q =
      let job = q.heap r in
      let gone = record job { content = none; units = []; finishing = true } in
      let q' = record q {
        active = if contains r q.active then remove r q.active else q.active;
        heap = update q.heap r gone;
      } in
      if not job.persistent
      then record q' {
        heap = update q.heap r (record gone { error = or_else job.error (some e); event = true });
      }
      else if q.stopped
      then q'
      else if recorded
      then record q' { jobs = erase job.id q.jobs }
      else record q' {
        heap = update q.heap r (record gone { terminal = some (failed, h.describe e) });
      }

  -- The rest of `_finish` once the document is assembled; `responded` is what `_ocr_response` came
  -- to and `stored` what `store.complete` did.
  unfoldable pub deliver :
      ℕ → h.Response → Outcome (Unit {0}) → Outcome (Unit {0}) → Bool → OcrQueue h → OcrQueue h
  unfolding fail_job
  deliver r response responded stored recorded q =
      let job = q.heap r in
      let released = update q.heap r (record job { content = none }) in
      if not job.persistent
      then record q {
        heap =
            update q.heap r (record job { content = none; result = some response; event = true });
      }
      else elim responded [
        | threw e ↦ fail_job r e recorded q
        | returned _ ↦ if q.stopped then record q { heap = released } else elim stored [
          | threw e ↦ fail_job r e recorded q
          | returned _ ↦ record q { heap = released; jobs = erase job.id q.jobs }
        ]
      ]

  -- `_finish`: a job with an error fails; otherwise its pages are assembled.
  unfoldable pub settle :
      ℕ
      → Option Failure
      → Outcome (h.Response)
      → Outcome (Unit {0})
      → Outcome (Unit {0})
      → Bool
      → OcrQueue h
      → OcrQueue h
  unfolding deliver fail_job
  settle r (some e) assembled responded stored recorded q = fail_job r e recorded q
  settle r none (threw e) responded stored recorded q = fail_job r e recorded q
  settle r none (returned response) responded stored recorded q =
      deliver r response responded stored recorded q

  unfoldable pub finish :
      ℕ
      → Outcome (h.Response)
      → Outcome (Unit {0})
      → Outcome (Unit {0})
      → Bool
      → OcrQueue h
      → OcrQueue h
  unfolding settle
  finish r assembled responded stored recorded q =
      settle r (q.heap r).error assembled responded stored recorded q

  -- The deadline of `_run_sync`: nothing more of the job is scheduled.
  unfoldable pub expire : ℕ → OcrQueue h → OcrQueue h
  expire r q =
      let job = q.heap r in
      record q {
        heap = update q.heap r (record job { error = some timed_out; units = [] });
        pending = if contains r q.pending then remove r q.pending else q.pending;
        active = if contains r q.active && (job.inflight == 0) then remove r q.active else q.active;
      }

  -- The pages a `tables` caller still gets at its deadline: those that are done, the others failed.
  abbrev pub deadline_pages : (ℕ → h.Page) → Job h → List (h.Page)
  deadline_pages timeout_page j = map (λ page. or_page page (lookup page j.done)) j.targets
    where
      or_page : ℕ → Option (h.Page) → h.Page
      or_page page none = timeout_page page
      or_page page (some p) = p

  -- A new job: the object is made, then queued.
  unfoldable pub add_job : ℕ → Request h → OcrQueue h → OcrQueue h
  unfolding new_job enqueue
  add_job r a q = enqueue r (record q { heap = update q.heap r (new_job a) })

  -- `submit_ocr` takes a place, or answers `QueueFullError`.
  unfoldable pub reserve : OcrQueue h → Option (OcrQueue h)
  reserve q =
      if leb q.max_jobs (length q.jobs + q.reserved)
      then none
      else some (record q { reserved = suc q.reserved })

  -- Its `finally`.
  unfoldable pub release : OcrQueue h → OcrQueue h
  release q = record q { reserved = q.reserved - 1 }

  -- `shutdown`: waiting synchronous callers are told, persistent jobs stay for the next start.
  pub stop_waiting : List ℕ → (ℕ → Job h) → ℕ → Job h
  stop_waiting [] heap = heap
  stop_waiting (r ∷ rs) heap = stop_waiting rs (
      if (heap r).persistent
      then heap
      else update heap r (record (heap r) { error = some stopped_queue; event = true }))

  unfoldable pub shutdown : OcrQueue h → OcrQueue h
  unfolding stop_waiting
  shutdown q = record q { stopped = true; heap = stop_waiting (q.pending ++ q.active) q.heap }
