-- ===== src/Tests/Scheduler.antt =====
-- The OCR queue (app/services/ocr_queue.py) with three jobs: a synchronous one waits behind two
-- persistent scans.
use pdf_engine_toolbox.Base.{
  ℕ, ◌+◌, ◌*◌, ◌/◌, ◌≤◌, ◌≡◌, ◌≢◌, refl, ◌⊎◌, true, false, none, some, List, [], ◌∷◌, arith,
  if◌then◌else◌, ◌==◌, length,
}
use pdf_engine_toolbox.Queue.State.{
  Host, Job, OcrQueue, Request, ocr, tables, spilled, in_memory, new_job,
}
use pdf_engine_toolbox.Queue.Next.{next_unit, dispatch, admit}
use pdf_engine_toolbox.Queue.Next.Rooms.{queued, taken, queued-next_unit}
use pdf_engine_toolbox.Queue.Next.Slots.{Fits, next_unit-Fits, admit_settles}
use pdf_engine_toolbox.Queue.Next.Pages.{Effect, next_unit-Effect}
use pdf_engine_toolbox.Queue.Next.Lanes.{StartsOf, dispatch_two_to_one}
use pdf_engine_toolbox.Queue.Next.Progress.{IsWaiting, next_unit-ne-none}

abbrev pub demo : Host
demo = record {
  Page = ℕ;
  Response = ℕ;
  Bytes = ℕ;
  Float = ℕ;
  initial_page_seconds = 4;
  smooth = λ a e. (4 * a + e) / 5;
  wait_seconds = λ work seconds workers. (work * seconds + 1) / (workers + 1);
  describe = λ _. "failed";
}

abbrev pub scan_request : ℕ → List ℕ → Request demo
scan_request i pages = record {
  id = i;
  operation = ocr;
  source = spilled "input";
  persistent = true;
  targets = pages;
  page_count = length pages;
  created_at = 0;
  done = [];
  content = none;
}

abbrev table_request : ℕ → List ℕ → Request demo
table_request i pages = record {
  id = i;
  operation = tables;
  source = in_memory 7;
  persistent = false;
  targets = pages;
  page_count = length pages;
  created_at = 0;
  done = [];
  content = none;
}

-- Jobs 1 and 2 are scans of three and two pages, job 3 a table request of two.
abbrev pub jobs_of : ℕ → Job demo
unfolding new_job
jobs_of r =
    if r == 1
    then new_job (scan_request 11 (0 ∷ 1 ∷ 2 ∷ []))
    else if r == 2
    then new_job (scan_request 12 (4 ∷ 5 ∷ []))
    else new_job (table_request 13 (8 ∷ 9 ∷ 10 ∷ []))

abbrev pub queue_of : ℕ → List ℕ → List ℕ → OcrQueue demo
queue_of slots waiting active = record {
  workers = 2;
  max_active = slots;
  max_jobs = 5;
  ttl = 3600;
  heap = jobs_of;
  pending = waiting;
  active = active;
  jobs = (11, 1) ∷ (12, 2) ∷ [];
  reserved = 0;
  persistent_rr = 0;
  sync_rr = 0;
  prefer_sync = true;
  sync_streak = 0;
  next_seq = 3;
  stopped = false;
  page_seconds = 4;
  running = 0;
  max_running = 0;
}

-- With both slots taken by scans, the last of them yields to the table request.
table_request_gets_a_slot : (next_unit (queue_of 2 (3 ∷ []) (1 ∷ 2 ∷ []))).0.active ≡ 1 ∷ 3 ∷ []
unfolding next_unit new_job
table_request_gets_a_slot = refl

-- And its first page starts first.
table_request_starts :
    (next_unit (queue_of 2 (3 ∷ []) (1 ∷ 2 ∷ []))).1
    ≡ some (record { job = 3; unit = some 8; first = true })
unfolding next_unit new_job
table_request_starts = refl

abbrev waiting_queue : OcrQueue demo
waiting_queue = queue_of 2 (3 ∷ []) (1 ∷ 2 ∷ [])

queued-next_unit_example :
    queued 2 (next_unit waiting_queue).0 + taken 2 (next_unit waiting_queue).1 ≡ 1
queued-next_unit_example = queued-next_unit 2 waiting_queue

next_unit-Effect_example :
    Effect waiting_queue (next_unit waiting_queue).0 (next_unit waiting_queue).1
next_unit-Effect_example = next_unit-Effect waiting_queue

next_unit-Fits_example : Fits 2 (next_unit waiting_queue).0
next_unit-Fits_example = next_unit-Fits 2 waiting_queue (refl, omega arith)

admit_settles_example :
    ((admit (queue_of 3 (3 ∷ 2 ∷ []) (1 ∷ []))).max_active
      ≤ length (admit (queue_of 3 (3 ∷ 2 ∷ []) (1 ∷ []))).active)
    ⊎ ((admit (queue_of 3 (3 ∷ 2 ∷ []) (1 ∷ []))).pending ≡ [])
admit_settles_example = admit_settles (queue_of 3 (3 ∷ 2 ∷ []) (1 ∷ []))

jobs_wait : (r : ℕ) → IsWaiting (jobs_of r)
unfolding new_job
jobs_wait r = ground arith

next_unit-ne-none_example : (next_unit waiting_queue).1 ≢ none
next_unit-ne-none_example =
    next_unit-ne-none waiting_queue 3 (omega arith) (omega arith) (λ r _. jobs_wait r)

abbrev both_ready : OcrQueue demo
both_ready = queue_of 2 [] (1 ∷ 3 ∷ [])

abbrev after_one : OcrQueue demo
after_one = (dispatch both_ready none).0

abbrev after_two : OcrQueue demo
after_two = (dispatch after_one none).0

dispatch_two_to_one_example :
    (¬ (
      StartsOf both_ready (dispatch both_ready none).1 false
      × StartsOf after_one (dispatch after_one none).1 false
      × StartsOf after_two (dispatch after_two none).1 false))
    × (¬ (
        StartsOf both_ready (dispatch both_ready none).1 true
        × StartsOf after_one (dispatch after_one none).1 true))
unfolding dispatch new_job
dispatch_two_to_one_example =
    dispatch_two_to_one both_ready after_one after_two none none none refl refl refl refl refl
