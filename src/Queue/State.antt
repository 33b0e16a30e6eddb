-- ===== src/Queue/State.antt =====
-- The state of `OcrQueue` and its `_Job` objects (app/services/ocr_queue.py).
-- A job object is a reference into `heap`; the deque `_pending` and the list `_active` hold
-- references, and so does `_jobs`, keyed by task id. Task ids (UUIDs) and times are numbers: the
-- code only stores and compares them.
use pdf_engine_toolbox.Base.{
  ℕ, suc, ◌+◌, Bool, false, not, ◌&&◌, String, Option, none, List, [], ◌∷◌, ◌++◌, ◌==◌,
  if◌then◌else◌, is_some, is_empty, length, keep_if, Dict, lookup, insert,
}

-- The exceptions that end a job.
pub data Failure : Type 0 where
  timed_out stopped_queue : Failure
  raised : String → Failure

-- What the queue takes from libraries: page and document results, bytes, and the floats of the
-- page-time average. `wait_seconds work page_seconds workers` is
-- `math.ceil(work * page_seconds / workers)`; `smooth average elapsed` is the moving average
-- `0.8 * average + 0.2 * elapsed`; `describe` is the text of an exception, with its errno name.
pub record Host : Type 1 where
  pub Page : Type 0
  pub Response : Type 0
  pub Bytes : Type 0
  pub Float : Type 0
  pub initial_page_seconds : Float
  pub smooth : Float → Float → Float
  pub wait_seconds : ℕ → Float → ℕ → ℕ
  pub describe : Failure → String

pub data Operation : Type 0 where
  ocr rapid_ocr orientation tables : Operation

pub data Status : Type 0 where
  pending processing completed failed : Status

-- `_Job.source`: the spilled path of a persistent job, or the bytes held in memory.
pub data Source (B : Type 0) : Type 0 where
  spilled : String → Source B
  in_memory : B → Source B

pub record Job (h : Host) : Type 0 where
  pub id : ℕ
  pub operation : Operation
  pub source : Source (h.Bytes)
  pub persistent : Bool
  pub targets : List ℕ
  pub units : List ℕ
  pub done : Dict (h.Page)
  pub inflight : ℕ
  pub error : Option Failure
  pub created_at : ℕ
  pub seq : ℕ
  pub page_count : ℕ
  pub started : Bool
  pub event : Bool
  pub result : Option (h.Response)
  pub finishing : Bool
  pub content : Option (h.Bytes)
  pub terminal : Option (Status × String)

pub record OcrQueue (h : Host) : Type 0 where
  pub workers : ℕ
  pub max_active : ℕ
  pub max_jobs : ℕ
  pub ttl : ℕ
  pub heap : ℕ → Job h
  pub pending : List ℕ
  pub active : List ℕ
  pub jobs : Dict ℕ
  pub reserved : ℕ
  pub persistent_rr : ℕ
  pub sync_rr : ℕ
  pub prefer_sync : Bool
  pub sync_streak : ℕ
  pub next_seq : ℕ
  pub stopped : Bool
  pub page_seconds : h.Float
  pub running : ℕ
  pub max_running : ℕ

-- The arguments of `_Job(...)` that the queue's callers choose.
pub record Request (h : Host) : Type 0 where
  pub id : ℕ
  pub operation : Operation
  pub source : Source (h.Bytes)
  pub persistent : Bool
  pub targets : List ℕ
  pub page_count : ℕ
  pub created_at : ℕ
  pub done : Dict (h.Page)
  pub content : Option (h.Bytes)

-- An object's fields change by a write to the heap.
abbrev pub update : {J : Type 0} → (ℕ → J) → ℕ → J → ℕ → J
update heap r j r' = if r == r' then j else heap r'

module _ {h : Host} where
  -- `_Job.__init__`
  unfoldable pub new_job : Request h → Job h
  new_job a = record {
    id = a.id;
    operation = a.operation;
    source = a.source;
    persistent = a.persistent;
    targets = a.targets;
    units = keep_if (λ unit. not (is_some (lookup unit a.done))) a.targets;
    done = a.done;
    inflight = 0;
    error = none;
    created_at = a.created_at;
    seq = 0;
    page_count = a.page_count;
    started = false;
    event = false;
    result = none;
    finishing = false;
    content = a.content;
    terminal = none;
  }

  -- `_Job.remaining_pages`
  abbrev pub remaining_pages : Job h → ℕ
  remaining_pages j = length j.units + j.inflight

  -- A job with nothing left to run and nobody running it, not yet handed out to be finished.
  abbrev pub is_drained : Job h → Bool
  is_drained j = is_empty j.units && (j.inflight == 0) && not j.finishing

  -- `j.units and j.error is None`
  abbrev pub is_ready : Job h → Bool
  is_ready j = not (is_empty j.units) && not (is_some j.error)

  -- `OcrQueue._enqueue`: the job gets the next sequence number and goes to the end.
  unfoldable pub enqueue : ℕ → OcrQueue h → OcrQueue h
  enqueue r q =
      let seq = suc q.next_seq in
      let job = q.heap r in
      record q {
        next_seq = seq;
        heap = update q.heap r (record job { seq = seq });
        jobs = if job.persistent then insert job.id r q.jobs else q.jobs;
        pending = q.pending ++ r ∷ [];
      }
