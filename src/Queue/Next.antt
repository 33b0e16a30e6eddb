-- ===== src/Queue/Next.antt =====
-- `OcrQueue._next_unit_locked` (app/services/ocr_queue.py): what a free worker runs next. The three
-- parts of the method are three functions here: a synchronous caller may take a slot from a
-- persistent job (`make_room`), waiting jobs are admitted (`admit`), and one unit of an active job
-- is handed out (`scan`).
pub mod Cases
pub mod Rooms
pub mod Slots
pub mod Pages
pub mod Lanes
pub mod Progress
use pdf_engine_toolbox.Base.{
  ℕ, zero, suc, ◌+◌, ◌-◌, ◌%◌, min, Bool, true, false, not, ◌&&◌, ◌||◌, Option, none, some, List,
  [], ◌∷◌, ◌++◌, reverse, ltb, leb, ◌==◌, if◌then◌else◌, is_some, length, head?, tail, get_or,
  find?, any, remove,
}
use pdf_engine_toolbox.Queue.State.{Host, OcrQueue, update, is_drained, is_ready}

-- `(job, unit, first)`; a unit `none` means "finish this job".
pub record Pick : Type 0 where
  pub job : ℕ
  pub unit : Option ℕ
  pub first : Bool

-- The scan's parameters: who yields, whether both lanes are ready, and which lane is served.
pub record Lane : Type 0 where
  pub yielding : Option ℕ
  pub mixed : Bool
  pub prefer_persistent : Bool
  pub start : ℕ

-- `a == b` on Booleans
abbrev is_same : Bool → Bool → Bool
is_same true b = b
is_same false b = not b

module _ {h : Host} where
  abbrev pub persistent_at : OcrQueue h → ℕ → Bool
  persistent_at q r = (q.heap r).persistent

  abbrev pub sync_at : OcrQueue h → ℕ → Bool
  sync_at q r = not (q.heap r).persistent

  abbrev pub drained_at : OcrQueue h → ℕ → Bool
  drained_at q r = is_drained (q.heap r)

  abbrev pub ready_at : OcrQueue h → ℕ → Bool
  ready_at q r = is_ready (q.heap r)

  -- `job.finishing = True; self._active.remove(job); return job, None, False`
  unfoldable pub hand_finish : ℕ → OcrQueue h → OcrQueue h × Pick
  hand_finish r q = (
    record q {
      heap = update q.heap r (record (q.heap r) { finishing = true });
      active = remove r q.active;
    },
    record { job = r; unit = none; first = false },
  )

  -- A synchronous job waits, none is active, and every slot is taken.
  unfoldable pub wants_slot : OcrQueue h → Bool
  wants_slot q =
      is_some (find? (sync_at q) q.pending)
      && not (any (sync_at q) q.active)
      && (ltb 1 q.max_active || q.prefer_sync)
      && leb q.max_active (length q.active)

  -- The active job asked to yield: the last persistent one that still has pages.
  unfoldable pub yield_candidate : OcrQueue h → Option ℕ
  yield_candidate q = find? (λ r. persistent_at q r && ready_at q r) (reverse q.active)

  -- A yielding job goes back to the front of the queue and drops its decrypted input.
  unfoldable pub yield_slot : ℕ → OcrQueue h → OcrQueue h
  yield_slot r q = record q {
    active = remove r q.active;
    heap = update q.heap r (record (q.heap r) { content = none });
    pending = r ∷ q.pending;
  }

  -- The queue, and the job that still has a page in flight and must not start another.
  unfoldable pub make_room : OcrQueue h → OcrQueue h × Option ℕ
  unfolding wants_slot yield_candidate yield_slot
  make_room q =
      if wants_slot q
      then elim (yield_candidate q) [
        | none ↦ (q, none)
        | some r ↦ if (q.heap r).inflight == 0 then (yield_slot r q, none) else (q, some r)
      ]
      else (q, none)

  -- Which waiting job is admitted next, from the first of each class.
  choose_between : OcrQueue h → Option ℕ → Option ℕ → Option ℕ
  choose_between q (some sync) (some persistent) = some (
      if q.max_active == 1
      then if q.prefer_sync then sync else persistent
      else if any (sync_at q) q.active
      then persistent
      else sync)
  choose_between q none _ = head? q.pending
  choose_between q (some sync) none = head? q.pending

  unfoldable pub choose : OcrQueue h → Option ℕ
  unfolding choose_between
  choose q = choose_between q (find? (sync_at q) q.pending) (find? (persistent_at q) q.pending)

  unfoldable pub admit_one : ℕ → OcrQueue h → OcrQueue h
  admit_one r q = record q {
    pending = remove r q.pending;
    active = q.active ++ r ∷ [];
    prefer_sync = persistent_at q r;
  }

  -- `while len(self._active) < self.max_active and self._pending`, on fuel.
  unfoldable pub admit_loop : ℕ → OcrQueue h → OcrQueue h
  unfolding choose admit_one
  admit_loop zero q = q
  admit_loop (suc fuel) q =
      if ltb (length q.active) q.max_active
      then elim (choose q) [ none ↦ q | some r ↦ admit_loop fuel (admit_one r q) ]
      else q

  -- Each round takes a job out of `pending`, so its length is fuel enough.
  unfoldable pub admit : OcrQueue h → OcrQueue h
  unfolding admit_loop
  admit q = admit_loop (length q.pending) q

  -- `job is not yielding and job.units and job.error is None`
  abbrev pub is_candidate : OcrQueue h → Option ℕ → ℕ → Bool
  is_candidate q none r = ready_at q r
  is_candidate q (some y) r = not (r == y) && ready_at q r

  -- One page of the job at `index` starts.
  unfoldable pub hand_unit : ℕ → ℕ → OcrQueue h → OcrQueue h × Pick
  hand_unit r index q =
      let job = q.heap r in
      (
        record q {
          heap =
              update q.heap r (record job {
                units = tail job.units;
                inflight = suc job.inflight;
                started = true;
              });
          persistent_rr = if job.persistent then index + 1 else q.persistent_rr;
          sync_rr = if job.persistent then q.sync_rr else index + 1;
          sync_streak = if job.persistent then 0 else min 2 (q.sync_streak + 1);
        },
        record { job = r; unit = head? job.units; first = not job.started },
      )

  unfoldable pub lane : OcrQueue h → Option ℕ → Lane
  lane q y =
      let persistent_ready = any (λ r. is_candidate q y r && persistent_at q r) q.active in
      let sync_ready = any (λ r. is_candidate q y r && sync_at q r) q.active in
      let mixed = persistent_ready && sync_ready in
      let prefer = if mixed then leb 2 q.sync_streak else persistent_ready in
      record {
        yielding = y;
        mixed = mixed;
        prefer_persistent = prefer;
        start = if prefer then q.persistent_rr else q.sync_rr;
      }

  -- What the loop does at one position: `finish` a drained job, `run` a page, or go on.
  unfoldable pub visit : OcrQueue h → Lane → ℕ → Option (OcrQueue h × Pick)
  unfolding hand_finish hand_unit
  visit q l index =
      let r = get_or q.active index 0 in
      if drained_at q r
      then some (hand_finish r q)
      else if is_candidate q l.yielding r
      then if l.mixed && not (is_same (persistent_at q r) l.prefer_persistent)
        then none
        else some (hand_unit r index q)
      else none

  -- `for offset in range(count)`, with `left` offsets to go.
  unfoldable pub scan : OcrQueue h → Lane → ℕ → OcrQueue h × Option Pick
  unfolding visit
  scan q l zero = (q, none)
  scan q l (suc left) =
      let count = length q.active in
      elim (visit q l ((l.start + (count - suc left)) % count)) [
        | none ↦ scan q l left
        | some (q', p) ↦ (q', some p)
      ]

  -- The second half of the method, after the slots are settled.
  unfoldable pub dispatch : OcrQueue h → Option ℕ → OcrQueue h × Option Pick
  unfolding lane scan
  dispatch q y = scan q (lane q y) (length q.active)

  unfoldable pub next_unit : OcrQueue h → OcrQueue h × Option Pick
  unfolding hand_finish make_room admit dispatch
  next_unit q = elim (find? (drained_at q) q.active) [
    | some r ↦ let (q', p) = hand_finish r q in (q', some p)
    | none ↦ let (q', y) = make_room q in dispatch (admit q') y
  ]
