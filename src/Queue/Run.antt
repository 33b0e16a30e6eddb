-- ===== src/Queue/Run.antt =====
-- The queue with its worker threads: between two critical sections a worker holds what the scheduler
-- handed it, a page to read or a job to finish. A step is one critical section of some thread, so a
-- run is any interleaving of them. Shutdown ends a run.
pub mod Hands
pub mod Ends
pub mod Inv
pub mod Steps
use pdf_engine_toolbox.Base.{
  ℕ, zero, suc, ◌+◌, ◌≡◌, ◌<◌, Bool, false, true, Option, none, some, List, [], ◌∷◌, ◌++◌, ◌&&◌,
  ◌==◌, if◌then◌else◌, length, is_some,
}
use pdf_engine_toolbox.Queue.State.{Host, Request, OcrQueue}
use pdf_engine_toolbox.Queue.Next.{Pick, next_unit}
use pdf_engine_toolbox.Queue.Next.Rooms.{queued}
use pdf_engine_toolbox.Queue.Work.{Outcome, begin_run, end_run, finish, expire, add_job}

pub record System (h : Host) : Type 0 where
  pub queue : OcrQueue h
  pub hands : List Pick

-- How many workers hold job `r`.
abbrev pub holding : ℕ → List Pick → ℕ
holding r [] = 0
holding r (p ∷ ps) = (if p.job == r then 1 else 0) + holding r ps

-- The pages of job `r` that workers are reading.
abbrev pub reading : ℕ → List Pick → ℕ
reading r [] = 0
reading r (p ∷ ps) = (if (p.job == r) && is_some p.unit then 1 else 0) + reading r ps

abbrev pub is_unit : Option ℕ → ℕ → Bool
is_unit none u = false
is_unit (some v) u = v == u

-- How many workers are reading page `u` of job `r`.
abbrev pub reading_page : ℕ → ℕ → List Pick → ℕ
reading_page r u [] = 0
reading_page r u (p ∷ ps) =
    (if (p.job == r) && is_unit p.unit u then 1 else 0) + reading_page r u ps

-- `ps` with `p` at some place in it.
pub data Holds (p : Pick) : List Pick → List Pick → Type 0 where
  here : {ps : List Pick} → Holds p (p ∷ ps) ps
  there : {x : Pick} {ps qs : List Pick} → Holds p ps qs → Holds p (x ∷ ps) (x ∷ qs)

module _ {h : Host} where
  pub data Step : System h → System h → Type 0 where
    -- a request arrives; its job object is new
    arrive :
        (s : System h) (r : ℕ) (a : Request h)
        → queued r s.queue ≡ 0
        → holding r s.hands ≡ 0
        → Step s (record s { queue = add_job r a s.queue })
    -- a worker asks for work
    take :
        (s : System h) (p : Pick)
        → s.queue.stopped ≡ false
        → (next_unit s.queue).1 ≡ some p
        → Step s (record { queue = (next_unit s.queue).0; hands = p ∷ s.hands })
    -- a worker asks and has to wait
    rest :
        (s : System h)
        → s.queue.stopped ≡ false
        → (next_unit s.queue).1 ≡ none
        → Step s (record s { queue = (next_unit s.queue).0 })
    -- a page comes back
    bring :
        (s : System h) (p : Pick) (u : ℕ) (ps : List Pick) (o : Outcome (h.Page)) (t : h.Float)
        → Holds p s.hands ps
        → p.unit ≡ some u
        → s.queue.stopped ≡ false
        → Step s (record { queue = end_run p.job u o t (begin_run s.queue); hands = ps })
    -- a drained job is finished or failed
    close :
        (s : System h) (p : Pick) (ps : List Pick) (a : Outcome (h.Response))
        (b c : Outcome (Unit {0})) (d : Bool)
        → Holds p s.hands ps
        → p.unit ≡ none
        → Step s (record { queue = finish p.job a b c d s.queue; hands = ps })
    -- a synchronous caller gives up
    give_up : (s : System h) (r : ℕ) → Step s (record s { queue = expire r s.queue })

  pub data Reach (s : System h) : System h → Type 0 where
    start : Reach s s
    next : {t u : System h} → Reach s t → Step t u → Reach s u
