-- ===== src/Tests/Runs.antt =====
-- A run of the OCR queue: a request for one page arrives, a worker reads it and then finishes it.
use pdf_engine_toolbox.Base.{
  ◌≡◌, ◌≤◌, refl, inl, true, false, none, some, List, [], ◌∷◌, arith, is_some, lookup, length,
}
use pdf_engine_toolbox.Queue.State.{OcrQueue, new_job}
use pdf_engine_toolbox.Queue.Next.{Pick, next_unit}
use pdf_engine_toolbox.Queue.Work.{returned, begin_run, end_run, add_job}
use pdf_engine_toolbox.Queue.Run.{
  System, Reach, Holds, here, arrive, take, bring, start, next, reading,
}
use pdf_engine_toolbox.Queue.Run.Inv.{Inv}
use pdf_engine_toolbox.Queue.Run.Steps.{finished_has_every_page}
use pdf_engine_toolbox.Queue.Admission.{Desk, Submits, Submits-limit, enter, queue_job, leave}
use pdf_engine_toolbox.Queue.Work.{reserve, release}
use pdf_engine_toolbox.Queue.Status.{eta}
use pdf_engine_toolbox.Queue.Status.Wait.{eta_fifo}
use pdf_engine_toolbox.Tests.Scheduler.{demo, scan_request, queue_of}

abbrev idle : System demo
unfolding new_job
idle = record {
  queue = record (queue_of 2 [] []) { heap = λ _. new_job (scan_request 0 []); jobs = [] };
  hands = [];
}

abbrev reads_page : Pick
reads_page = record { job = 1; unit = some 6; first = true }

abbrev closes_job : Pick
closes_job = record { job = 1; unit = none; first = false }

abbrev arrived : System demo
arrived = record idle { queue = add_job 1 (scan_request 21 (6 ∷ [])) idle.queue }

abbrev handed : System demo
handed = record { queue = (next_unit arrived.queue).0; hands = reads_page ∷ [] }

abbrev brought : System demo
brought = record { queue = end_run 1 6 (returned 42) 3 (begin_run handed.queue); hands = [] }

abbrev closing : System demo
closing = record { queue = (next_unit brought.queue).0; hands = closes_job ∷ [] }

one_page_run : Reach idle closing
unfolding next_unit add_job end_run begin_run new_job
one_page_run =
    next
      (next
        (next (next start (arrive idle 1 (scan_request 21 (6 ∷ [])) refl refl))
          (take arrived reads_page refl refl))
        (bring handed reads_page 6 [] (returned 42) 3 here refl refl))
      (take brought closes_job refl refl)

idle-Inv : Inv idle
unfolding new_job
idle-Inv = record {
  jobs = λ r. record {
    flight = refl;
    out = λ e. (refl, refl);
    failed = inl refl;
    covered = λ e u m. absurd (omega arith);
  };
  closers = λ p qs m e. elim_held m;
}
  where
    elim_held : {p : Pick} {qs : List Pick} {A : Type 0} → Holds p [] qs → A
    elim_held m = elim m [ ]

finished_has_every_page_example :
    (is_some (lookup 6 (closing.queue.heap 1).done) ≡ true) × (reading 1 closing.hands ≡ 0)
unfolding next_unit add_job end_run begin_run new_job
finished_has_every_page_example =
    finished_has_every_page closes_job [] 6 idle-Inv one_page_run here refl refl (omega arith)

-- Two submitters reserve, one queues its job and leaves.
abbrev desk : Desk demo
desk = record { queue = idle.queue; entered = 0; leaving = 0 }

abbrev reserved_once : OcrQueue demo
reserved_once = record idle.queue { reserved = 1 }

abbrev desk_queued : Desk demo
desk_queued = record {
  queue = add_job 1 (scan_request 21 (6 ∷ [])) reserved_once;
  entered = 0;
  leaving = 1;
}

one_submission :
    Submits desk (record { queue = release desk_queued.queue; entered = 0; leaving = 0 })
unfolding reserve idle
one_submission =
    Submits.next
      (Submits.next (Submits.next Submits.start (enter desk reserved_once refl)) (
        queue_job (record { queue = reserved_once; entered = 1; leaving = 0 }) 0 1
          (scan_request 21 (6 ∷ [])) refl refl))
      (leave desk_queued 0 refl)

Submits-limit_example :
    (length (release desk_queued.queue).jobs ≤ 5) × ((release desk_queued.queue).reserved ≡ 0)
unfolding new_job
Submits-limit_example =
    Submits-limit 5 (record { limited = refl; reserved = refl; fits = omega arith }) one_submission

-- Two queued scans: the second is behind the first.
abbrev two_waiting : OcrQueue demo
two_waiting = record (queue_of 2 (1 ∷ 2 ∷ []) []) {
  heap = λ r. record (new_job (scan_request r (0 ∷ 1 ∷ []))) { seq = r };
}

eta_fifo_example : eta two_waiting 1 ≤ eta two_waiting 2
unfolding new_job
eta_fifo_example =
    eta_fifo two_waiting 1 2 (λ a b le. grind arith) refl refl (omega arith) (omega arith)
