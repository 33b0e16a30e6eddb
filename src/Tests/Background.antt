-- ===== src/Tests/Background.antt =====
-- Two background tasks, one that ended long ago.
use pdf_engine_toolbox.Base.{
  ℕ, arith, ◌≤◌, ◌≢◌, ◌≡◌, refl, none, some, [], ◌∷◌, Dict, ◌==◌, if◌then◌else◌,
}
use pdf_engine_toolbox.Queue.State.{processing, completed}
use pdf_engine_toolbox.Tasks.{
  TaskInfo, create_task, set_processing, prune_old_tasks, get_task, complete_task,
}
use pdf_engine_toolbox.Tasks.Kept.{get_task-complete_task}
use pdf_engine_toolbox.Tasks.Lifetime.{
  ends, creates, completes, Stages, Lifetime, get_task-Lifetime,
}

abbrev ended_task : TaskInfo ℕ
ended_task = record {
  id = 1;
  operation = 4;
  status = completed;
  result = some 9;
  error = none;
  created_at = 10;
  completed_at = some 20;
}

abbrev running_task : TaskInfo ℕ
running_task = record {
  id = 2;
  operation = 4;
  status = processing;
  result = none;
  error = none;
  created_at = 30;
  completed_at = none;
}

abbrev demo_tasks : Dict (TaskInfo ℕ)
demo_tasks = (1, ended_task) ∷ (2, running_task) ∷ []

ended_task_goes : prune_old_tasks 4000 demo_tasks ≡ (2, running_task) ∷ []
unfolding prune_old_tasks
ended_task_goes = refl

-- Task 3 beside a task that is completed while it waits, and another that is created after it.
abbrev task_waits : Dict (TaskInfo ℕ)
task_waits = complete_task 2 (some 8) 4010 (create_task 3 4 4000 demo_tasks)

abbrev task_runs : Dict (TaskInfo ℕ)
task_runs = set_processing 3 task_waits

abbrev task_rests : Dict (TaskInfo ℕ)
task_rests = create_task 5 4 4050 (complete_task 3 (some 6) 4040 task_runs)

other_task : ◌≢◌ {A = ℕ} 2 3
other_task e = ground arith

later_task : ◌≢◌ {A = ℕ} 5 3
later_task e = ground arith

in_time : 4050 ≤ 4100
in_time = omega arith

abbrev task_stages : Stages 3 4 4000 4040 4100 (some 6) demo_tasks task_rests
task_stages = record {
  waiting = task_waits;
  running = task_runs;
  waits =
      completes (create_task 3 4 4000 demo_tasks) task_waits 2 (some 8) 4010 other_task
        (ends task_waits);
  runs = ends task_runs;
  rests =
      creates (complete_task 3 (some 6) 4040 task_runs) task_rests 5 4 4050 later_task in_time
        (ends task_rests);
}

get_task-Lifetime_example :
    Lifetime
      (λ i. none)
      3
      4
      4000
      4040
      (some 6)
      task_waits
      task_runs
      task_rests
      (create_task 6 4 9000 task_rests)
get_task-Lifetime_example =
    get_task-Lifetime (λ i. none) 3 4 4000 4040 4100 6 4 9000 (some 6) demo_tasks task_rests
      task_stages (refl, (refl, tt)) (omega arith) (omega arith) (omega arith) (ground arith)

get_task-complete_task_example : get_task (λ i. none) 2 (complete_task 2 (some 5) 60 demo_tasks) ≡ (
    if 2 == 2
    then some (record running_task { status = completed; result = some 5; completed_at = some 60 })
    else get_task (λ i. none) 2 demo_tasks)
get_task-complete_task_example =
    get_task-complete_task (λ i. none) 2 2 60 (some 5) running_task demo_tasks refl
