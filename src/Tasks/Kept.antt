-- ===== src/Tasks/Kept.antt =====
-- How long a task is kept (app/services/task_service.py).
use pdf_engine_toolbox.Base.{
  ℕ, ◌≡◌, inl, inr, refl, subst, Option, none, some, [], ◌∷◌, ◌==◌, if◌then◌else◌, arith, Dict,
  lookup, lookup-insert, Bool-cases,
}
use pdf_engine_toolbox.Tasks.{TaskInfo, is_old, prune_old_tasks, complete_task, get_task}
use pdf_engine_toolbox.Queue.State.{completed}

module _ {R : Type 0} where
  -- A dict has one value of a key.
  abbrev pub UniqueTasks : Dict (TaskInfo R) → Type 0
  UniqueTasks [] = Unit
  UniqueTasks (e ∷ es) = (lookup e.0 es ≡ none) × UniqueTasks es

  pub lookup_pruned_none :
      (j now : ℕ) (tasks : Dict (TaskInfo R))
      → lookup j tasks ≡ none
      → lookup j (prune_old_tasks now tasks) ≡ none
  unfolding prune_old_tasks
  lookup_pruned_none j now [] h = refl
  lookup_pruned_none j now (e ∷ es) h = ground (arith, lookup_pruned_none j now es)

  abbrev pub unless_old : ℕ → Option (TaskInfo R) → Option (TaskInfo R)
  unless_old now none = none
  unless_old now (some t) = if is_old now t.completed_at then none else some t

  pub lookup-prune_old_tasks :
      (j now : ℕ) (tasks : Dict (TaskInfo R))
      → UniqueTasks tasks
      → lookup j (prune_old_tasks now tasks) ≡ unless_old now (lookup j tasks)
  unfolding prune_old_tasks
  lookup-prune_old_tasks j now [] u = refl
  lookup-prune_old_tasks j now (e ∷ es) u = elim (Bool-cases (e.0 == j)) [
    | inl here ↦
        let same : e.0 ≡ j = ground arith in
        let gone : lookup j (prune_old_tasks now es) ≡ none =
          lookup_pruned_none j now es (subst (λ k. lookup k es ≡ none) same u.0) in
        ground (arith, gone)
    | inr other ↦ ground (arith, lookup-prune_old_tasks j now es u.1)
  ]

  -- If a task is in memory, then after it is completed, its record is found completed with the
  -- result and the time, and every other task is found as before, in memory or in the queue.
  pub get_task-complete_task :
      (queued : ℕ → Option (TaskInfo R)) (i j now : ℕ) (result : Option R) (t : TaskInfo R)
      (tasks : Dict (TaskInfo R))
      → lookup i tasks ≡ some t
      → get_task queued j (complete_task i result now tasks) ≡ (
          if i == j
          then some (record t { status = completed; result = result; completed_at = some now })
          else get_task queued j tasks)
  unfolding get_task complete_task
  get_task-complete_task queued i j now result t tasks h = ground (
    arith,
    h,
    lookup-insert j i (record t { status = completed; result = result; completed_at = some now })
        tasks,
  )
