-- ===== src/Tasks.antt =====
-- app/services/task_service.py: the tasks kept in memory. Ids are numbers and `now` is the time of the
-- call; a task that is not found in memory is looked up in the OCR queue, which `queued` stands for.
pub mod Kept
pub mod Lifetime
use pdf_engine_toolbox.Base.{
  ℕ, ◌+◌, Bool, true, false, not, ◌&&◌, String, Option, none, some, List, [], ◌∷◌, ltb, ◌==◌,
  if◌then◌else◌, Dict, lookup, insert,
}
use pdf_engine_toolbox.Queue.State.{Status, pending, processing, completed, failed}

-- `R` is what a task results in; `operation` is a number that names it.
pub record TaskInfo (R : Type 0) : Type 0 where
  pub id : ℕ
  pub operation : ℕ
  pub status : Status
  pub result : Option R
  pub error : Option String
  pub created_at : ℕ
  pub completed_at : Option ℕ

abbrev pub max_age_seconds : ℕ
max_age_seconds = 3600

-- `t.completed_at and (now - t.completed_at) > _MAX_AGE_SECONDS`; a time of 0 is falsy.
abbrev pub is_old : ℕ → Option ℕ → Bool
is_old now none = false
is_old now (some t) = not (t == 0) && ltb (t + max_age_seconds) now

module _ {R : Type 0} where
  abbrev pub new_task : ℕ → ℕ → ℕ → TaskInfo R
  new_task i operation now = record {
    id = i;
    operation = operation;
    status = pending;
    result = none;
    error = none;
    created_at = now;
    completed_at = none;
  }

  unfoldable pub prune_old_tasks : ℕ → Dict (TaskInfo R) → Dict (TaskInfo R)
  prune_old_tasks now [] = []
  prune_old_tasks now ((i, t) ∷ ts) =
      if is_old now t.completed_at then prune_old_tasks now ts else (i, t) ∷ prune_old_tasks now ts

  -- `i` is the fresh UUID.
  unfoldable pub create_task : ℕ → ℕ → ℕ → Dict (TaskInfo R) → Dict (TaskInfo R)
  unfolding prune_old_tasks
  create_task i operation now tasks =
      insert i (new_task i operation now) (prune_old_tasks now tasks)

  unfoldable pub get_task : (ℕ → Option (TaskInfo R)) → ℕ → Dict (TaskInfo R) → Option (TaskInfo R)
  get_task queued i tasks = elim (lookup i tasks) [ none ↦ queued i | some t ↦ some t ]

  -- A task that is found is changed in place.
  abbrev pub change : (TaskInfo R → TaskInfo R) → ℕ → Dict (TaskInfo R) → Dict (TaskInfo R)
  change f i tasks = elim (lookup i tasks) [ none ↦ tasks | some t ↦ insert i (f t) tasks ]

  unfoldable pub complete_task : ℕ → Option R → ℕ → Dict (TaskInfo R) → Dict (TaskInfo R)
  complete_task i result now =
      change (λ t. record t { status = completed; result = result; completed_at = some now }) i

  unfoldable pub fail_task : ℕ → String → ℕ → Dict (TaskInfo R) → Dict (TaskInfo R)
  fail_task i error now =
      change (λ t. record t { status = failed; error = some error; completed_at = some now }) i

  unfoldable pub set_processing : ℕ → Dict (TaskInfo R) → Dict (TaskInfo R)
  set_processing i = change (λ t. record t { status = processing }) i
