-- ===== src/Tasks/Lifetime.antt =====
-- The life of a task among others (app/services/task_service.py): created, started, completed, and gone.
use pdf_engine_toolbox.Base.{
  ℕ, ◌+◌, ◌≤◌, ◌<◌, ◌≡◌, ◌≢◌, inl, inr, refl, ap, sym, ◌∙◌, subst, false, String, Option, none,
  some, [], ◌∷◌, ◌==◌, arith, Dict, lookup, insert, lookup-insert, Bool-cases, Option-cases,
}
use pdf_engine_toolbox.Tasks.{
  TaskInfo, is_old, change, new_task, prune_old_tasks, create_task, complete_task, fail_task,
  set_processing, get_task,
}
use pdf_engine_toolbox.Tasks.Kept.{
  UniqueTasks, lookup_pruned_none, unless_old, lookup-prune_old_tasks,
}
use pdf_engine_toolbox.Queue.State.{Status, pending, processing, completed}

-- A task that has not ended, or that ended an hour ago or less at `last`.
abbrev Lasts : ℕ → Option ℕ → Type 0
Lasts last none = Unit {0}
Lasts last (some t) = last ≤ t + 3600

Lasts-is_old : (now last : ℕ) (o : Option ℕ) → now ≤ last → Lasts last o → is_old now o ≡ false
Lasts-is_old now last none le h = refl
Lasts-is_old now last (some t) le h = ground arith

module _ {R : Type 0} where
  -- Any operations on tasks other than `i`, in any order, none of them later than `last`.
  pub data Others (i last : ℕ) : Dict (TaskInfo R) → Dict (TaskInfo R) → Type 0 where
    ends : (s : Dict (TaskInfo R)) → Others i last s s
    creates :
        (s k : Dict (TaskInfo R)) (j operation now : ℕ)
        → j ≢ i
        → now ≤ last
        → Others i last (create_task j operation now s) k
        → Others i last s k
    starts :
        (s k : Dict (TaskInfo R)) (j : ℕ)
        → j ≢ i
        → Others i last (set_processing j s) k
        → Others i last s k
    completes :
        (s k : Dict (TaskInfo R)) (j : ℕ) (result : Option R) (now : ℕ)
        → j ≢ i
        → Others i last (complete_task j result now s) k
        → Others i last s k
    fails :
        (s k : Dict (TaskInfo R)) (j : ℕ) (error : String) (now : ℕ)
        → j ≢ i
        → Others i last (fail_task j error now s) k
        → Others i last s k

  UniqueTasks-insert :
      (k : ℕ) (v : TaskInfo R) (d : Dict (TaskInfo R)) → UniqueTasks d → UniqueTasks (insert k v d)
  UniqueTasks-insert k v [] u = (refl, tt)
  UniqueTasks-insert k v (e ∷ d) u = elim (Bool-cases (e.0 == k)) [
    | inl here ↦
        let same : e.0 ≡ k = ground arith in rw here (subst (λ x. lookup x d ≡ none) same u.0, u.1)
    | inr other ↦
        rw other (ground (arith, lookup-insert e.0 k v d, u.0), UniqueTasks-insert k v d u.1)
  ]

  UniqueTasks-prune_old_tasks :
      (now : ℕ) (d : Dict (TaskInfo R)) → UniqueTasks d → UniqueTasks (prune_old_tasks now d)
  unfolding prune_old_tasks
  UniqueTasks-prune_old_tasks now [] u = tt
  UniqueTasks-prune_old_tasks now (e ∷ d) u = elim (Bool-cases (is_old now e.1.completed_at)) [
    | inl old ↦ rw old (UniqueTasks-prune_old_tasks now d u.1)
    | inr young ↦ rw young (lookup_pruned_none e.0 now d u.0, UniqueTasks-prune_old_tasks now d u.1)
  ]

  UniqueTasks-change :
      (f : TaskInfo R → TaskInfo R) (j : ℕ) (s : Dict (TaskInfo R))
      → UniqueTasks s
      → UniqueTasks (change f j s)
  UniqueTasks-change f j s u = elim (Option-cases (lookup j s)) [
    | inl missing ↦ subst UniqueTasks (sym (unchanged missing)) u
    | inr (t, found) ↦ subst UniqueTasks (sym (changed t found)) (UniqueTasks-insert j (f t) s u)
  ]
    where
      unchanged : lookup j s ≡ none → change f j s ≡ s
      unchanged e = ground (arith, e)

      changed : (t : TaskInfo R) → lookup j s ≡ some t → change f j s ≡ insert j (f t) s
      changed t e = ground (arith, e)

  Others-UniqueTasks :
      {i last : ℕ} {s k : Dict (TaskInfo R)} → Others i last s k → UniqueTasks s → UniqueTasks k
  unfolding create_task set_processing complete_task fail_task
  Others-UniqueTasks (ends s) u = u
  Others-UniqueTasks (creates s k j operation now ne le more) u =
      Others-UniqueTasks more
        (UniqueTasks-insert j _ (prune_old_tasks now s) (UniqueTasks-prune_old_tasks now s u))
  Others-UniqueTasks (starts s k j ne more) u = Others-UniqueTasks more (UniqueTasks-change _ j s u)
  Others-UniqueTasks (completes s k j result now ne more) u =
      Others-UniqueTasks more (UniqueTasks-change _ j s u)
  Others-UniqueTasks (fails s k j error now ne more) u =
      Others-UniqueTasks more (UniqueTasks-change _ j s u)

  prune_old_tasks-keeps :
      (i now : ℕ) (t : TaskInfo R) (s : Dict (TaskInfo R))
      → lookup i s ≡ some t
      → is_old now t.completed_at ≡ false
      → lookup i (prune_old_tasks now s) ≡ some t
  unfolding prune_old_tasks
  prune_old_tasks-keeps i now t [] e h = cc
  prune_old_tasks-keeps i now t (x ∷ s) e h = elim (Bool-cases (x.0 == i)) [
    | inl here ↦
        let same : x.1 ≡ t = ground arith in
        let young : is_old now x.1.completed_at ≡ false =
          subst (λ y. is_old now y.completed_at ≡ false) (sym same) h in
        ground arith
    | inr other ↦ ground (arith, prune_old_tasks-keeps i now t s)
  ]

  lookup-change :
      (f : TaskInfo R → TaskInfo R) (i j : ℕ) (s : Dict (TaskInfo R))
      → j ≢ i
      → lookup i (change f j s) ≡ lookup i s
  lookup-change f i j s ne = elim (Option-cases (lookup j s)) [
    | inl missing ↦ ground (arith, missing)
    | inr (t, found) ↦ ground (arith, found, lookup-insert i j (f t) s)
  ]

  Others-keeps :
      {i last : ℕ} {s k : Dict (TaskInfo R)} (t : TaskInfo R)
      → Others i last s k
      → Lasts last t.completed_at
      → lookup i s ≡ some t
      → lookup i k ≡ some t
  unfolding create_task set_processing complete_task fail_task
  Others-keeps t (ends s) h e = e
  Others-keeps {i} {last} t (creates s k j operation now ne le more) h e =
      let kept = prune_old_tasks-keeps i now t s e (Lasts-is_old now last t.completed_at le h) in
      Others-keeps t more h (
        lookup-insert i j (new_task j operation now) (prune_old_tasks now s) ∙ ground (arith, kept))
  Others-keeps {i} t (starts s k j ne more) h e =
      Others-keeps t more h (lookup-change _ i j s ne ∙ e)
  Others-keeps {i} t (completes s k j result now ne more) h e =
      Others-keeps t more h (lookup-change _ i j s ne ∙ e)
  Others-keeps {i} t (fails s k j error now ne more) h e =
      Others-keeps t more h (lookup-change _ i j s ne ∙ e)

  get_task-found :
      (queued : ℕ → Option (TaskInfo R)) (i : ℕ) (s : Dict (TaskInfo R)) (t : TaskInfo R)
      → lookup i s ≡ some t
      → get_task queued i s ≡ some t
  unfolding get_task
  get_task-found queued i s t e = ground (arith, e)

  get_task-queued :
      (queued : ℕ → Option (TaskInfo R)) (i : ℕ) (s : Dict (TaskInfo R))
      → lookup i s ≡ none
      → get_task queued i s ≡ queued i
  unfolding get_task
  get_task-queued queued i s e = ground (arith, e)

  lookup-change_own :
      (f : TaskInfo R → TaskInfo R) (i : ℕ) (s : Dict (TaskInfo R)) (t : TaskInfo R)
      → lookup i s ≡ some t
      → lookup i (change f i s) ≡ some (f t)
  lookup-change_own f i s t e = ground (arith, e, lookup-insert i i (f t) s)

  -- The record of a task whose status, result and end are these.
  abbrev pub task_at : ℕ → ℕ → ℕ → Status → Option R → Option ℕ → TaskInfo R
  task_at i operation created status result ended = record {
    id = i;
    operation = operation;
    status = status;
    result = result;
    error = none;
    created_at = created;
    completed_at = ended;
  }

  -- The stages of a task, each followed by operations on other tasks.
  pub record Stages (i operation created ended last : ℕ) (result : Option R)
      (before after : Dict (TaskInfo R)) : Type 0 where
    pub waiting : Dict (TaskInfo R)
    pub running : Dict (TaskInfo R)
    pub waits : Others i last (create_task i operation created before) waiting
    pub runs : Others i last (set_processing i waiting) running
    pub rests : Others i last (complete_task i result ended running) after

  -- What is found of the task at those stages, and after a task that is created `later`.
  abbrev pub Lifetime :
      (ℕ → Option (TaskInfo R))
      → ℕ
      → ℕ
      → ℕ
      → ℕ
      → Option R
      → Dict (TaskInfo R)
      → Dict (TaskInfo R)
      → Dict (TaskInfo R)
      → Dict (TaskInfo R)
      → Type 0
  Lifetime queued i operation created ended result waiting running after pruned =
      (get_task queued i waiting ≡ some (task_at i operation created pending none none))
      × (get_task queued i running ≡ some (task_at i operation created processing none none))
      × (get_task queued i after ≡ some (task_at i operation created completed result (some ended)))
      × (get_task queued i pruned ≡ queued i)

  -- A task that is created, started and completed, with any operations on other tasks in between and
  -- after: until it is started it is found pending; until it is completed it is found processing, with its
  -- own id, operation and time; from then on it is found completed with its result and its end, as long as
  -- no operation is later than an hour after the end; and once a task is created more than an hour after
  -- the end, which is not at time 0, it is found only if the queue has it.
  pub get_task-Lifetime :
      (queued : ℕ → Option (TaskInfo R)) (i operation created ended last j other later : ℕ)
      (result : Option R) (before after : Dict (TaskInfo R))
      (stages : Stages i operation created ended last result before after)
      → UniqueTasks before
      → last ≤ ended + 3600
      → 0 < ended
      → ended + 3600 < later
      → j ≢ i
      → Lifetime queued i operation created ended result stages.waiting stages.running after
          (create_task j other later after)
  unfolding create_task set_processing complete_task
  get_task-Lifetime queued i operation created ended last j other later result before after stages
        unique soon positive long ne =
      let waiting : lookup i stages.waiting ≡ some (task_at i operation created pending none none) =
        Others-keeps _ stages.waits tt (
          lookup-insert i i (new_task i operation created) (prune_old_tasks created before)
          ∙ ground arith) in
      let running : lookup i stages.running
          ≡ some (task_at i operation created processing none none) =
        Others-keeps _ stages.runs tt (lookup-change_own _ i stages.waiting _ waiting) in
      let ended_task : lookup i after
          ≡ some (task_at i operation created completed result (some ended)) =
        Others-keeps _ stages.rests soon (lookup-change_own _ i stages.running _ running) in
      let unique_after : UniqueTasks after = Others-UniqueTasks stages.rests (
        UniqueTasks-change _ i stages.running (
          Others-UniqueTasks stages.runs (
            UniqueTasks-change _ i stages.waiting (
              Others-UniqueTasks stages.waits (
                UniqueTasks-insert i _ _ (UniqueTasks-prune_old_tasks created before unique)))))) in
      let gone : lookup i (prune_old_tasks later after) ≡ none =
        lookup-prune_old_tasks i later after unique_after
        ∙ ap (unless_old later) ended_task
        ∙ ground arith in
      (
        get_task-found queued i stages.waiting _ waiting,
        get_task-found queued i stages.running _ running,
        get_task-found queued i after _ ended_task,
        get_task-queued queued i _ (
            lookup-insert i j (new_task j other later) (prune_old_tasks later after)
            ∙ ground (arith, gone)),
      )
