-- ===== src/Task/Dispatcher/Cancelling.antt =====
-- What cancelling a task promises.
use app_flowy.Prelude.{
  ℕ, ◌+◌, ◌≡◌, ◌≢◌, refl, sym, ◌∙◌, subst, Bool, true, false, Option, none, some, List, [], ◌∷◌,
  ◌++◌, ◌==◌, Bool-cases, inl, inr, if◌then◌else◌, arith,
}
use app_flowy.Task.{Task, TaskId, TaskHandlerId, TaskContent, PendingTask, is_cancel, set_state}
use app_flowy.Task.Queue.{pop_head}
use app_flowy.Task.Dispatcher.{
  TaskDispatcher, TaskStore, Outcome, without_task, task_of, remove_task, cancel_each, cancel_task,
  send, notify, run_task, process, process_found, process_popped, process_next_task,
}

-- How often a handler was called for a task.
unfoldable pub times_run : TaskId → List TaskId → ℕ
times_run id [] = 0
times_run id (x ∷ xs) = (if x == id then 1 else 0) + times_run id xs

-- The task is not in the store, or it is cancelled there.
unfoldable IsIdle : TaskId → List Task → Type 0
IsIdle id ts = (t : Task) → task_of id ts ≡ some t → is_cancel t.state ≡ true

times_run-append :
    (id x : TaskId) (xs : List TaskId) → x ≢ id → times_run id (xs ++ x ∷ []) ≡ times_run id xs
unfolding times_run
times_run-append id x [] n = ground arith
times_run-append id x (y ∷ ys) n = omega (arith, times_run-append id x ys n)

task_of-id : (id : TaskId) (ts : List Task) (t : Task) → task_of id ts ≡ some t → t.id ≡ id
unfolding task_of
task_of-id id [] t h = cc
task_of-id id (x ∷ ts) t h = ground (arith, task_of-id id ts t)

cancel_each-IsIdle : (id : TaskId) (ts : List Task) → IsIdle id (cancel_each id ts)
unfolding IsIdle task_of cancel_each set_state
cancel_each-IsIdle id [] t h = cc
cancel_each-IsIdle id (x ∷ ts) t h = ground (arith, cancel_each-IsIdle id ts t)

task_of-without_task :
    (id other : TaskId) (ts : List Task)
    → task_of id (without_task other ts) ≡ (if other == id then none else task_of id ts)
unfolding task_of without_task
task_of-without_task id other [] = ground arith
task_of-without_task id other (x ∷ ts) = ground (arith, task_of-without_task id other ts)

without_task-IsIdle :
    (id other : TaskId) (ts : List Task) → IsIdle id ts → IsIdle id (without_task other ts)
unfolding IsIdle
without_task-IsIdle id other ts idle t h = ground (arith, task_of-without_task id other ts, idle t)

idle_at :
    (id : TaskId) (ts : List Task) (t : Task)
    → IsIdle id ts
    → task_of id ts ≡ some t
    → is_cancel t.state ≡ true
unfolding IsIdle
idle_at id ts t idle h = idle t h

module _ (handler : TaskHandlerId → TaskContent → Option Outcome) where
  run_task-runs :
      (id : TaskId) (t : Task) (content : TaskContent) (d : TaskDispatcher)
      → t.id ≢ id
      → (times_run id (run_task handler t content d).runs ≡ times_run id d.runs)
        × ((run_task handler t content d).store ≡ d.store)
  unfolding run_task send notify
  run_task-runs id t content d n = ground (arith, times_run-append id t.id d.runs n)

  process-runs :
      (id : TaskId) (t : Task) (d : TaskDispatcher)
      → (t.id ≡ id → is_cancel t.state ≡ true)
      → (times_run id (process handler t d).runs ≡ times_run id d.runs)
        × ((process handler t d).store ≡ d.store)
  unfolding process send notify
  process-runs id t d idle = elim (Bool-cases (is_cancel t.state)) [
    | inl cancelled ↦ ground arith
    | inr live ↦
        let other : t.id ≢ id = λ e. not_both (idle e) live in by_content t.content other live
  ]
    where
      not_both : {b : Bool} → b ≡ true → b ≡ false → ⊥
      not_both p q = cc

      by_content :
          (c : Option TaskContent)
          → t.id ≢ id
          → is_cancel t.state ≡ false
          → (times_run id (process handler (record t { content = c }) d).runs ≡ times_run id d.runs)
            × ((process handler (record t { content = c }) d).store ≡ d.store)
      by_content none n live = ground arith
      by_content (some content) n live =
          ground (arith, run_task-runs id (record t { content = none; ret = false }) content d n)

  -- Nothing that was not run is run, and the task stays as it is in the store, or out of it.
  process_popped-runs :
      (id : TaskId) (popped : Option PendingTask) (d : TaskDispatcher)
      → IsIdle id d.store.tasks
      → (times_run id (process_popped handler popped d).runs ≡ times_run id d.runs)
        × IsIdle id (process_popped handler popped d).store.tasks
  unfolding process_popped remove_task
  process_popped-runs id none d idle = (refl, idle)
  process_popped-runs id (some p) d idle = by_found (task_of p.id d.store.tasks) refl
    where
      left : TaskDispatcher
      left = record d { store = record d.store { tasks = without_task p.id d.store.tasks } }

      by_found :
          (o : Option Task)
          → task_of p.id d.store.tasks ≡ o
          → (times_run id (process_found handler o left).runs ≡ times_run id d.runs)
            × IsIdle id (process_found handler o left).store.tasks
      by_found none e = (refl, without_task-IsIdle id p.id d.store.tasks idle)
      by_found (some t) e =
          let named = task_of-id p.id d.store.tasks t e in
          let (same, stored) = process-runs id t left (λ q.
            idle_at id d.store.tasks t idle
              (subst (λ n. task_of n d.store.tasks ≡ some t) (sym named ∙ q) e)) in
          (
            same,
            subst (λ (s : TaskStore). IsIdle id s.tasks) (sym stored)
                (without_task-IsIdle id p.id d.store.tasks idle),
          )

  -- `process_next_task`, once for each choice of the queue's heap.
  unfoldable pub process_all : List ℕ → TaskDispatcher → TaskDispatcher
  process_all [] d = d
  process_all (k ∷ ks) d = process_all ks (process_next_task handler k d)

  process_all-runs :
      (id : TaskId) (ks : List ℕ) (d : TaskDispatcher)
      → IsIdle id d.store.tasks
      → times_run id (process_all ks d).runs ≡ times_run id d.runs
  unfolding process_all process_next_task
  process_all-runs id [] d idle = refl
  process_all-runs id (k ∷ ks) d idle =
      let popped = pop_head k d.queue in
      let (same, still) = process_popped-runs id popped.0 (record d { queue = popped.1 }) idle in
      process_all-runs id ks (process_next_task handler k d) still ∙ same

  -- For any handlers and any dispatcher: after a task is cancelled, no handler is called for it,
  -- however often `process_next_task` is called and whichever lists the heap of the queue gives.
  pub process_all-cancel_task :
      (id : TaskId) (ks : List ℕ) (d : TaskDispatcher)
      → times_run id (process_all ks (cancel_task id d)).runs ≡ times_run id d.runs
  unfolding cancel_task
  process_all-cancel_task id ks d =
      process_all-runs id ks (cancel_task id d) (cancel_each-IsIdle id d.store.tasks)
