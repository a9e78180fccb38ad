-- ===== src/Task/Dispatcher.antt =====
-- `TaskDispatcher` of frontend/rust-lib/flowy-task/src/scheduler.rs over the store of store.rs. The
-- handlers are a parameter: whether there is one for a task, and how it ends. The results that were
-- sent are kept in a list, and so are the tasks that a handler was called for.
pub mod Cancelling
use app_flowy.Prelude.{
  ℕ, ◌+◌, ◌%◌, ◌^◌, Bool, true, false, not, Option, none, some, List, [], ◌∷◌, ◌++◌, ◌==◌,
  if◌then◌else◌,
}
use app_flowy.Task
use app_flowy.Task.{
  Task, TaskId, TaskHandlerId, TaskContent, TaskState, TaskResult, PendingTask, done, failure,
  cancel, timeout, is_done, is_cancel, set_state, result_of,
}
use app_flowy.Task.Queue
use app_flowy.Task.Queue.{TaskQueue, push, pop_head, clear}

pub record TaskStore : Type 0 where
  pub tasks : List Task
  pub task_id_counter : ℕ

abbrev pub new_store : TaskStore
new_store = record { tasks = []; task_id_counter = 0 }

unfoldable pub without_task : TaskId → List Task → List Task
without_task id [] = []
without_task id (t ∷ ts) = let rest = without_task id ts in if t.id == id then rest else t ∷ rest

unfoldable pub task_of : TaskId → List Task → Option Task
task_of id [] = none
task_of id (t ∷ ts) = if t.id == id then some t else task_of id ts

unfoldable pub insert_task : Task → TaskStore → TaskStore
unfolding without_task
insert_task t s = record s { tasks = t ∷ without_task t.id s.tasks }

unfoldable pub remove_task : TaskId → TaskStore → Option Task × TaskStore
unfolding task_of without_task
remove_task id s = (task_of id s.tasks, record s { tasks = without_task id s.tasks })

unfoldable pub cancel_each : TaskId → List Task → List Task
cancel_each id [] = []
cancel_each id (t ∷ ts) = (if t.id == id then set_state cancel t else t) ∷ cancel_each id ts

-- The results that clearing the store sends.
unfoldable pub cancelled : List Task → List TaskResult
cancelled [] = []
cancelled (t ∷ ts) =
    let rest = cancelled ts in if t.ret then result_of (set_state cancel t) ∷ rest else rest

unfoldable pub next_task_id : TaskStore → TaskId × TaskStore
next_task_id s =
    let id = (s.task_id_counter + 1) % 2 ^ 32 in (id, record s { task_id_counter = id })

-- How a handler ends: with a result, with an error, or not in time.
pub data Outcome : Type 0 where
  ran erred late : Outcome

abbrev pub state_after : Outcome → TaskState
state_after ran = done
state_after erred = failure
state_after late = timeout

-- What the channel of the notifier holds, and whether it was read.
pub record TaskDispatcher : Type 0 where
  pub queue : TaskQueue
  pub store : TaskStore
  pub notifier : Bool
  pub changed : Bool
  pub sent : List TaskResult
  pub runs : List TaskId

unfoldable pub notify : TaskDispatcher → TaskDispatcher
notify d = record d { notifier = false; changed = true }

unfoldable pub stop : TaskDispatcher → TaskDispatcher
stop d = record d {
  notifier = true;
  changed = true;
  queue = clear d.queue;
  store = record d.store { tasks = [] };
  sent = d.sent ++ cancelled d.store.tasks;
}

-- `none` where the queue's assertion fails.
unfoldable pub add_task : Task → TaskDispatcher → Option TaskDispatcher
unfolding notify
add_task t d = if is_done t.state then some d else elim (push t d.queue) [
  | none ↦ none
  | some q ↦ some (notify (record d { queue = q; store = insert_task t d.store }))
]

unfoldable pub cancel_task : TaskId → TaskDispatcher → TaskDispatcher
cancel_task id d = record d { store = record d.store { tasks = cancel_each id d.store.tasks } }

unfoldable pub send : Task → TaskDispatcher → TaskDispatcher
unfolding notify result_of
send t d = notify (record d { sent = d.sent ++ result_of t ∷ [] })

module _ (handler : TaskHandlerId → TaskContent → Option Outcome) where
  -- With the content taken out of the task.
  unfoldable pub run_task : Task → TaskContent → TaskDispatcher → TaskDispatcher
  unfolding send set_state
  run_task t content d = elim (handler t.handler_id content) [
    | none ↦ send (set_state cancel t) d
    | some outcome ↦
        send (set_state (state_after outcome) t) (record d { runs = d.runs ++ t.id ∷ [] })
  ]

  -- The task that was taken from the store.
  unfoldable pub process : Task → TaskDispatcher → TaskDispatcher
  unfolding run_task
  process t d =
      if not t.ret
      then d
      else if is_cancel t.state
      then send (record t { ret = false }) d
      else elim t.content [
        | none ↦ d
        | some content ↦ run_task (record t { content = none; ret = false }) content d
      ]

  -- With the task that was in the store, if one was.
  unfoldable pub process_found : Option Task → TaskDispatcher → TaskDispatcher
  unfolding process
  process_found none d = d
  process_found (some t) d = process t d

  -- With the task that the queue gave, if it gave one.
  unfoldable pub process_popped : Option PendingTask → TaskDispatcher → TaskDispatcher
  unfolding process_found
  process_popped none d = d
  process_popped (some t) d =
      let (found, store) = remove_task t.id d.store in
      process_found found (record d { store = store })

  unfoldable pub process_next_task : ℕ → TaskDispatcher → TaskDispatcher
  unfolding process_popped
  process_next_task k d =
      let (popped, q) = pop_head k d.queue in process_popped popped (record d { queue = q })
