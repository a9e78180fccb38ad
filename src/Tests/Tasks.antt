-- ===== src/Tests/Tasks.antt =====
-- A few tasks, at which the theorems are applied.
use app_flowy.Prelude.{ℕ, ◌≡◌, refl, true, false, Option, some, [], ◌∷◌, length, List}
use app_flowy.Attributes.HashMap.{text_eq}
use app_flowy.Task
use app_flowy.Task.{
  Task, PendingTask, TaskHandlerId, TaskContent, background, user_interactive, text,
}
use app_flowy.Task.Queue
use app_flowy.Task.Queue.{TaskQueue, greatest, push}
use app_flowy.Task.Queue.Lists.{weight, weight_lists}
use app_flowy.Task.Queue.Drain.{IsSound, drain, pending_tasks, drain-all}
use app_flowy.Task.Queue.Runs.{QueueCall, push_call, run, run-IsSound}
use app_flowy.Task.Dispatcher.{TaskDispatcher, Outcome, ran, cancel_task}
use app_flowy.Task.Dispatcher.Cancelling.{times_run, process_all, process_all-cancel_task}

abbrev content : TaskContent
content = text (120 ∷ [])

abbrev filtering : Task
filtering = record {
  id = 1;
  handler_id = 102 ∷ [];
  content = some content;
  qos = background;
  state = Task.pending;
  ret = true;
}

abbrev sorting : Task
sorting = record {
  id = 2;
  handler_id = 115 ∷ [];
  content = some content;
  qos = user_interactive;
  state = Task.pending;
  ret = true;
}

abbrev sorting_again : Task
sorting_again = record {
  id = 3;
  handler_id = 115 ∷ [];
  content = some content;
  qos = background;
  state = Task.pending;
  ret = true;
}

abbrev pushes : List QueueCall
pushes = push_call filtering ∷ push_call sorting ∷ push_call sorting_again ∷ []

abbrev pushed : TaskQueue
pushed = record {
  index_tasks =
      record {
        id = 115 ∷ [];
        tasks =
            record { qos = background; id = 3 } ∷ record { qos = user_interactive; id = 2 } ∷ [];
      }
      ∷ record { id = 102 ∷ []; tasks = record { qos = background; id = 1 } ∷ [] }
      ∷ [];
  queue = (102 ∷ []) ∷ (115 ∷ []) ∷ [];
}

pushed_by_run : run pushes Queue.new ≡ some pushed
unfolding run push Queue.new text_eq greatest
pushed_by_run = refl

run-IsSound_example : IsSound pushed
run-IsSound_example = run-IsSound pushes pushed pushed_by_run

pushed_tasks : length {A = ℕ} (1 ∷ 0 ∷ 0 ∷ []) ≡ pending_tasks pushed
unfolding weight_lists weight
pushed_tasks = refl

drain-all_example :
    ((w : PendingTask → ℕ)
      → weight w (drain (1 ∷ 0 ∷ 0 ∷ []) pushed).0 ≡ weight_lists w pushed.index_tasks)
    × ((drain (1 ∷ 0 ∷ 0 ∷ []) pushed).1 ≡ Queue.new)
drain-all_example = drain-all pushed (1 ∷ 0 ∷ 0 ∷ []) run-IsSound_example pushed_tasks

abbrev handlers : TaskHandlerId → TaskContent → Option Outcome
handlers id c = some ran

abbrev waiting : TaskDispatcher
waiting = record {
  queue = pushed;
  store = record { tasks = filtering ∷ sorting ∷ sorting_again ∷ []; task_id_counter = 3 };
  notifier = false;
  changed = true;
  sent = [];
  runs = [];
}

process_all-cancel_task_example :
    times_run 2 (process_all handlers (0 ∷ 1 ∷ 0 ∷ []) (cancel_task 2 waiting)).runs
    ≡ times_run 2 []
process_all-cancel_task_example = process_all-cancel_task handlers 2 (0 ∷ 1 ∷ 0 ∷ []) waiting
