-- ===== src/Task/Queue.antt =====
-- frontend/rust-lib/flowy-task/src/queue.rs: a list of tasks for each handler, and a heap of the lists.
-- The heap shares its lists with the index, and holds their names here. Since the lists change inside
-- it, which one it gives is not determined: it is an argument.
pub mod Lists
pub mod Drain
pub mod Runs
use app_flowy.Prelude.{
  ℕ, zero, suc, Bool, true, false, Option, none, some, List, [], ◌∷◌, ◌++◌, is_nil, leb, Ordering,
  if◌then◌else◌,
}
use app_flowy.Attributes.HashMap.{text_eq}
use app_flowy.Task
use app_flowy.Task.{PendingTask, TaskHandlerId, Task, cmp}

pub record TaskList : Type 0 where
  pub id : TaskHandlerId
  pub tasks : List PendingTask

pub record TaskQueue : Type 0 where
  pub index_tasks : List TaskList
  pub queue : List TaskHandlerId

unfoldable pub new : TaskQueue
new = record { index_tasks = []; queue = [] }

abbrev pub is_less : Ordering → Bool
is_less Ordering.lt = true
is_less _ = false

-- `BinaryHeap::pop` on a heap that is not empty: the greatest task, and the others.
unfoldable pub greatest : PendingTask → List PendingTask → PendingTask × List PendingTask
unfolding cmp
greatest t [] = (t, [])
greatest t (u ∷ us) =
    let (g, others) = greatest u us in
    if is_less (cmp t g) then (g, t ∷ others) else (t, g ∷ others)

-- `HashMap::get`, `insert` where there is a list of the name, and `remove`.
unfoldable pub list_of : TaskHandlerId → List TaskList → Option TaskList
list_of id [] = none
list_of id (l ∷ ls) = if text_eq l.id id then some l else list_of id ls

unfoldable pub put_list : TaskList → List TaskList → List TaskList
put_list l' [] = []
put_list l' (l ∷ ls) = if text_eq l.id l'.id then l' ∷ ls else l ∷ put_list l' ls

unfoldable pub remove_list : TaskHandlerId → List TaskList → List TaskList
remove_list id [] = []
remove_list id (l ∷ ls) = if text_eq l.id id then ls else l ∷ remove_list id ls

-- `peek().map(|old_id| pending_task.id >= old_id.id).unwrap_or(true)`
unfoldable pub follows : PendingTask → List PendingTask → Bool
unfolding greatest
follows t [] = true
follows t (u ∷ us) = leb (greatest u us).0.id t.id

-- With the list of the handler, if there is one. `none` where the assertion fails.
unfoldable pub push_pending :
    Option TaskList → PendingTask → TaskHandlerId → TaskQueue → Option TaskQueue
unfolding put_list follows
push_pending (some l) t handler_id q =
    if follows t l.tasks
    then some (record q { index_tasks = put_list (record l { tasks = t ∷ l.tasks }) q.index_tasks })
    else none
push_pending none t handler_id q = some (record {
  index_tasks = record { id = handler_id; tasks = t ∷ [] } ∷ q.index_tasks;
  queue = q.queue ++ handler_id ∷ [];
})

unfoldable pub push : Task → TaskQueue → Option TaskQueue
unfolding list_of push_pending
push task q = elim task.content [
  | none ↦ some q
  | some content ↦
      push_pending (list_of task.handler_id q.index_tasks) (record { qos = task.qos; id = task.id })
        task.handler_id q
]

unfoldable pub clear : TaskQueue → TaskQueue
clear q = record q { queue = [] }

-- The entry that is as many behind the first as it says, or the last, and the others.
unfoldable pub take_at : ℕ → TaskHandlerId → List TaskHandlerId → TaskHandlerId × List TaskHandlerId
take_at zero x xs = (x, xs)
take_at (suc k) x [] = (x, [])
take_at (suc k) x (y ∷ ys) = let (z, others) = take_at k y ys in (z, x ∷ others)

-- The list goes back into the heap, unless it is empty.
unfoldable pub put_back : TaskList → List TaskHandlerId → TaskQueue → TaskQueue
unfolding put_list remove_list
put_back l others q =
    if is_nil l.tasks
    then record { index_tasks = remove_list l.id q.index_tasks; queue = others }
    else record { index_tasks = put_list l q.index_tasks; queue = others ++ l.id ∷ [] }

-- `pop` on the list of that name.
unfoldable pub pop_from :
    Option TaskList → List TaskHandlerId → TaskQueue → Option PendingTask × TaskQueue
unfolding greatest put_back
pop_from none others q = (none, record q { queue = others })
pop_from (some l) others q = elim l.tasks [
  | [] ↦ (none, put_back l others q)
  | t ∷ ts ↦
      let (g, left) = greatest t ts in (some g, put_back (record l { tasks = left }) others q)
]

-- `mut_head(|list| list.pop())`, where the heap gives the entry at `k`.
unfoldable pub pop_head : ℕ → TaskQueue → Option PendingTask × TaskQueue
unfolding take_at list_of pop_from
pop_head k q = elim q.queue [
  | [] ↦ (none, q)
  | x ∷ xs ↦ let (id, others) = take_at k x xs in pop_from (list_of id q.index_tasks) others q
]
