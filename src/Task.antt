-- ===== src/Task.antt =====
-- frontend/rust-lib/flowy-task/src/task.rs: what is to be run, and in which order.
pub mod Queue
pub mod Dispatcher
use app_flowy.Prelude.{ℕ, Bool, true, false, Option, some, List, compare, Ordering}
use app_flowy.OtStr.{Text}

pub data QualityOfService : Type 0 where
  background user_interactive : QualityOfService

abbrev pub TaskId : Type 0
TaskId = ℕ

abbrev pub TaskHandlerId : Type 0
TaskHandlerId = Text

pub record PendingTask : Type 0 where
  pub qos : QualityOfService
  pub id : TaskId

abbrev pub qos_cmp : QualityOfService → QualityOfService → Ordering → Ordering
qos_cmp user_interactive user_interactive by_id = by_id
qos_cmp user_interactive background by_id = Ordering.gt
qos_cmp background user_interactive by_id = Ordering.lt
qos_cmp background background by_id = by_id

-- `Ord for PendingTask`
unfoldable pub cmp : PendingTask → PendingTask → Ordering
cmp t other = qos_cmp t.qos other.qos (compare t.id other.id)

pub data TaskContent : Type 0 where
  text : Text → TaskContent
  blob : List ℕ → TaskContent

pub data TaskState : Type 0 where
  pending processing done failure cancel timeout : TaskState

abbrev pub is_pending : TaskState → Bool
is_pending pending = true
is_pending _ = false

abbrev pub is_done : TaskState → Bool
is_done done = true
is_done _ = false

abbrev pub is_cancel : TaskState → Bool
is_cancel cancel = true
is_cancel _ = false

-- `ret` tells whether the sender of the result is still there.
pub record Task : Type 0 where
  pub id : TaskId
  pub handler_id : TaskHandlerId
  pub content : Option TaskContent
  pub qos : QualityOfService
  pub state : TaskState
  pub ret : Bool

unfoldable pub new : TaskHandlerId → TaskId → TaskContent → QualityOfService → Task
new handler_id id content qos = record {
  id = id;
  handler_id = handler_id;
  content = some content;
  qos = qos;
  state = pending;
  ret = true;
}

unfoldable pub set_state : TaskState → Task → Task
set_state state t = record t { state = state }

pub record TaskResult : Type 0 where
  pub id : TaskId
  pub state : TaskState

unfoldable pub result_of : Task → TaskResult
result_of t = record { id = t.id; state = t.state }
