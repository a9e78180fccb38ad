-- ===== src/Task/Queue/Drain.antt =====
-- Every task that is in the queue comes out of it, whichever lists the heap gives.
use app_flowy.Prelude.{
  ℕ, ◌+◌, ◌≡◌, ◌≢◌, refl, sym, ap, ◌∙◌, true, false, Option, none, some, List, [], ◌∷◌, length, map,
  All, Bool-cases, inl, inr, is_nil, arith,
}
use app_flowy.Task.{PendingTask, TaskHandlerId}
use app_flowy.Task.Queue
use app_flowy.Task.Queue.{
  TaskList, TaskQueue, greatest, list_of, take_at, put_back, pop_from, pop_head,
}
use app_flowy.Task.Queue.Lists.{
  occurrences, weight, weight_lists, weight-greatest, occurrences-take_at, occurrences-append,
  list_of-some, self_occurs, put_list-ids, weight-put_list, put_list-filled,
  occurrences-remove_list, weight-remove_list, remove_list-filled, list_of-filled,
}

-- The heap holds the names of the index, as often as there; no list is empty.
pub record IsSound (q : TaskQueue) : Type 0 where
  pub same :
      (id : TaskHandlerId) → occurrences id q.queue ≡ occurrences id (map TaskList.id q.index_tasks)
  pub filled : All (λ l. l.tasks ≢ []) q.index_tasks

-- A task was given, and the others are still there.
pub record Gives (q : TaskQueue) (r : Option PendingTask × TaskQueue) : Type 0 where
  pub task : PendingTask
  pub given : r.0 ≡ some task
  pub sound : IsSound r.1
  pub weighed :
      (w : PendingTask → ℕ) → weight_lists w r.1.index_tasks + w task ≡ weight_lists w q.index_tasks

put_back-IsSound :
    (l old : TaskList) (others : List TaskHandlerId) (q : TaskQueue)
    → list_of l.id q.index_tasks ≡ some old
    → ((name : TaskHandlerId)
        → occurrences name (l.id ∷ others) ≡ occurrences name (map TaskList.id q.index_tasks))
    → All (λ x. x.tasks ≢ []) q.index_tasks
    → IsSound (put_back l others q)
unfolding put_back occurrences
put_back-IsSound l old others q found same filled = elim (Bool-cases (is_nil l.tasks)) [
  | inl empty ↦ rw empty (record {
    same = λ name.
        let rest = occurrences-remove_list name l.id old q.index_tasks found in
        let all = same name in omega arith;
    filled = remove_list-filled l.id q.index_tasks filled;
  })
  | inr full ↦ rw full (record {
    same =
        λ name. rw (put_list-ids l q.index_tasks) (occurrences-append name l.id others ∙ same name);
    filled = put_list-filled l q.index_tasks (λ e. not_empty l.tasks full e) filled;
  })
]
  where
    not_empty : (ts : List PendingTask) → is_nil ts ≡ false → ts ≢ []
    not_empty [] f e = cc
    not_empty (t ∷ ts) f e = cc

weight-put_back :
    (w : PendingTask → ℕ) (l old : TaskList) (others : List TaskHandlerId) (q : TaskQueue)
    → list_of l.id q.index_tasks ≡ some old
    → weight_lists w (put_back l others q).index_tasks + weight w old.tasks
      ≡ weight_lists w q.index_tasks + weight w l.tasks
unfolding put_back weight
weight-put_back w l old others q found = elim (Bool-cases (is_nil l.tasks)) [
  | inl empty ↦
      rw empty (
        omega
          (arith, weight-remove_list w l.id old q.index_tasks found, weightless w l.tasks empty))
  | inr full ↦ rw full (weight-put_list w l old q.index_tasks found)
]
  where
    weightless : (w : PendingTask → ℕ) (ts : List PendingTask) → is_nil ts ≡ true → weight w ts ≡ 0
    weightless w [] e = refl
    weightless w (t ∷ ts) e = cc

pop_from-Gives :
    (l : TaskList) (others : List TaskHandlerId) (q : TaskQueue)
    → list_of l.id q.index_tasks ≡ some l
    → ((name : TaskHandlerId)
        → occurrences name (l.id ∷ others) ≡ occurrences name (map TaskList.id q.index_tasks))
    → All (λ x. x.tasks ≢ []) q.index_tasks
    → Gives q (pop_from (some l) others q)
unfolding pop_from weight
pop_from-Gives l others q found same filled =
    by_tasks l.tasks refl (list_of-filled l.id l q.index_tasks found filled)
  where
    by_tasks :
        (ts : List PendingTask) → l.tasks ≡ ts → l.tasks ≢ [] → Gives q (pop_from (some l) others q)
    by_tasks [] e n = absurd (n e)
    by_tasks (t ∷ ts) e n =
        let left : TaskList = record l { tasks = (greatest t ts).1 } in
        rw e (record {
          task = (greatest t ts).0;
          given = refl;
          sound = put_back-IsSound left l others q found same filled;
          weighed = λ w. omega (
            arith,
            weight-put_back w left l others q found,
            weight-greatest w t ts,
            ap (weight w) e,
          );
        })

pub pop_head-Gives :
    (k : ℕ) (x : TaskHandlerId) (xs : List TaskHandlerId) (index : List TaskList)
    → IsSound (record { index_tasks = index; queue = x ∷ xs })
    → Gives
        (record { index_tasks = index; queue = x ∷ xs })
        (pop_head k (record { index_tasks = index; queue = x ∷ xs }))
unfolding pop_head occurrences
pop_head-Gives k x xs index sound =
    let id = (take_at k x xs).0 in
    let others = (take_at k x xs).1 in
    let (l, found, named) =
      list_of-some id index
        (omega (arith, sound.same id, occurrences-take_at id k x xs, self_occurs id others)) in
    rw found (
      pop_from-Gives l others (record { index_tasks = index; queue = x ∷ xs }) (rw named found)
        (λ name. rw named (occurrences-take_at name k x xs ∙ sound.same name)) sound.filled)

-- Behind the task that was given, if one was.
abbrev pub behind : Option PendingTask → List PendingTask → List PendingTask
behind none ts = ts
behind (some t) ts = t ∷ ts

-- One call for each of the choices, and the tasks that they give.
unfoldable pub drain : List ℕ → TaskQueue → List PendingTask × TaskQueue
drain [] q = ([], q)
drain (k ∷ ks) q =
    let (popped, q') = pop_head k q in let (rest, q'') = drain ks q' in (behind popped rest, q'')

-- How many tasks there are.
abbrev pub pending_tasks : TaskQueue → ℕ
pending_tasks q = weight_lists (λ t. 1) q.index_tasks

-- No tasks, no lists and no names.
empty-index :
    (ls : List TaskList) → All (λ l. l.tasks ≢ []) ls → weight_lists (λ t. 1) ls ≡ 0 → ls ≡ []
unfolding weight_lists
empty-index [] f z = refl
empty-index (l ∷ ls) f z = by_tasks l.tasks refl
  where
    by_tasks : (ts : List PendingTask) → l.tasks ≡ ts → (l ∷ ls) ≡ []
    by_tasks [] e = absurd (f.0 e)
    by_tasks (t ∷ ts) e = absurd (omega (arith, z, ap (weight (λ u. 1)) e))

empty-queue :
    (ids : List TaskHandlerId) → ((id : TaskHandlerId) → occurrences id ids ≡ 0) → ids ≡ []
unfolding occurrences
empty-queue [] h = refl
empty-queue (x ∷ xs) h = absurd (omega (arith, self_occurs x xs, h x))

drain_lists :
    (ks : List ℕ) (ids : List TaskHandlerId) (index : List TaskList)
    → IsSound (record { index_tasks = index; queue = ids })
    → length ks ≡ weight_lists (λ t. 1) index
    → ((w : PendingTask → ℕ)
        → weight w (drain ks (record { index_tasks = index; queue = ids })).0
          ≡ weight_lists w index)
      × ((drain ks (record { index_tasks = index; queue = ids })).1 ≡ Queue.new)
unfolding drain weight weight_lists Queue.new occurrences
drain_lists [] ids index sound enough =
    let no_lists = empty-index index sound.filled (sym enough) in
    let no_names =
      empty-queue ids
        (λ id. sound.same id ∙ ap (λ ls. occurrences id (map TaskList.id ls)) no_lists) in
    (λ w. rw no_lists refl, rw (no_lists, no_names) refl)
drain_lists (k ∷ ks) [] [] sound enough = absurd (omega arith)
drain_lists (k ∷ ks) [] (l ∷ ls) sound enough =
    absurd (omega (arith, self_occurs l.id (map TaskList.id ls), sound.same l.id))
drain_lists (k ∷ ks) (x ∷ xs) index sound enough =
    let gives = pop_head-Gives k x xs index sound in
    let q' = (pop_head k (record { index_tasks = index; queue = x ∷ xs })).1 in
    let fewer = gives.weighed (λ t. 1) in
    let (all, empty) = drain_lists ks q'.queue q'.index_tasks gives.sound (omega arith) in
    (
      λ w.
          ap (λ o. weight w (behind o (drain ks q').0)) gives.given
          ∙ omega (arith, all w, gives.weighed w),
      empty,
    )

-- For a sound queue and any choices of the heap, as many as there are tasks: the calls give the tasks
-- of the queue, each as often as it was there, whatever the tasks weigh, and leave the queue empty.
pub drain-all :
    (q : TaskQueue) (ks : List ℕ)
    → IsSound q
    → length ks ≡ pending_tasks q
    → ((w : PendingTask → ℕ) → weight w (drain ks q).0 ≡ weight_lists w q.index_tasks)
      × ((drain ks q).1 ≡ Queue.new)
drain-all q ks sound enough = drain_lists ks q.queue q.index_tasks sound enough
