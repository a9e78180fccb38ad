-- ===== src/Task/Queue/Runs.antt =====
-- The queue over any run of its methods.
use app_flowy.Prelude.{
  ℕ, ◌≡◌, refl, sym, ap, ◌∙◌, subst, Option, none, some, List, [], ◌∷◌, ◌++◌, Bool-cases, inl, inr,
  arith,
}
use app_flowy.Task.{PendingTask, TaskHandlerId, TaskContent, Task}
use app_flowy.Task.Queue
use app_flowy.Task.Queue.{
  TaskList, TaskQueue, list_of, put_list, follows, push_pending, push, pop_head,
}
use app_flowy.Task.Queue.Lists.{occurrences, occurrences-append, put_list-ids, put_list-filled}
use app_flowy.Task.Queue.Drain.{IsSound, pop_head-Gives}

-- A task is pushed, or one is taken from the list that the heap gives.
pub data QueueCall : Type 0 where
  push_call : Task → QueueCall
  pop_call : ℕ → QueueCall

unfoldable pub step : QueueCall → TaskQueue → Option TaskQueue
step (push_call t) q = push t q
step (pop_call k) q = some (pop_head k q).1

unfoldable pub run : List QueueCall → TaskQueue → Option TaskQueue
unfolding step
run [] q = some q
run (c ∷ cs) q = elim (step c q) [ none ↦ none | some q' ↦ run cs q' ]

pushed-IsSound :
    (t : PendingTask) (handler_id : TaskHandlerId) (q : TaskQueue)
    → IsSound q
    → IsSound (record {
      index_tasks = record { id = handler_id; tasks = t ∷ [] } ∷ q.index_tasks;
      queue = q.queue ++ handler_id ∷ [];
    })
unfolding occurrences
pushed-IsSound t handler_id q sound = record {
  same = λ id. omega (arith, occurrences-append id handler_id q.queue, sound.same id);
  filled = (λ e. cc, sound.filled);
}

put-IsSound :
    (t : PendingTask) (l : TaskList) (q : TaskQueue)
    → IsSound q
    → IsSound (record q { index_tasks = put_list (record l { tasks = t ∷ l.tasks }) q.index_tasks })
put-IsSound t l q sound = record {
  same = λ id.
      sound.same id
      ∙ ap (occurrences id) (sym (put_list-ids (record l { tasks = t ∷ l.tasks }) q.index_tasks));
  filled = put_list-filled (record l { tasks = t ∷ l.tasks }) q.index_tasks (λ e. cc) sound.filled;
}

push_pending-IsSound :
    (o : Option TaskList) (t : PendingTask) (handler_id : TaskHandlerId) (q q' : TaskQueue)
    → IsSound q
    → push_pending o t handler_id q ≡ some q'
    → IsSound q'
unfolding push_pending
push_pending-IsSound none t handler_id q q' sound h =
    let added : TaskQueue = record {
      index_tasks = record { id = handler_id; tasks = t ∷ [] } ∷ q.index_tasks;
      queue = q.queue ++ handler_id ∷ [];
    } in
    let made : added ≡ q' = cc in subst IsSound made (pushed-IsSound t handler_id q sound)
push_pending-IsSound (some l) t handler_id q q' sound h = elim (Bool-cases (follows t l.tasks)) [
  | inl last ↦
      let added : TaskQueue = record q {
        index_tasks = put_list (record l { tasks = t ∷ l.tasks }) q.index_tasks;
      } in
      let put : some added ≡ some q' = rw last at h in
      let made : added ≡ q' = cc in subst IsSound made (put-IsSound t l q sound)
  | inr not_last ↦ let refused : ◌≡◌ {A = Option TaskQueue} none (some q') = rw not_last at h in cc
]

push-IsSound : (t : Task) (q q' : TaskQueue) → IsSound q → push t q ≡ some q' → IsSound q'
unfolding push
push-IsSound t q q' sound h = by_content t.content h
  where
    by_content :
        (c : Option TaskContent)
        → (elim c as (λ _. Option TaskQueue) [
          | none ↦ some q
          | some content ↦
              push_pending
                (list_of t.handler_id q.index_tasks)
                (record { qos = t.qos; id = t.id })
                t.handler_id
                q
        ])
          ≡ some q'
        → IsSound q'
    by_content none e = let same : q ≡ q' = cc in subst IsSound same sound
    by_content (some content) e =
        push_pending-IsSound (list_of t.handler_id q.index_tasks) _ t.handler_id q q' sound e

pop_head-IsSound : (k : ℕ) (q : TaskQueue) → IsSound q → IsSound (pop_head k q).1
unfolding pop_head
pop_head-IsSound k q sound = by_queue q.queue q.index_tasks sound
  where
    by_queue :
        (ids : List TaskHandlerId) (ls : List TaskList)
        → IsSound (record { index_tasks = ls; queue = ids })
        → IsSound (pop_head k (record { index_tasks = ls; queue = ids })).1
    by_queue [] ls s = s
    by_queue (x ∷ xs) ls s = (pop_head-Gives k x xs ls s).sound

run_from-IsSound :
    (cs : List QueueCall) (q q' : TaskQueue) → IsSound q → run cs q ≡ some q' → IsSound q'
unfolding run
run_from-IsSound [] q q' sound h = let same : q ≡ q' = cc in subst IsSound same sound
run_from-IsSound (push_call t ∷ cs) q q' sound h =
    by_push (push t q) refl h (λ q''. run_from-IsSound cs q'' q')
  where
    by_push :
        (o : Option TaskQueue)
        → push t q ≡ o
        → (elim o as (λ _. Option TaskQueue) [ none ↦ none | some q'' ↦ run cs q'' ]) ≡ some q'
        → ((q'' : TaskQueue) → IsSound q'' → run cs q'' ≡ some q' → IsSound q')
        → IsSound q'
    by_push none e r rest = cc
    by_push (some q'') e r rest = rest q'' (push-IsSound t q q'' sound e) r
run_from-IsSound (pop_call k ∷ cs) q q' sound h =
    run_from-IsSound cs (pop_head k q).1 q' (pop_head-IsSound k q sound) h

-- After any pushes and pops from the empty queue, whichever lists the heap gives, where no assertion
-- failed: the heap and the index name the same lists, equally often, and none of them is empty.
pub run-IsSound : (cs : List QueueCall) (q : TaskQueue) → run cs Queue.new ≡ some q → IsSound q
unfolding Queue.new occurrences
run-IsSound cs q h = run_from-IsSound cs Queue.new q (record { same = λ id. refl; filled = tt }) h
