-- ===== src/Task/Queue/Lists.antt =====
-- The lists of tasks, and their names, behind the queue's methods.
use app_flowy.Prelude.{
  ℕ, zero, suc, ◌+◌, ◌<◌, ◌≡◌, ◌≢◌, refl, sym, ap, some, List, [], ◌∷◌, ◌++◌, map, All, Bool-cases,
  inl, inr, if◌then◌else◌, arith,
}
use app_flowy.Attributes.HashMap.{text_eq}
use app_flowy.Attributes.HashMap.Laws.{text_eq_sound, text_eq_refl}
use app_flowy.Task.{PendingTask, TaskHandlerId, cmp}
use app_flowy.Task.Queue.{TaskList, is_less, greatest, list_of, put_list, remove_list, take_at}

-- How often a name stands in a list.
unfoldable pub occurrences : TaskHandlerId → List TaskHandlerId → ℕ
occurrences id [] = 0
occurrences id (x ∷ xs) = (if text_eq x id then 1 else 0) + occurrences id xs

-- What the tasks weigh together, each with its weight.
unfoldable pub weight : (PendingTask → ℕ) → List PendingTask → ℕ
weight w [] = 0
weight w (t ∷ ts) = w t + weight w ts

unfoldable pub weight_lists : (PendingTask → ℕ) → List TaskList → ℕ
unfolding weight
weight_lists w [] = 0
weight_lists w (l ∷ ls) = weight w l.tasks + weight_lists w ls

pub weight-greatest :
    (w : PendingTask → ℕ) (t : PendingTask) (ts : List PendingTask)
    → w (greatest t ts).0 + weight w (greatest t ts).1 ≡ w t + weight w ts
unfolding greatest weight
weight-greatest w t [] = refl
weight-greatest w t (u ∷ us) = elim (Bool-cases (is_less (cmp t (greatest u us).0))) [
  | inl less ↦ rw less (omega (arith, weight-greatest w u us))
  | inr other ↦ rw other (omega (arith, weight-greatest w u us))
]

pub occurrences-take_at :
    (id : TaskHandlerId) (k : ℕ) (x : TaskHandlerId) (xs : List TaskHandlerId)
    → occurrences id ((take_at k x xs).0 ∷ (take_at k x xs).1) ≡ occurrences id (x ∷ xs)
unfolding take_at occurrences
occurrences-take_at id zero x xs = refl
occurrences-take_at id (suc k) x [] = refl
occurrences-take_at id (suc k) x (y ∷ ys) = omega (arith, occurrences-take_at id k y ys)

pub occurrences-append :
    (id x : TaskHandlerId) (xs : List TaskHandlerId)
    → occurrences id (xs ++ x ∷ []) ≡ occurrences id (x ∷ xs)
unfolding occurrences
occurrences-append id x [] = refl
occurrences-append id x (y ∷ ys) = omega (arith, occurrences-append id x ys)

-- A name in the index has a list of that name.
pub list_of-some :
    (id : TaskHandlerId) (ls : List TaskList)
    → 0 < occurrences id (map TaskList.id ls)
    → (l : TaskList) × (list_of id ls ≡ some l) × (l.id ≡ id)
unfolding list_of occurrences
list_of-some id [] h = absurd (omega arith)
list_of-some id (l ∷ ls) h = elim (Bool-cases (text_eq l.id id)) [
  | inl same ↦ (l, rw same refl, text_eq_sound l.id id same)
  | inr other ↦ rw other (list_of-some id ls (ground arith))
]

pub put_list-ids :
    (l : TaskList) (ls : List TaskList) → map TaskList.id (put_list l ls) ≡ map TaskList.id ls
unfolding put_list
put_list-ids l [] = refl
put_list-ids l (x ∷ ls) = elim (Bool-cases (text_eq x.id l.id)) [
  | inl same ↦ rw same (ap (λ id. id ∷ map TaskList.id ls) (sym (text_eq_sound x.id l.id same)))
  | inr other ↦ rw other (ap (λ ids. x.id ∷ ids) (put_list-ids l ls))
]

pub weight-put_list :
    (w : PendingTask → ℕ) (l old : TaskList) (ls : List TaskList)
    → list_of l.id ls ≡ some old
    → weight_lists w (put_list l ls) + weight w old.tasks ≡ weight_lists w ls + weight w l.tasks
unfolding list_of put_list weight_lists
weight-put_list w l old [] h = cc
weight-put_list w l old (x ∷ ls) h = ground (arith, weight-put_list w l old ls)

pub put_list-filled :
    (l : TaskList) (ls : List TaskList)
    → l.tasks ≢ []
    → All (λ x. x.tasks ≢ []) ls
    → All (λ x. x.tasks ≢ []) (put_list l ls)
unfolding put_list
put_list-filled l [] n f = tt
put_list-filled l (x ∷ ls) n f = elim (Bool-cases (text_eq x.id l.id)) [
  | inl same ↦ rw same (n, f.1)
  | inr other ↦ rw other (f.0, put_list-filled l ls n f.1)
]

pub occurrences-remove_list :
    (name id : TaskHandlerId) (old : TaskList) (ls : List TaskList)
    → list_of id ls ≡ some old
    → occurrences name (id ∷ map TaskList.id (remove_list id ls))
      ≡ occurrences name (map TaskList.id ls)
unfolding list_of remove_list occurrences
occurrences-remove_list name id old [] h = cc
occurrences-remove_list name id old (x ∷ ls) h = elim (Bool-cases (text_eq x.id id)) [
  | inl same ↦ rw (same, text_eq_sound x.id id same) refl
  | inr other ↦ rw other (omega (arith, occurrences-remove_list name id old ls (rw other at h)))
]

pub weight-remove_list :
    (w : PendingTask → ℕ) (id : TaskHandlerId) (old : TaskList) (ls : List TaskList)
    → list_of id ls ≡ some old
    → weight_lists w (remove_list id ls) + weight w old.tasks ≡ weight_lists w ls
unfolding list_of remove_list weight_lists
weight-remove_list w id old [] h = cc
weight-remove_list w id old (x ∷ ls) h = ground (arith, weight-remove_list w id old ls)

pub remove_list-filled :
    (id : TaskHandlerId) (ls : List TaskList)
    → All (λ x. x.tasks ≢ []) ls
    → All (λ x. x.tasks ≢ []) (remove_list id ls)
unfolding remove_list
remove_list-filled id [] f = tt
remove_list-filled id (x ∷ ls) f = elim (Bool-cases (text_eq x.id id)) [
  | inl same ↦ rw same f.1
  | inr other ↦ rw other (f.0, remove_list-filled id ls f.1)
]

-- A list that was found is filled.
pub list_of-filled :
    (id : TaskHandlerId) (l : TaskList) (ls : List TaskList)
    → list_of id ls ≡ some l
    → All (λ x. x.tasks ≢ []) ls
    → l.tasks ≢ []
unfolding list_of
list_of-filled id l [] h f = cc
list_of-filled id l (x ∷ ls) h f = elim (Bool-cases (text_eq x.id id)) [
  | inl same ↦ let found : some x ≡ some l = rw same at h in λ e. f.0 (cc)
  | inr other ↦ list_of-filled id l ls (rw other at h) f.1
]

pub self_occurs : (id : TaskHandlerId) (ids : List TaskHandlerId) → 0 < occurrences id (id ∷ ids)
unfolding occurrences
self_occurs id ids = rw (text_eq_refl id) (omega arith)
