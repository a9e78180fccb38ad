-- ===== src/Prelude/Search.antt =====
-- The searches of Rust's vectors and iterators, by a Boolean test, and the lemmas on them.
use Prim.Native.Nat.{ℕ, zero, suc}
use mathlib.Core.Logic.{inl, inr}
use mathlib.Core.Bool.{Bool, false, ◌||◌}
use mathlib.Core.List.{List, [], ◌∷◌, ◌++◌}
use mathlib.Core.Option.{Option, none, some, map}
use app_flowy.Prelude.Tests.{if◌then◌else◌, Bool-cases}
use app_flowy.Prelude.Lists.{take, drop, All}

module _ {ℓ} {A : Type ℓ} where
  -- `iter().find(test)`
  abbrev pub find : (A → Bool) → List A → Option A
  find test [] = none
  find test (x ∷ xs) = if test x then some x else find test xs

  -- `iter().any(test)`
  abbrev pub any : (A → Bool) → List A → Bool
  any test [] = false
  any test (x ∷ xs) = test x || any test xs

  -- `iter().position(test)`
  abbrev pub position : (A → Bool) → List A → Option ℕ
  position test [] = none
  position test (x ∷ xs) = if test x then some 0 else map suc (position test xs)

  -- `Vec::retain`
  abbrev pub retain : (A → Bool) → List A → List A
  retain keep [] = []
  retain keep (x ∷ xs) = if keep x then x ∷ retain keep xs else retain keep xs

  -- `Vec::remove`, with nothing where it panics.
  abbrev pub remove : ℕ → List A → Option (A × List A)
  remove i [] = none
  remove zero (x ∷ xs) = some (x, xs)
  remove (suc i) (x ∷ xs) = map (λ r. (r.0, x ∷ r.1)) (remove i xs)

  -- `Vec::insert` at an index that is at most the length.
  abbrev pub insert_at : ℕ → A → List A → List A
  insert_at i x xs = take i xs ++ x ∷ drop i xs

  -- A change of the element that `iter_mut().find(test)` gives, with what the change returns.
  abbrev pub update_first {κ} :
      {R : Type κ} → (A → Bool) → (A → R × A) → List A → Option (R × List A)
  update_first test f [] = none
  update_first test f (x ∷ xs) =
      if test x
      then some ((f x).0, (f x).1 ∷ xs)
      else map (λ r. (r.0, x ∷ r.1)) (update_first test f xs)

  pub All-retain {κ} :
      (P : A → Type κ) (keep : A → Bool) (xs : List A) → All P xs → All P (retain keep xs)
  All-retain P keep [] h = tt
  All-retain P keep (x ∷ xs) h = elim (Bool-cases (keep x)) [
    | inl kept ↦ rw kept (h.0, All-retain P keep xs h.1)
    | inr dropped ↦ rw dropped (All-retain P keep xs h.1)
  ]
