-- ===== src/Pad/Careful.antt =====
-- Edits that say truly whether they changed something, and keep a predicate: those of a part of a
-- document, and those that the pads make of a list.
use app_flowy.Prelude.{
  ℕ, zero, suc, ◌≡◌, refl, sym, ap, ◌⊎◌, inl, inr, Bool, true, false, Option, none, some, List, [],
  ◌∷◌, All, All-append, All-take, All-drop, Bool-cases, ltb, length, take, drop, if◌then◌else◌,
}
use mathlib.Core.Option.{map}
use app_flowy.Prelude.Search.{any, position, remove, update_first, All-retain}
use app_flowy.FlowyErrors.{FlowyResult, done, failed, internal_error, panicked}
use app_flowy.OtStr.{Text}
use app_flowy.Infra.{put_in, move_vec_element}
use app_flowy.Pad.{Edited, on_part, moved, edit_first, push, push_new, drop_id}
use app_flowy.Pad.InSync.{IsHonest}

-- An honest edit of `a` that leaves what satisfies the predicate.
pub record Careful {A : Type 0} (P : A → Type 0) (r : Edited A) (a : A) : Type 0 where
  pub honest : IsHonest r a
  pub keeps : P r.1

-- An edit that says that it changed something.
pub Careful-some :
    {A : Type 0} {P : A → Type 0} {a new : A} → P new → Careful P (done (some tt), new) a
Careful-some p = record { honest = inl refl; keeps = p }

-- An edit that changes nothing.
pub Careful-same :
    {A : Type 0} {P : A → Type 0} {a : A} (answer : FlowyResult (Option (Unit {0})))
    → P a
    → Careful P (answer, a) a
Careful-same answer p = record { honest = inr refl; keeps = p }

pub Careful-on_part :
    {A D : Type 0} {P : A → Type 0} {Q : D → Type 0} (put : A → D) {r : Edited A} {a : A}
    → (P r.1 → Q (put r.1))
    → Careful P r a
    → Careful Q (on_part put r) (put a)
Careful-on_part put {r} {a} q c = record { honest = of_part c.honest; keeps = q c.keeps }
  where
    of_part : IsHonest r a → IsHonest (on_part put r) (put a)
    of_part (inl e) = inl e
    of_part (inr e) = inr (ap put e)

module _ {A : Type 0} {P : A → Type 0} where
  -- Where an element is found, the edit of it is one of the list.
  Careful-update_first :
      (test : A → Bool) (f : A → Edited A) (xs : List A)
      → ((x : A) → test x ≡ true → P x → Careful P (f x) x)
      → All P xs
      → (update_first test f xs ≡ none)
        ⊎ ((r : Edited (List A)) × (update_first test f xs ≡ some r) × Careful (All P) r xs)
  Careful-update_first test f [] c h = inl refl
  Careful-update_first test f (x ∷ xs) c h = elim (Bool-cases (test x)) [
    | inl found ↦ rw found (inr (here (f x) (c x found h.0)))
    | inr other ↦ rw other (later (update_first test f xs) (Careful-update_first test f xs c h.1))
  ]
    where
      here :
          (r : Edited A)
          → Careful P r x
          → (r' : Edited (List A)) × (some (r.0, r.1 ∷ xs) ≡ some r') × Careful (All P) r' (x ∷ xs)
      here r k = (_, refl, Careful-on_part (λ y. y ∷ xs) {r = r} (λ p. (p, h.1)) k)

      later :
          (o : Option (Edited (List A)))
          → (o ≡ none) ⊎ ((r : Edited (List A)) × (o ≡ some r) × Careful (All P) r xs)
          → (map {B = Edited (List A)} (λ r. (r.0, x ∷ r.1)) o ≡ none)
            ⊎ ((r : Edited (List A)) × (map {B = Edited (List A)} (λ r. (r.0, x ∷ r.1)) o ≡ some r)
                × Careful (All P) r (x ∷ xs))
      later o (inl e) = inl (rw e refl)
      later o (inr (r, e, k)) =
          inr (_, rw e refl, Careful-on_part (λ ys. x ∷ ys) {r = r} (λ p. (h.0, p)) k)

  pub Careful-edit_first :
      (missing : FlowyResult (Option (Unit {0}))) (test : A → Bool) (f : A → Edited A) (xs : List A)
      → ((x : A) → test x ≡ true → P x → Careful P (f x) x)
      → All P xs
      → Careful (All P) (edit_first missing test f xs) xs
  Careful-edit_first missing test f xs c h = elim (Careful-update_first test f xs c h) [
    | inl e ↦ rw (edit_first, e) (Careful-same missing h)
    | inr (r, e, k) ↦ rw (edit_first, e) k
  ]

  pub Careful-push : (x : A) (xs : List A) → P x → All P xs → Careful (All P) (push x xs) xs
  unfolding push
  Careful-push x xs p h = Careful-some (All-append P xs (x ∷ []) h (p, tt))

  pub Careful-push_new :
      (eq : A → A → Bool) (x : A) (xs : List A)
      → P x
      → All P xs
      → Careful (All P) (push_new eq x xs) xs
  unfolding push_new
  Careful-push_new eq x xs p h = elim (Bool-cases (any (λ y. eq y x) xs)) [
    | inl there ↦ rw there (Careful-same (done none) h)
    | inr fresh ↦ rw fresh (Careful-push x xs p h)
  ]

  pub Careful-drop_id :
      (id_of : A → Text) (id : Text) (xs : List A)
      → All P xs
      → Careful (All P) (drop_id id_of id xs) xs
  unfolding drop_id
  Careful-drop_id id_of id xs h = Careful-some (All-retain P _ xs h)

  All-remove :
      (i : ℕ) (xs : List A)
      → All P xs
      → (o : Option (A × List A)) → remove i xs ≡ o
      → (o ≡ none) ⊎ ((x : A) × (rest : List A) × (o ≡ some (x, rest)) × P x × All P rest)
  All-remove i [] h o e = inl (sym e)
  All-remove zero (x ∷ xs) h o e = inr (x, xs, sym e, h.0, h.1)
  All-remove (suc i) (x ∷ xs) h o e = after (remove i xs) (All-remove i xs h.1 (remove i xs) refl) e
    where
      after :
          (o' : Option (A × List A))
          → (o' ≡ none) ⊎ ((y : A) × (rest : List A) × (o' ≡ some (y, rest)) × P y × All P rest)
          → map {B = A × List A} (λ r. (r.0, x ∷ r.1)) o' ≡ o
          → (o ≡ none) ⊎ ((y : A) × (rest : List A) × (o ≡ some (y, rest)) × P y × All P rest)
      after o' (inl n) e = inl (rw n at (sym e))
      after o' (inr (y, rest, s, p, q)) e = inr (y, x ∷ rest, rw s at (sym e), p, (h.0, q))

  pub Careful-move :
      (test : A → Bool) (from to : ℕ) (xs : List A)
      → All P xs
      → Careful (All P) (moved (move_vec_element test from to xs)) xs
  unfolding move_vec_element
  Careful-move test from to xs h = by_position (position test xs)
    where
      put :
          (o : Option (A × List A))
          → (o ≡ none) ⊎ ((x : A) × (rest : List A) × (o ≡ some (x, rest)) × P x × All P rest)
          → Careful (All P) (moved (put_in to xs o)) xs
      put o (inl e) = rw e (Careful-same (failed panicked) h)
      put o (inr (x, rest, e, p, q)) = rw e (
          Careful-some (
            All-append P (take to rest) (x ∷ drop to rest) (All-take P to rest q)
              (p, All-drop P to rest q)))

      by_position :
          (o : Option ℕ)
          → Careful
              (All P)
              (moved (elim o [
                | none ↦ (done false, xs)
                | some index ↦
                    if ltb to (length xs)
                    then put_in to xs (remove index xs)
                    else (failed internal_error, xs)
              ]))
              xs
      by_position none = Careful-same (done none) h
      by_position (some index) = elim (Bool-cases (ltb to (length xs))) [
        | inl inside ↦ rw inside (put (remove index xs) (All-remove index xs h _ refl))
        | inr behind ↦ rw behind (Careful-same (failed internal_error) h)
      ]
