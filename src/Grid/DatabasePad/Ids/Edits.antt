-- ===== src/Grid/DatabasePad/Ids/Edits.antt =====
-- The edits of one element, and the moves, keep the ids of a list apart.
use app_flowy.Prelude.{
  ℕ, ◌+◌, ◌≡◌, refl, inl, inr, Bool, Option, none, some, List, [], ◌∷◌, ◌++◌, All, length, ltb,
  Bool-cases, Option-cases, arith,
}
use mathlib.Core.Option.{map}
use app_flowy.Prelude.Search.{position, insert_at, update_first}
use app_flowy.FlowyErrors.{FlowyResult, done, failed, internal_error}
use app_flowy.OtStr.{Text}
use app_flowy.Infra.{Found, first_passing, move_vec_element}
use app_flowy.Pad.{Edited, moved, edit_first}
use app_flowy.Pad.Careful.{Careful, Careful-some, Careful-same, Careful-edit_first}
use app_flowy.Grid.DatabasePad.Ids.{
  one_if, count_id, IsApart, count_id-append, count_id-insert_at, count_id-remove, IsApart-le,
  one_if-same,
}

module _ {A : Type 0} (id_of : A → Text) where
  pub count_id-push :
      (id : Text) (x : A) (xs : List A)
      → count_id id_of id (xs ++ x ∷ []) ≡ one_if id_of id x + count_id id_of id xs
  unfolding count_id
  count_id-push id x xs = omega (arith, count_id-append id_of id xs (x ∷ []))

  count_id-edit_first :
      (missing : FlowyResult (Option (Unit {0}))) (test : A → Bool) (f : A → Edited A)
      → ((x : A) → id_of (f x).1 ≡ id_of x)
      → (id : Text) (xs : List A)
      → count_id id_of id (edit_first missing test f xs).1 ≡ count_id id_of id xs
  unfolding count_id
  count_id-edit_first missing test f keeps id [] = refl
  count_id-edit_first missing test f keeps id (x ∷ xs) = elim (Bool-cases (test x)) [
    | inl here ↦ rw (edit_first, here) (omega (arith, one_if-same id_of id (f x).1 x (keeps x)))
    | inr other ↦
        rw (edit_first, other)
          (behind (update_first test f xs) (count_id-edit_first missing test f keeps id xs))
  ]
    where
      behind :
          (o : Option (Edited (List A)))
          → count_id id_of id
              (elim o as (λ _. Edited (List A)) [ none ↦ (missing, xs) | some r ↦ r ]).1
            ≡ count_id id_of id xs
          → count_id id_of id
              (elim (map {B = Edited (List A)} (λ r. (r.0, x ∷ r.1)) o) as (λ _. Edited (List A)) [
                | none ↦ (missing, x ∷ xs)
                | some r ↦ r
              ]).1
            ≡ one_if id_of id x + count_id id_of id xs
      behind none h = refl
      behind (some r) h = omega (arith, h)

  -- An edit of one element that keeps its id.
  pub edit_first-IsApart :
      (missing : FlowyResult (Option (Unit {0}))) (test : A → Bool) (f : A → Edited A) (xs : List A)
      → ((x : A) → Careful (λ y. id_of y ≡ id_of x) (f x) x)
      → IsApart id_of xs
      → Careful (IsApart id_of) (edit_first missing test f xs) xs
  edit_first-IsApart missing test f xs c h = record {
    honest =
        (Careful-edit_first {P = λ _. Unit {0}} missing test f xs
          (λ x _ _. record { honest = (c x).honest; keeps = tt }) (trivial xs)).honest;
    keeps =
        IsApart-le id_of xs _
          (λ id. omega (arith, count_id-edit_first missing test f (λ x. (c x).keeps) id xs)) h;
  }
    where
      trivial : (xs : List A) → All (λ _. Unit {0}) xs
      trivial [] = tt
      trivial (x ∷ xs) = (tt, trivial xs)

  pub move-IsApart :
      (test : A → Bool) (from to : ℕ) (xs : List A)
      → IsApart id_of xs
      → Careful (IsApart id_of) (moved (move_vec_element test from to xs)) xs
  unfolding move_vec_element
  move-IsApart test from to xs h = elim (Option-cases (position test xs)) [
    | inl n ↦ rw (move_vec_element, n) (Careful-same (done none) h)
    | inr (i, e) ↦ elim (Bool-cases (ltb to (length xs))) [
      | inl inside ↦
          let r : Found test i xs = first_passing test xs e in
          rw (move_vec_element, e, inside, r.removed)
            (Careful-some (
              IsApart-le id_of xs (insert_at to r.element r.rest)
                (λ id. omega (
                  arith,
                  count_id-insert_at id_of id to r.element r.rest,
                  count_id-remove id_of id i xs r.removed,
                ))
                h))
      | inr past ↦ rw (move_vec_element, e, past) (Careful-same (failed internal_error) h)
    ]
  ]
