-- ===== src/Grid/DatabasePad/Ids.antt =====
-- How often an id stands in a list, under the changes that the closures of
-- frontend/rust-lib/flowy-client-sync/src/client_database/database_revision_pad.rs make of it.
pub mod Edits
use app_flowy.Prelude.{
  ℕ, zero, suc, ◌+◌, ◌≤◌, ◌<◌, ◌≡◌, refl, ap, subst, ◌∙◌, inl, inr, false, Option, none, some, List,
  [], ◌∷◌, ◌++◌, get_elem?, Bool-cases, if◌then◌else◌, arith,
}
use mathlib.Core.Option.{map}
use app_flowy.Prelude.Search.{any, position, remove, insert_at}
use app_flowy.Infra.{Found, first_passing}
use app_flowy.OtStr.{Text}
use app_flowy.Attributes.HashMap.{text_eq}
use app_flowy.Attributes.HashMap.Laws.{text_eq_sound}

module _ {A : Type 0} (id_of : A → Text) where
  abbrev pub one_if : Text → A → ℕ
  one_if id x = if text_eq (id_of x) id then 1 else 0

  unfoldable pub count_id : Text → List A → ℕ
  count_id id [] = 0
  count_id id (x ∷ xs) = one_if id x + count_id id xs

  -- No id stands twice.
  abbrev pub IsApart : List A → Type 0
  IsApart xs = (id : Text) → count_id id xs ≤ 1

  pub count_id-append :
      (id : Text) (xs ys : List A) → count_id id (xs ++ ys) ≡ count_id id xs + count_id id ys
  unfolding count_id
  count_id-append id [] ys = omega arith
  count_id-append id (x ∷ xs) ys = omega (arith, count_id-append id xs ys)

  pub count_id-insert_at :
      (id : Text) (i : ℕ) (x : A) (xs : List A)
      → count_id id (insert_at i x xs) ≡ one_if id x + count_id id xs
  unfolding count_id
  count_id-insert_at id zero x xs = refl
  count_id-insert_at id (suc i) x [] = refl
  count_id-insert_at id (suc i) x (y ∷ xs) = omega (arith, count_id-insert_at id i x xs)

  count_out : Text → Option (A × List A) → ℕ
  count_out id none = 0
  count_out id (some (x, rest)) = one_if id x + count_id id rest

  pub count_id-remove :
      (id : Text) (i : ℕ) (xs : List A) {x : A} {rest : List A}
      → remove i xs ≡ some (x, rest)
      → count_id id xs ≡ one_if id x + count_id id rest
  unfolding count_id count_out
  count_id-remove id i [] e = cc
  count_id-remove id zero (y ∷ xs) e = ap (count_out id) e
  count_id-remove id (suc i) (y ∷ xs) {x} {rest} e =
      behind (remove i xs) (λ z r. count_id-remove id i xs {x = z} {rest = r}) e
    where
      behind :
          (o : Option (A × List A))
          → ((z : A) (r : List A) → o ≡ some (z, r) → count_id id xs ≡ one_if id z + count_id id r)
          → map {B = A × List A} (λ r. (r.0, y ∷ r.1)) o ≡ some (x, rest)
          → one_if id y + count_id id xs ≡ one_if id x + count_id id rest
      behind none h q = cc
      behind (some (z, r)) h q = omega (arith, h z r refl, ap (count_out id) q)

  -- An id that is not found stands nowhere.
  pub count_id-any :
      (id : Text) (xs : List A) → any (λ x. text_eq (id_of x) id) xs ≡ false → count_id id xs ≡ 0
  unfolding count_id
  count_id-any id [] e = refl
  count_id-any id (x ∷ xs) e = ground (arith, count_id-any id xs)

  -- Counts that do not grow keep the ids apart.
  pub IsApart-le :
      (xs ys : List A) → ((id : Text) → count_id id ys ≤ count_id id xs) → IsApart xs → IsApart ys
  IsApart-le xs ys le h id = omega (arith, le id, h id)

  -- A new element whose id stands nowhere.
  pub IsApart-new :
      (x : A) (xs ys : List A)
      → count_id (id_of x) xs ≡ 0
      → ((id : Text) → count_id id ys ≡ one_if id x + count_id id xs)
      → IsApart xs
      → IsApart ys
  IsApart-new x xs ys fresh counts h id = elim (Bool-cases (text_eq (id_of x) id)) [
    | inl same ↦
        let none_there : count_id id xs ≡ 0 =
          subst (λ t. count_id t xs ≡ 0) (text_eq_sound (id_of x) id same) fresh in
        ground (arith, counts id, none_there)
    | inr other ↦ ground (arith, counts id, h id)
  ]

  -- An element that takes the place of one with its id.
  pub one_if-same : (id : Text) (x y : A) → id_of x ≡ id_of y → one_if id x ≡ one_if id y
  one_if-same id x y e = ap (λ t. if text_eq t id then 1 else 0) e

  -- The element at an index that was found has the id.
  pub id-found :
      (id : Text) (xs : List A) {i : ℕ}
      → position (λ x. text_eq (id_of x) id) xs ≡ some i
      → (x : A) × (rest : List A) × (remove i xs ≡ some (x, rest))
        × (get_elem? xs i ≡ some x)
        × (id_of x ≡ id)
  id-found id xs {i} e =
      let r : Found (λ x. text_eq (id_of x) id) i xs =
        first_passing (λ x. text_eq (id_of x) id) xs e in
      (
        r.element,
        r.rest,
        r.removed,
        at_index i xs r.removed,
        text_eq_sound (id_of r.element) id r.passes,
      )
    where
      at_index :
          (i : ℕ) (xs : List A) {x : A} {rest : List A}
          → remove i xs ≡ some (x, rest)
          → get_elem? xs i ≡ some x
      at_index i [] e = cc
      at_index zero (y ∷ xs) e = ap (map (λ (r : A × List A). r.0)) e
      at_index (suc i) (y ∷ xs) {x} {rest} e =
          behind (remove i xs) (λ z r. at_index i xs {x = z} {rest = r}) e
        where
          behind :
              (o : Option (A × List A))
              → ((z : A) (r : List A) → o ≡ some (z, r) → get_elem? xs i ≡ some z)
              → map {B = A × List A} (λ r. (r.0, y ∷ r.1)) o ≡ some (x, rest)
              → get_elem? xs i ≡ some x
          behind none h q = cc
          behind (some (z, r)) h q = h z r refl ∙ ap (map (λ (p : A × List A). p.0)) q
