-- ===== src/Infra.antt =====
-- `move_vec_element` of shared-lib/lib-infra/src/util.rs, by which the pads move an app, a view or a field.
-- Its error is a text, of which every caller makes an internal error.
use app_flowy.Prelude.{
  ℕ, zero, suc, ◌+◌, ◌<◌, ◌≤◌, ◌≡◌, refl, ap, ◌∙◌, inl, inr, Bool, true, false, Option, none, some,
  List, [], ◌∷◌, ltb, length, get_elem?, Bool-cases, if◌then◌else◌, arith,
}
use mathlib.Core.Option.{map}
use app_flowy.Prelude.Search.{position, remove, insert_at}
use app_flowy.FlowyErrors.{FlowyResult, done, failed, internal_error, panicked}

module _ {A : Type 0} where
  -- The element that was taken out, put in.
  abbrev pub put_in : ℕ → List A → Option (A × List A) → FlowyResult Bool × List A
  put_in to xs none = (failed panicked, xs)
  put_in to xs (some (x, rest)) = (done true, insert_at to x rest)

  -- `from` is not read.
  unfoldable pub move_vec_element : (A → Bool) → ℕ → ℕ → List A → FlowyResult Bool × List A
  move_vec_element test from to xs = elim (position test xs) [
    | none ↦ (done false, xs)
    | some index ↦
        if ltb to (length xs) then put_in to xs (remove index xs) else (failed internal_error, xs)
  ]

  -- An element that was found, and the others.
  pub record Found (test : A → Bool) (i : ℕ) (xs : List A) : Type 0 where
    pub element : A
    pub rest : List A
    pub removed : remove i xs ≡ some (element, rest)
    pub whole : xs ≡ insert_at i element rest
    pub counted : length xs ≡ length rest + 1
    pub passes : test element ≡ true

  pub first_passing :
      (test : A → Bool) (xs : List A) {i : ℕ} → position test xs ≡ some i → Found test i xs
  first_passing test [] e = cc
  first_passing test (x ∷ xs) {i} e = elim (Bool-cases (test x)) [
    | inl here ↦ at_front i (cc (rw here at e)) here
    | inr other ↦ behind i (λ k p. first_passing test xs p) (position test xs) refl (rw other at e)
  ]
    where
      at_front : (i : ℕ) → 0 ≡ i → test x ≡ true → Found test i (x ∷ xs)
      at_front zero z here = record {
        element = x;
        rest = xs;
        removed = refl;
        whole = refl;
        counted = omega arith;
        passes = here;
      }
      at_front (suc i) z here = absurd (omega arith)

      behind :
          (i : ℕ)
          → ((k : ℕ) → position test xs ≡ some k → Found test k xs)
          → (o : Option ℕ) → position test xs ≡ o
          → map suc o ≡ some i
          → Found test i (x ∷ xs)
      behind i rest none p q = cc
      behind zero rest (some k) p q = absurd (ground arith)
      behind (suc j) rest (some k) p q =
          let r : Found test j xs = rest j (p ∙ ap some (ground arith)) in
          record {
            element = r.element;
            rest = x ∷ r.rest;
            removed = rw r.removed refl;
            whole = ap (x ∷◌) r.whole;
            counted = omega (arith, r.counted);
            passes = r.passes;
          }

  get_elem?-insert_at :
      (to : ℕ) (x : A) (rest : List A)
      → to ≤ length rest
      → get_elem? (insert_at to x rest) to ≡ some x
  get_elem?-insert_at zero x rest h = refl
  get_elem?-insert_at (suc to) x [] h = absurd (omega arith)
  get_elem?-insert_at (suc to) x (y ∷ rest) h = get_elem?-insert_at to x rest (omega arith)

  -- Where an element passes the test, the first at `i`, and `to` is an index of the list: the move says
  -- so, that element then stands at `to`, and the others are as they were, in their order.
  pub move_vec_element-position :
      (test : A → Bool) (from to : ℕ) (xs : List A) {i : ℕ}
      → position test xs ≡ some i
      → to < length xs
      → (x : A) × (rest : List A) × (move_vec_element test from to xs
          ≡ (done true, insert_at to x rest))
        × (get_elem? (insert_at to x rest) to ≡ some x)
        × (xs ≡ insert_at i x rest)
        × (test x ≡ true)
  unfolding move_vec_element
  move_vec_element-position test from to xs {i} e inside =
      let r : Found test i xs = first_passing test xs e in
      let here : ltb to (length xs) ≡ true = ground arith in
      (
        r.element,
        r.rest,
        rw (move_vec_element, e, here, r.removed) refl,
        get_elem?-insert_at to r.element r.rest (omega (arith, r.counted)),
        r.whole,
        r.passes,
      )
