-- ===== src/Delta/Transform/Outcome.antt =====
-- What the loop of `transform` returns, and what a round adds to it.

use app_flowy.Prelude.{ℕ, ◌+◌, ◌<◌, ◌≡◌, refl, Option, none, some, List, ◌∷◌, ◌++◌, length, All}
use app_flowy.Errors.{ok}
use app_flowy.Attributes.{OperationAttributes}
use app_flowy.Delta.Operation.{DeltaOperation, delete, retain, get_attributes}
use app_flowy.Delta.Ops.{DeltaOperations}
use app_flowy.Delta.Meaning.{base_len, SameEffect, SameEffect-refl, IsPositive}
use app_flowy.Delta.Extends.{Extends, Extends-trans}
use app_flowy.Delta.Transform.{transform_op_attribute, transform_loop, Transformed}
use app_flowy.Delta.Transform.Diamond.{Diamond}

-- The attributes of any two operations can be transformed.
abbrev pub TransformsAttributes : (T : Type 0) → OperationAttributes T → Type 0
TransformsAttributes T attrs = (x y : T) → (p : T × T) × (attrs.transform x y ≡ ok p)

module _ {T : Type 0} ⦃attrs : OperationAttributes T⦄ where
  -- The loop returns two deltas, extended by operations that close the diamond.
  pub record Outcome (ops1 ops2 : List (DeltaOperation T)) (a b : DeltaOperations T)
      (r : Transformed T) : Type 0 where
    pub a_prime : DeltaOperations T
    pub b_prime : DeltaOperations T
    pub a_ops : List (DeltaOperation T)
    pub b_ops : List (DeltaOperation T)
    pub returns : r ≡ some (ok (a_prime, b_prime))
    pub a_extends : Extends a a_ops a_prime
    pub b_extends : Extends b b_ops b_prime
    pub diamond : Diamond ops1 ops2 a_ops b_ops

  pub Outcome-step :
      {ops1 ops2 ops1' ops2' : List (DeltaOperation T)} {a b a1 b1 : DeltaOperations T}
      {r : Transformed T} (xs ys : List (DeltaOperation T))
      → Extends a xs a1
      → Extends b ys b1
      → ((p q : List (DeltaOperation T))
          → Diamond ops1' ops2' p q
          → Diamond ops1 ops2 (xs ++ p) (ys ++ q))
      → Outcome ops1' ops2' a1 b1 r
      → Outcome ops1 ops2 a b r
  Outcome-step xs ys p q d o = record {
    a_prime = o.a_prime;
    b_prime = o.b_prime;
    a_ops = xs ++ o.a_ops;
    b_ops = ys ++ o.b_ops;
    returns = o.returns;
    a_extends = Extends-trans xs o.a_ops p o.a_extends;
    b_extends = Extends-trans ys o.b_ops q o.b_extends;
    diamond = d o.a_ops o.b_ops o.diamond;
  }

  pub transform_op_attribute-ok :
      TransformsAttributes T attrs
      → (left : Option (DeltaOperation T)) (right : DeltaOperation T)
      → (c : T) × (transform_op_attribute left (some right) ≡ ok c)
  unfolding transform_op_attribute
  transform_op_attribute-ok total none right = (get_attributes right, refl)
  transform_op_attribute-ok total (some left) right =
      let (p, e) = total (get_attributes left) (get_attributes right) in (p.0, rw e)

  pub same_retain :
      {n m : ℕ} (y : T) (ops : List (DeltaOperation T))
      → n ≡ m
      → SameEffect (retain m y ∷ ops) (retain n y ∷ ops)
  same_retain y ops h = rw h (SameEffect-refl _)

  pub same_delete :
      {n m : ℕ} (ops : List (DeltaOperation T))
      → n ≡ m
      → SameEffect (delete m ∷ ops) (delete n ∷ ops)
  same_delete ops h = rw h (SameEffect-refl _)

  -- The rounds suffice for these lists, and the loop closes the diamond.
  abbrev pub EndsAt :
      ℕ
      → List (DeltaOperation T)
      → List (DeltaOperation T)
      → DeltaOperations T
      → DeltaOperations T
      → Type 0
  EndsAt rounds ops1 ops2 a b =
      length ops1 + length ops2 < rounds
      → base_len ops1 ≡ base_len ops2
      → All IsPositive ops1
      → All IsPositive ops2
      → Outcome ops1 ops2 a b (transform_loop rounds ops1 ops2 a b)
