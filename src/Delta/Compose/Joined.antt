-- ===== src/Delta/Compose/Joined.antt =====
-- What `compose_ops` adds for the next operations of two deltas.

use app_flowy.Prelude.{ℕ, ◌≡◌, refl, false, List, [], ◌∷◌, ◌++◌}
use app_flowy.Errors.{Result, ok}
use app_flowy.Attributes.{OperationAttributes}
use app_flowy.Delta.Operation.{DeltaOperation, delete, retain, insert, len, is_insert, is_delete}
use app_flowy.Delta.Ops.{DeltaOperations, add}
use app_flowy.Delta.Extends.{Extends, Extends-nil, Extends-add}
use app_flowy.Delta.Compose.{compose_ops}
use app_flowy.Delta.Compose.Composition.{
  Composition, Composition-retain_retain, Composition-retain_delete, Composition-insert_retain,
  Composition-insert_delete, Composition-nil_retain, Composition-nil_delete, Composition-retain_nil,
  Composition-insert_nil,
}

-- The attributes of any two operations can be composed.
abbrev pub ComposesAttributes : (T : Type 0) → OperationAttributes T → Type 0
ComposesAttributes T attrs = (x y : T) → (z : T) × (attrs.compose x y ≡ ok z)

module _ {T : Type 0} ⦃attrs : OperationAttributes T⦄ where
  -- What is added for two operations of one length, and what that says of the deltas.
  pub record Joined (first second first_left second_left : List (DeltaOperation T))
      (d : DeltaOperations T) (result : Result (DeltaOperations T)) : Type 0 where
    pub joined : DeltaOperations T
    pub added : List (DeltaOperation T)
    pub returns : result ≡ ok joined
    pub extends : Extends d added joined
    pub composition :
        (ops : List (DeltaOperation T))
        → Composition first_left second_left ops
        → Composition first second (added ++ ops)

  Joined-by_add :
      {first second first_left second_left : List (DeltaOperation T)} (d : DeltaOperations T)
      {result : Result (DeltaOperations T)} (op : DeltaOperation T)
      → result ≡ ok (add op d)
      → ((ops : List (DeltaOperation T))
          → Composition first_left second_left ops
          → Composition first second (op ∷ ops))
      → Joined first second first_left second_left d result
  Joined-by_add d op e h = record {
    joined = add op d;
    added = op ∷ [];
    returns = e;
    extends = Extends-add op d;
    composition = h;
  }

  module _ (total : ComposesAttributes T attrs) (d : DeltaOperations T) where
    pub join_ops :
        (op other_op : DeltaOperation T) (first_left second_left : List (DeltaOperation T))
        → is_delete op ≡ false
        → is_insert other_op ≡ false
        → len op ≡ len other_op
        → Joined
            (op ∷ first_left)
            (other_op ∷ second_left)
            first_left
            second_left
            d
            (compose_ops op other_op d)
    unfolding compose_ops len
    join_ops (delete n) other_op l r h k e = cc
    join_ops (retain n a) (insert t b) l r h k e = cc
    join_ops (insert s a) (insert t b) l r h k e = cc
    join_ops (retain n a) (retain m b) l r h k e =
        let (c, q) = total a b in
        Joined-by_add d (retain n c) (rw q refl)
          (λ ops p. rw (← e) (Composition-retain_retain n a b c p))
    join_ops (retain n a) (delete m) l r h k e =
        Joined-by_add d (delete m) refl (λ ops p. rw e (Composition-retain_delete m a p))
    join_ops (insert s a) (retain m b) l r h k e =
        let (c, q) = total a b in
        Joined-by_add d (insert s (attrs.remove c)) (rw q refl)
          (λ ops p. Composition-insert_retain s m a b (attrs.remove c) e p)
    join_ops (insert s a) (delete m) l r h k e = record {
      joined = d;
      added = [];
      returns = refl;
      extends = Extends-nil d;
      composition = λ ops p. Composition-insert_delete s m a e p;
    }

    pub join_second :
        (other_op : DeltaOperation T) (n : ℕ) (second_left : List (DeltaOperation T))
        → is_insert other_op ≡ false
        → len other_op ≡ n
        → Joined []
            (other_op ∷ second_left)
            []
            second_left
            d
            (compose_ops (retain n attrs.empty) other_op d)
    unfolding compose_ops len
    join_second (insert t b) n r h e = cc
    join_second (delete m) n r h e =
        Joined-by_add d (delete m) refl (λ ops p. Composition-nil_delete m p)
    join_second (retain m b) n r h e =
        let (c, q) = total attrs.empty b in
        Joined-by_add d (retain n c) (rw q refl) (λ ops p. rw e (Composition-nil_retain n b c p))

    pub join_first :
        (op : DeltaOperation T) (n : ℕ) (first_left : List (DeltaOperation T))
        → is_delete op ≡ false
        → Joined (op ∷ first_left) [] first_left [] d (compose_ops op (retain n attrs.empty) d)
    unfolding compose_ops
    join_first (delete m) n l h = cc
    join_first (retain m a) n l h =
        let (c, q) = total a attrs.empty in
        Joined-by_add d (retain m c) (rw q refl) (λ ops p. Composition-retain_nil m a c p)
    join_first (insert s a) n l h =
        let (c, q) = total a attrs.empty in
        Joined-by_add d (insert s (attrs.remove c)) (rw q refl)
          (λ ops p. Composition-insert_nil s a (attrs.remove c) p)
