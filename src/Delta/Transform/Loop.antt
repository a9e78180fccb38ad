-- ===== src/Delta/Transform/Loop.antt =====
-- The loop of `transform` of shared-lib/lib-ot/src/core/delta/ops.rs, round by round.
use mathlib.Core.List.{head?}
use app_flowy.Prelude.{
  ℕ, zero, suc, ◌-◌, ◌≢◌, refl, none, some, List, [], ◌∷◌, compare-cases, less, equal, greater,
  arith,
}
use app_flowy.OtStr.{Text, utf16_len}
use app_flowy.Attributes.{OperationAttributes}
use app_flowy.Delta.Operation.{DeltaOperation, delete, retain, insert}
use app_flowy.Delta.Ops.{DeltaOperations}
use app_flowy.Delta.Meaning.{base_len, SameEffect-refl, split_retain_at, split_delete_at}
use app_flowy.Delta.Extends.{Extends-nil, Extends-delete, Extends-retain, Extends-insert}
use app_flowy.Delta.Transform.{transform_loop}
use app_flowy.Delta.Transform.Diamond.{
  Diamond-nil, Diamond-left_insert, Diamond-right_insert, Diamond-both_retain, Diamond-both_delete,
  Diamond-left_delete, Diamond-right_delete, Diamond-SameEffect,
}
use app_flowy.Delta.Transform.Outcome.{
  TransformsAttributes, Outcome-step, transform_op_attribute-ok, same_retain, same_delete, EndsAt,
}

module _ {T : Type 0} ⦃attrs : OperationAttributes T⦄ where
  module _ (total : TransformsAttributes T attrs) where
    right_insert :
        (rounds : ℕ)
        (ends : (l r : List (DeltaOperation T)) (a b : DeltaOperations T) → EndsAt rounds l r a b)
        (ops1 : List (DeltaOperation T)) (t : Text) (y : T) (ops2 : List (DeltaOperation T))
        (a b : DeltaOperations T)
        → ((s : Text) (x : T) → head? ops1 ≢ some (insert s x))
        → EndsAt (suc rounds) ops1 (insert t y ∷ ops2) a b
    unfolding transform_loop base_len
    right_insert rounds ends [] t y ops2 a b other f e p q =
        let (c, e1) = transform_op_attribute-ok total none (insert t y) in
        rw e1 (
          Outcome-step (retain (utf16_len t) c ∷ []) (insert t c ∷ [])
            (Extends-retain (utf16_len t) c a) (Extends-insert t c b)
            (λ _ _. Diamond-right_insert t y c c) (ends [] ops2 _ _ (omega arith) e p q.1))
    right_insert rounds ends (insert s x ∷ ops1) t y ops2 a b other f e p q =
        absurd (other s x refl)
    right_insert rounds ends (delete n ∷ ops1) t y ops2 a b other f e p q =
        let (c, e1) = transform_op_attribute-ok total (some (delete n)) (insert t y) in
        rw e1 (
          Outcome-step (retain (utf16_len t) c ∷ []) (insert t c ∷ [])
            (Extends-retain (utf16_len t) c a) (Extends-insert t c b)
            (λ _ _. Diamond-right_insert t y c c)
            (ends (delete n ∷ ops1) ops2 _ _ (omega arith) e p q.1))
    right_insert rounds ends (retain n x ∷ ops1) t y ops2 a b other f e p q =
        let (c, e1) = transform_op_attribute-ok total (some (retain n x)) (insert t y) in
        rw e1 (
          Outcome-step (retain (utf16_len t) c ∷ []) (insert t c ∷ [])
            (Extends-retain (utf16_len t) c a) (Extends-insert t c b)
            (λ _ _. Diamond-right_insert t y c c)
            (ends (retain n x ∷ ops1) ops2 _ _ (omega arith) e p q.1))

    both_retain :
        (rounds : ℕ)
        (ends : (l r : List (DeltaOperation T)) (a b : DeltaOperations T) → EndsAt rounds l r a b)
        (n : ℕ) (x : T) (ops1 : List (DeltaOperation T)) (m : ℕ) (y : T)
        (ops2 : List (DeltaOperation T)) (a b : DeltaOperations T)
        → EndsAt (suc rounds) (retain n x ∷ ops1) (retain m y ∷ ops2) a b
    unfolding transform_loop base_len
    both_retain rounds ends n x ops1 m y ops2 a b f e p q =
        let (c, e1) = transform_op_attribute-ok total (some (retain n x)) (retain m y) in
        elim (compare-cases n m) [
          | less h g ↦
              rw (e1, g)
                (Outcome-step (retain n c ∷ []) (retain n c ∷ []) (Extends-retain n c a)
                  (Extends-retain n c b)
                  (λ _ _ d.
                    Diamond-SameEffect (SameEffect-refl _)
                      (split_retain_at n m y y attrs.empty ops2 (omega arith))
                      (Diamond-both_retain n x y c c d))
                  (ends ops1 (retain (m - n) attrs.empty ∷ ops2) _ _ (omega arith) (omega arith) p.1
                    (omega arith, q.1)))
          | equal h g ↦
              rw (e1, g)
                (Outcome-step (retain n c ∷ []) (retain n c ∷ []) (Extends-retain n c a)
                  (Extends-retain n c b)
                  (λ _ _ d.
                    Diamond-SameEffect (SameEffect-refl _) (same_retain y ops2 h)
                      (Diamond-both_retain n x y c c d))
                  (ends ops1 ops2 _ _ (omega arith) (omega arith) p.1 q.1))
          | greater h g ↦
              rw (e1, g)
                (Outcome-step (retain m c ∷ []) (retain m c ∷ []) (Extends-retain m c a)
                  (Extends-retain m c b)
                  (λ _ _ d.
                    Diamond-SameEffect (split_retain_at m n x x attrs.empty ops1 (omega arith))
                      (SameEffect-refl _) (Diamond-both_retain m x y c c d))
                  (ends (retain (n - m) attrs.empty ∷ ops1) ops2 _ _ (omega arith) (omega arith)
                    (omega arith, p.1) q.1))
        ]

    both_delete :
        (rounds : ℕ)
        (ends : (l r : List (DeltaOperation T)) (a b : DeltaOperations T) → EndsAt rounds l r a b)
        (n : ℕ) (ops1 : List (DeltaOperation T)) (m : ℕ) (ops2 : List (DeltaOperation T))
        (a b : DeltaOperations T)
        → EndsAt (suc rounds) (delete n ∷ ops1) (delete m ∷ ops2) a b
    unfolding transform_loop base_len
    both_delete rounds ends n ops1 m ops2 a b f e p q = elim (compare-cases n m) [
      | less h g ↦
          rw (g, transform_loop)
            (Outcome-step [] [] (Extends-nil a) (Extends-nil b)
              (λ _ _ d.
                Diamond-SameEffect (SameEffect-refl _) (split_delete_at n m ops2 (omega arith))
                  (Diamond-both_delete n d))
              (ends ops1 (delete (m - n) ∷ ops2) _ _ (omega arith) (omega arith) p.1
                (omega arith, q.1)))
      | equal h g ↦
          rw (g, transform_loop)
            (Outcome-step [] [] (Extends-nil a) (Extends-nil b)
              (λ _ _ d.
                Diamond-SameEffect (SameEffect-refl _) (same_delete ops2 h)
                  (Diamond-both_delete n d))
              (ends ops1 ops2 _ _ (omega arith) (omega arith) p.1 q.1))
      | greater h g ↦
          rw (g, transform_loop)
            (Outcome-step [] [] (Extends-nil a) (Extends-nil b)
              (λ _ _ d.
                Diamond-SameEffect (split_delete_at m n ops1 (omega arith)) (SameEffect-refl _)
                  (Diamond-both_delete m d))
              (ends (delete (n - m) ∷ ops1) ops2 _ _ (omega arith) (omega arith) (omega arith, p.1)
                q.1))
    ]

    delete_retain :
        (rounds : ℕ)
        (ends : (l r : List (DeltaOperation T)) (a b : DeltaOperations T) → EndsAt rounds l r a b)
        (n : ℕ) (ops1 : List (DeltaOperation T)) (m : ℕ) (y : T) (ops2 : List (DeltaOperation T))
        (a b : DeltaOperations T)
        → EndsAt (suc rounds) (delete n ∷ ops1) (retain m y ∷ ops2) a b
    unfolding transform_loop base_len
    delete_retain rounds ends n ops1 m y ops2 a b f e p q = elim (compare-cases n m) [
      | less h g ↦
          rw (g, transform_loop)
            (Outcome-step (delete n ∷ []) [] (Extends-delete n a) (Extends-nil b)
              (λ _ _ d.
                Diamond-SameEffect (SameEffect-refl _)
                  (split_retain_at n m y y attrs.empty ops2 (omega arith))
                  (Diamond-left_delete n y d))
              (ends ops1 (retain (m - n) attrs.empty ∷ ops2) _ _ (omega arith) (omega arith) p.1
                (omega arith, q.1)))
      | equal h g ↦
          rw (g, transform_loop)
            (Outcome-step (delete n ∷ []) [] (Extends-delete n a) (Extends-nil b)
              (λ _ _ d.
                Diamond-SameEffect (SameEffect-refl _) (same_retain y ops2 h)
                  (Diamond-left_delete n y d))
              (ends ops1 ops2 _ _ (omega arith) (omega arith) p.1 q.1))
      | greater h g ↦
          rw (g, transform_loop)
            (Outcome-step (delete m ∷ []) [] (Extends-delete m a) (Extends-nil b)
              (λ _ _ d.
                Diamond-SameEffect (split_delete_at m n ops1 (omega arith)) (SameEffect-refl _)
                  (Diamond-left_delete m y d))
              (ends (delete (n - m) ∷ ops1) ops2 _ _ (omega arith) (omega arith) (omega arith, p.1)
                q.1))
    ]

    retain_delete :
        (rounds : ℕ)
        (ends : (l r : List (DeltaOperation T)) (a b : DeltaOperations T) → EndsAt rounds l r a b)
        (n : ℕ) (x : T) (ops1 : List (DeltaOperation T)) (m : ℕ) (ops2 : List (DeltaOperation T))
        (a b : DeltaOperations T)
        → EndsAt (suc rounds) (retain n x ∷ ops1) (delete m ∷ ops2) a b
    unfolding transform_loop base_len
    retain_delete rounds ends n x ops1 m ops2 a b f e p q = elim (compare-cases n m) [
      | less h g ↦
          rw (g, transform_loop)
            (Outcome-step [] (delete n ∷ []) (Extends-nil a) (Extends-delete n b)
              (λ _ _ d.
                Diamond-SameEffect (SameEffect-refl _) (split_delete_at n m ops2 (omega arith))
                  (Diamond-right_delete n x d))
              (ends ops1 (delete (m - n) ∷ ops2) _ _ (omega arith) (omega arith) p.1
                (omega arith, q.1)))
      | equal h g ↦
          rw (g, transform_loop)
            (Outcome-step [] (delete n ∷ []) (Extends-nil a) (Extends-delete n b)
              (λ _ _ d.
                Diamond-SameEffect (SameEffect-refl _) (same_delete ops2 h)
                  (Diamond-right_delete n x d))
              (ends ops1 ops2 _ _ (omega arith) (omega arith) p.1 q.1))
      | greater h g ↦
          rw (g, transform_loop)
            (Outcome-step [] (delete m ∷ []) (Extends-nil a) (Extends-delete m b)
              (λ _ _ d.
                Diamond-SameEffect (split_retain_at m n x x attrs.empty ops1 (omega arith))
                  (SameEffect-refl _) (Diamond-right_delete m x d))
              (ends (retain (n - m) attrs.empty ∷ ops1) ops2 _ _ (omega arith) (omega arith)
                (omega arith, p.1) q.1))
    ]

    pub loop-Outcome :
        (rounds : ℕ) (ops1 ops2 : List (DeltaOperation T)) (a b : DeltaOperations T)
        → EndsAt rounds ops1 ops2 a b
    unfolding transform_loop base_len
    loop-Outcome zero ops1 ops2 a b f e p q = absurd (omega arith)
    loop-Outcome (suc rounds) [] [] a b f e p q = record {
      a_prime = a;
      b_prime = b;
      a_ops = [];
      b_ops = [];
      returns = refl;
      a_extends = Extends-nil a;
      b_extends = Extends-nil b;
      diamond = Diamond-nil;
    }
    loop-Outcome (suc rounds) (insert s x ∷ ops1) ops2 a b f e p q =
        Outcome-step (insert s x ∷ []) (retain (utf16_len s) x ∷ []) (Extends-insert s x a)
          (Extends-retain (utf16_len s) x b) (λ _ _. Diamond-left_insert s x x x)
          (loop-Outcome rounds ops1 ops2 _ _ (omega arith) e p.1 q)
    loop-Outcome (suc rounds) [] (insert t y ∷ ops2) a b f e p q =
        right_insert rounds (loop-Outcome rounds) [] t y ops2 a b (λ _ _ h. cc) f e p q
    loop-Outcome (suc rounds) (delete n ∷ ops1) (insert t y ∷ ops2) a b f e p q =
        right_insert rounds (loop-Outcome rounds) (delete n ∷ ops1) t y ops2 a b (λ _ _ h. cc) f e p
          q
    loop-Outcome (suc rounds) (retain n x ∷ ops1) (insert t y ∷ ops2) a b f e p q =
        right_insert rounds (loop-Outcome rounds) (retain n x ∷ ops1) t y ops2 a b (λ _ _ h. cc) f e
          p q
    loop-Outcome (suc rounds) [] (delete m ∷ ops2) a b f e p q = absurd (omega arith)
    loop-Outcome (suc rounds) [] (retain m y ∷ ops2) a b f e p q = absurd (omega arith)
    loop-Outcome (suc rounds) (delete n ∷ ops1) [] a b f e p q = absurd (omega arith)
    loop-Outcome (suc rounds) (retain n x ∷ ops1) [] a b f e p q = absurd (omega arith)
    loop-Outcome (suc rounds) (retain n x ∷ ops1) (retain m y ∷ ops2) a b f e p q =
        both_retain rounds (loop-Outcome rounds) n x ops1 m y ops2 a b f e p q
    loop-Outcome (suc rounds) (delete n ∷ ops1) (delete m ∷ ops2) a b f e p q =
        both_delete rounds (loop-Outcome rounds) n ops1 m ops2 a b f e p q
    loop-Outcome (suc rounds) (delete n ∷ ops1) (retain m y ∷ ops2) a b f e p q =
        delete_retain rounds (loop-Outcome rounds) n ops1 m y ops2 a b f e p q
    loop-Outcome (suc rounds) (retain n x ∷ ops1) (delete m ∷ ops2) a b f e p q =
        retain_delete rounds (loop-Outcome rounds) n x ops1 m ops2 a b f e p q
