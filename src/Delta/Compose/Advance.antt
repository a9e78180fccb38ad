-- ===== src/Delta/Compose/Advance.antt =====
-- What each kind of round of `compose` does to what is left of the two deltas.

use app_flowy.Prelude.{
  suc, ◌+◌, ◌≤◌, ◌<◌, ◌≡◌, refl, ap, ◌∙◌, min, true, false, ◌||◌, some, List, [], ◌∷◌, ◌++◌, length,
  compare-cases, less, equal, greater, arith, ap₂, Bool-cases, inl, inr,
}
use app_flowy.Errors.{ok}
use app_flowy.Attributes.{OperationAttributes}
use app_flowy.Delta.Operation.{DeltaOperation, delete, retain, insert, len, is_insert, is_delete}
use app_flowy.Delta.Ops.{add}
use app_flowy.Delta.Extends.{Extends, Extends-add}
use app_flowy.Delta.Cursor.{has_next, is_next_insert}
use app_flowy.Delta.Cursor.Pieces.{front, len-front, front_all, len-positive}
use app_flowy.Delta.Cursor.Pending.{Pending}
use app_flowy.Delta.Cursor.Calls.{
  next_op_with_len-front, next_op-whole, next_op_len-some, next_op_with_len-exhausted,
  next_op_len-none,
}
use app_flowy.Delta.Compose.{Composing, running, or_max, compose_step}
use app_flowy.Delta.Compose.Rounds.{
  Piece, take-Piece, is_delete-front, is_insert-front, step_insert, step_delete, step_both,
}
use app_flowy.Delta.Compose.Joined.{ComposesAttributes, join_ops, join_first, join_second}
use app_flowy.Delta.Compose.Composition.{
  Composition, Composition-SameEffect, Composition-insert, Composition-delete,
}
use app_flowy.Delta.Compose.Next.{
  or_true, has_next-cons, is_next_insert-cons, is_next_delete-cons, fits_window, is_next_insert-nil,
  is_next_delete-nil,
}

module _ {T : Type 0} ⦃attrs : OperationAttributes T⦄ where
  -- A round that goes on: what is left of both deltas, and what was added to the new one.
  pub record Advance (first second : List (DeltaOperation T)) (s : Composing T) : Type 0 where
    pub after : Composing T
    pub first_left : List (DeltaOperation T)
    pub second_left : List (DeltaOperation T)
    pub added : List (DeltaOperation T)
    pub returns : compose_step s ≡ some (ok (running after))
    pub first_pending : Pending after.iter first_left
    pub second_pending : Pending after.other_iter second_left
    pub extends : Extends s.new_delta added after.new_delta
    pub shorter : suc (length first_left + length second_left) ≤ length first + length second
    pub composition :
        (ops : List (DeltaOperation T))
        → Composition first_left second_left ops
        → Composition first second (added ++ ops)

  module _ (s : Composing T) where
    advance_insert :
        (first : List (DeltaOperation T)) (op : DeltaOperation T) (rest : List (DeltaOperation T))
        → Pending s.iter first
        → Pending s.other_iter (op ∷ rest)
        → is_insert op ≡ true
        → Advance first (op ∷ rest) s
    advance_insert first op rest p q i =
        let (c, e, r) = next_op-whole s.other_iter op rest q in
        record {
          after = record s { other_iter = c; new_delta = add op s.new_delta };
          first_left = first;
          second_left = rest;
          added = op ∷ [];
          returns =
              step_insert s
                (ap (has_next s.iter ||◌) (has_next-cons s.other_iter op rest q) ∙ or_true _)
                (is_next_insert-cons s.other_iter op rest q ∙ i) e;
          first_pending = p;
          second_pending = r;
          extends = Extends-add op s.new_delta;
          shorter = omega arith;
          composition = inserted op i;
        }
      where
        inserted :
            (op : DeltaOperation T)
            → is_insert op ≡ true
            → (ops : List (DeltaOperation T)) → Composition first rest ops
            → Composition first (op ∷ rest) (op ∷ ops)
        inserted (insert t b) h ops k = Composition-insert t b k
        inserted (retain n b) h ops k = cc
        inserted (delete n) h ops k = cc

    advance_delete :
        (op : DeltaOperation T) (rest second : List (DeltaOperation T))
        → Pending s.iter (op ∷ rest)
        → Pending s.other_iter second
        → is_delete op ≡ true
        → is_next_insert s.other_iter ≡ false
        → Advance (op ∷ rest) second s
    advance_delete op rest second p q i h =
        let (c, e, r) = next_op-whole s.iter op rest p in
        record {
          after = record s { iter = c; new_delta = add op s.new_delta };
          first_left = rest;
          second_left = second;
          added = op ∷ [];
          returns =
              step_delete s (ap (◌|| has_next s.other_iter) (has_next-cons s.iter op rest p)) h
                (is_next_delete-cons s.iter op rest p ∙ i) e;
          first_pending = r;
          second_pending = q;
          extends = Extends-add op s.new_delta;
          shorter = omega arith;
          composition = deleted op i;
        }
      where
        deleted :
            (op : DeltaOperation T)
            → is_delete op ≡ true
            → (ops : List (DeltaOperation T)) → Composition rest second ops
            → Composition (op ∷ rest) second (op ∷ ops)
        deleted (delete n) h ops k = Composition-delete n k
        deleted (retain n b) h ops k = cc
        deleted (insert t b) h ops k = cc

    advance_both :
        ComposesAttributes T attrs
        → (op : DeltaOperation T) (ops : List (DeltaOperation T)) (other_op : DeltaOperation T)
          (others : List (DeltaOperation T))
        → Pending s.iter (op ∷ ops)
        → Pending s.other_iter (other_op ∷ others)
        → is_delete op ≡ false
        → is_insert other_op ≡ false
        → Advance (op ∷ ops) (other_op ∷ others) s
    advance_both total op ops other_op others p q h i =
        let k = min (len op) (len other_op) in
        let positive : 0 < k =
          omega (arith, len-positive op p.solid.0, len-positive other_op q.solid.0) in
        let x = take-Piece op ops k s.iter p positive (omega arith) in
        let y = take-Piece other_op others k s.other_iter q positive (omega arith) in
        let j =
          join_ops total s.new_delta (front k op) (front k other_op) x.left y.left
            (is_delete-front k op ∙ h) (is_insert-front k other_op ∙ i)
            (omega (arith, len-front k op p.solid.0, len-front k other_op q.solid.0)) in
        record {
          after = record { iter = x.after; other_iter = y.after; new_delta = j.joined };
          first_left = x.left;
          second_left = y.left;
          added = j.added;
          returns =
              step_both s (ap (◌|| has_next s.other_iter) (has_next-cons s.iter op ops p)) k
                (is_next_insert-cons s.other_iter other_op others q ∙ i)
                (is_next_delete-cons s.iter op ops p ∙ h)
                (ap₂ (λ a b. min (or_max a) (or_max b)) (next_op_len-some s.iter op ops p)
                  (next_op_len-some s.other_iter other_op others q))
                x.returns y.returns j.returns;
          first_pending = x.pending;
          second_pending = y.pending;
          extends = j.extends;
          shorter = one_is_whole x y;
          composition = λ out c. Composition-SameEffect x.same y.same (j.composition out c);
        }
      where
        one_is_whole :
            (let k = min (len op) (len other_op) in
              (x : Piece op ops k s.iter) (y : Piece other_op others k s.other_iter)
              → suc (length x.left + length y.left)
                ≤ length (op ∷ ops) + length (other_op ∷ others))
        one_is_whole x y = elim (compare-cases (len op) (len other_op)) [
          | less l _ ↦ omega (arith, x.whole (omega arith), y.at_most)
          | equal e _ ↦ omega (arith, x.whole (omega arith), y.at_most)
          | greater l _ ↦ omega (arith, x.at_most, y.whole (omega arith))
        ]

    advance_second :
        ComposesAttributes T attrs
        → (op : DeltaOperation T) (ops : List (DeltaOperation T)) → Pending s.iter []
        → Pending s.other_iter (op ∷ ops)
        → is_insert op ≡ false
        → Advance [] (op ∷ ops) s
    advance_second total op ops p q i =
        let (c, e, _, r) =
          next_op_with_len-front s.other_iter op ops q (len op) (len-positive op q.solid.0)
            (omega arith) in
        let j = join_second total s.new_delta op (len op) ops i refl in
        record {
          after = record { iter = s.iter; other_iter = c; new_delta = j.joined };
          first_left = [];
          second_left = ops;
          added = j.added;
          returns =
              step_both s
                (ap (has_next s.iter ||◌) (has_next-cons s.other_iter op ops q) ∙ or_true _)
                (len op) (is_next_insert-cons s.other_iter op ops q ∙ i)
                (is_next_delete-nil s.iter p)
                (ap₂ (λ a b. min (or_max a) (or_max b)) (next_op_len-none s.iter p)
                    (next_op_len-some s.other_iter op ops q)
                  ∙ omega (arith, fits_window s.other_iter op ops q))
                (next_op_with_len-exhausted s.iter p (len op))
                (e ∙ ap (λ o. some (some o, c)) (front_all (len op) op q.solid.0 refl)) j.returns;
          first_pending = p;
          second_pending = r refl;
          extends = j.extends;
          shorter = omega arith;
          composition = j.composition;
        }

    advance_first :
        ComposesAttributes T attrs
        → (op : DeltaOperation T) (ops : List (DeltaOperation T)) → Pending s.iter (op ∷ ops)
        → Pending s.other_iter []
        → is_delete op ≡ false
        → Advance (op ∷ ops) [] s
    advance_first total op ops p q h =
        let (c, e, _, r) =
          next_op_with_len-front s.iter op ops p (len op) (len-positive op p.solid.0)
            (omega arith) in
        let j = join_first total s.new_delta op (len op) ops h in
        record {
          after = record { iter = c; other_iter = s.other_iter; new_delta = j.joined };
          first_left = ops;
          second_left = [];
          added = j.added;
          returns =
              step_both s (ap (◌|| has_next s.other_iter) (has_next-cons s.iter op ops p)) (len op)
                (is_next_insert-nil s.other_iter q) (is_next_delete-cons s.iter op ops p ∙ h)
                (ap₂ (λ a b. min (or_max a) (or_max b)) (next_op_len-some s.iter op ops p)
                    (next_op_len-none s.other_iter q)
                  ∙ omega (arith, fits_window s.iter op ops p))
                (e ∙ ap (λ o. some (some o, c)) (front_all (len op) op p.solid.0 refl))
                (next_op_with_len-exhausted s.other_iter q (len op)) j.returns;
          first_pending = r refl;
          second_pending = q;
          extends = j.extends;
          shorter = omega arith;
          composition = j.composition;
        }

    -- As long as one of the deltas has an operation left, the round goes on.
    pub advance :
        ComposesAttributes T attrs
        → (first second : List (DeltaOperation T)) → Pending s.iter first
        → Pending s.other_iter second
        → 0 < length first + length second
        → Advance first second s
    advance total [] [] p q l = absurd (omega arith)
    advance total (op ∷ ops) [] p q l = elim (Bool-cases (is_delete op)) [
      | inl h ↦ advance_delete op ops [] p q h (is_next_insert-nil s.other_iter q)
      | inr h ↦ advance_first total op ops p q h
    ]
    advance total [] (other_op ∷ others) p q l = elim (Bool-cases (is_insert other_op)) [
      | inl i ↦ advance_insert [] other_op others p q i
      | inr i ↦ advance_second total other_op others p q i
    ]
    advance total (op ∷ ops) (other_op ∷ others) p q l = elim (Bool-cases (is_insert other_op)) [
      | inl i ↦ advance_insert (op ∷ ops) other_op others p q i
      | inr i ↦ elim (Bool-cases (is_delete op)) [
        | inl h ↦
            advance_delete op ops (other_op ∷ others) p q h
              (is_next_insert-cons s.other_iter other_op others q ∙ i)
        | inr h ↦ advance_both total op ops other_op others p q h i
      ]
    ]
