-- ===== src/Delta/Cursor/Pieces.antt =====
-- The two pieces of an operation that is cut at a length, and `shrink` as the way to get them.
use app_flowy.Prelude.{
  ℕ, ◌+◌, ◌-◌, ◌≤◌, ◌<◌, ◌≡◌, refl, ap, ◌∙◌, min, false, none, some, List, [], ◌∷◌, take, drop,
  length, length-take, length-drop, take-all, take-append-drop, is_nil, All-take, All-drop, subst,
  arith, ltb, if◌then◌else◌,
}
use app_flowy.Interval
use app_flowy.Interval.{Interval, interval}
use app_flowy.OtStr.{Text, utf16_len, sub_str, or_empty}
use app_flowy.OtStr.Units.{IsBmp, utf16_len-length, sub_str-slice}
use app_flowy.Attributes.{OperationAttributes}
use app_flowy.Delta.Operation.{DeltaOperation, delete, retain, insert, len, narrow, shrink}
use app_flowy.Delta.Meaning.{SameEffect, split_retain_at, split_delete_at, split_insert}

module _ {T : Type 0} where
  -- The first `k` units of an operation.
  unfoldable pub front : ℕ → DeltaOperation T → DeltaOperation T
  front k (delete n) = delete (min k n)
  front k (retain n a) = retain (min k n) a
  front k (insert s a) = insert (take k s) a

  -- What is left behind them.
  unfoldable pub back : ℕ → DeltaOperation T → DeltaOperation T
  back k (delete n) = delete (n - k)
  back k (retain n a) = retain (n - k) a
  back k (insert s a) = insert (drop k s) a

  -- The operation has a length, and one unit for each character.
  abbrev pub IsSolid : DeltaOperation T → Type 0
  IsSolid (delete n) = 0 < n
  IsSolid (retain n a) = 0 < n
  IsSolid (insert s a) = (0 < length s) × IsBmp s

  pub len-positive : (op : DeltaOperation T) → IsSolid op → 0 < len op
  unfolding len
  len-positive (delete n) h = h
  len-positive (retain n a) h = h
  len-positive (insert s a) h = omega (arith, utf16_len-length s h.1)

  pub len-front : (k : ℕ) (op : DeltaOperation T) → IsSolid op → len (front k op) ≡ min k (len op)
  unfolding len front
  len-front k (delete n) h = refl
  len-front k (retain n a) h = refl
  len-front k (insert s a) h = omega (
    arith,
    utf16_len-length s h.1,
    utf16_len-length (take k s) (All-take _ k s h.1),
    length-take k s,
  )

  pub len-back : (k : ℕ) (op : DeltaOperation T) → IsSolid op → len (back k op) ≡ len op - k
  unfolding len back
  len-back k (delete n) h = refl
  len-back k (retain n a) h = refl
  len-back k (insert s a) h = omega (
    arith,
    utf16_len-length s h.1,
    utf16_len-length (drop k s) (All-drop _ k s h.1),
    length-drop k s,
  )

  pub back-IsSolid : (k : ℕ) (op : DeltaOperation T) → IsSolid op → k < len op → IsSolid (back k op)
  unfolding len back
  back-IsSolid k (delete n) h l = omega arith
  back-IsSolid k (retain n a) h l = omega arith
  back-IsSolid k (insert s a) h l =
      (omega (arith, utf16_len-length s h.1, length-drop k s), All-drop _ k s h.1)

  pub front_all : (k : ℕ) (op : DeltaOperation T) → IsSolid op → k ≡ len op → front k op ≡ op
  unfolding len front
  front_all k (delete n) h e = ap delete (omega arith)
  front_all k (retain n a) h e = ap (λ m. retain m a) (omega arith)
  front_all k (insert s a) h e =
      ap (λ t. insert t a) (take-all k s (omega (arith, utf16_len-length s h.1)))

  -- An operation has the effect of its two pieces.
  pub pieces-SameEffect :
      (k : ℕ) (op : DeltaOperation T) (ops : List (DeltaOperation T))
      → IsSolid op
      → k ≤ len op
      → SameEffect (op ∷ ops) (front k op ∷ back k op ∷ ops)
  unfolding len front back
  pieces-SameEffect k (delete n) ops h l =
      let e : min k n ≡ k = omega arith in rw e (split_delete_at k n ops l)
  pieces-SameEffect k (retain n a) ops h l =
      let e : min k n ≡ k = omega arith in rw e (split_retain_at k n a a a ops l)
  pieces-SameEffect k (insert s a) ops h l =
      subst (λ t. SameEffect (insert t a ∷ ops) (insert (take k s) a ∷ insert (drop k s) a ∷ ops))
        (take-append-drop k s) (split_insert (take k s) (drop k s) a a ops)

not_ltb : (a b : ℕ) → b ≤ a → ltb a b ≡ false
not_ltb a b h = ground arith

or_empty-slice :
    (s : Text) (a k e : ℕ)
    → IsBmp s
    → e ≡ a + k
    → or_empty (sub_str s (interval a e)) ≡ take k (drop a s)
or_empty-slice s a k e h p = rw (p, sub_str-slice s a k h) (is_nil-or_empty (take k (drop a s)))
  where
    is_nil-or_empty : (t : Text) → or_empty (if is_nil t then none else some t) ≡ t
    is_nil-or_empty [] = refl
    is_nil-or_empty (c ∷ t) = refl

module _ {T : Type 0} ⦃attrs : OperationAttributes T⦄ where
  -- An operation of positive length survives the test at the end of `shrink`.
  shrink-narrow :
      (op : DeltaOperation T) (iv : Interval)
      → 0 < len (narrow op iv)
      → shrink op iv ≡ some (narrow op iv)
  unfolding shrink app_flowy.Delta.Operation.is_empty
  shrink-narrow op iv h = ground arith

  narrow-front :
      (k : ℕ) (op : DeltaOperation T) → IsSolid op → narrow op (interval 0 k) ≡ front k op
  unfolding narrow front Interval.size
  narrow-front k (delete n) h = ap delete (omega arith)
  narrow-front k (retain n a) h = ap (λ m. retain m a) (omega arith)
  narrow-front k (insert s a) h =
      rw (not_ltb (utf16_len s) 0 (omega arith))
        (ap (λ t. insert t a) (or_empty-slice s 0 k k h.1 (omega arith)))

  narrow-back :
      (k : ℕ) (op : DeltaOperation T)
      → IsSolid op
      → k ≤ len op
      → narrow op (interval k (len op)) ≡ back k op
  unfolding narrow back len Interval.size
  narrow-back k (delete n) h l = ap delete (omega arith)
  narrow-back k (retain n a) h l = ap (λ m. retain m a) (omega arith)
  narrow-back k (insert s a) h l = rw (not_ltb (utf16_len s) k l) (
      ap (λ t. insert t a)
        (or_empty-slice s k (utf16_len s - k) (utf16_len s) h.1 (omega arith)
          ∙ take-all _ (drop k s) (omega (arith, length-drop k s, utf16_len-length s h.1))))

  pub shrink-front :
      (k : ℕ) (op : DeltaOperation T)
      → IsSolid op
      → 0 < k
      → shrink op (interval 0 k) ≡ some (front k op)
  shrink-front k op h p =
      shrink-narrow op (interval 0 k)
        (rw (narrow-front k op h) (omega (arith, len-front k op h, len-positive op h)))
      ∙ ap some (narrow-front k op h)

  pub shrink-back :
      (k : ℕ) (op : DeltaOperation T)
      → IsSolid op
      → k < len op
      → shrink op (interval k (len op)) ≡ some (back k op)
  shrink-back k op h l =
      shrink-narrow op (interval k (len op))
        (rw (narrow-back k op h (omega arith)) (omega (arith, len-back k op h)))
      ∙ ap some (narrow-back k op h (omega arith))
