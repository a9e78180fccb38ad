-- ===== src/Interval/Laws.antt =====
-- What the operations on intervals mean for the offsets that they contain.
use app_flowy.Prelude.{ℕ, ◌+◌, ◌≤◌, ◌≡◌, true, ◌&&◌, ◌||◌, arith}
use app_flowy.Interval.{Interval, contains, intersect, prefix, suffix, translate_neg, union}

-- The intersection of any two intervals contains exactly the offsets that both contain.
contains-intersect :
    (a b : Interval) (v : ℕ) → contains (intersect a b) v ≡ (contains a v && contains b v)
unfolding contains intersect
contains-intersect a b v = ground arith

-- For an ordered interval inside another, an offset lies in the outer one exactly where it lies in
-- the prefix, in the inner one or in the suffix.
prefix-suffix_split :
    (iv other : Interval) (v : ℕ)
    → iv.start ≤ other.start
    → other.start ≤ other.end
    → other.end ≤ iv.end
    → contains iv v
      ≡ (contains (prefix iv other) v || contains other v || contains (suffix iv other) v)
unfolding contains prefix suffix
prefix-suffix_split iv other v h k l = ground arith

pub contains-translate_neg :
    (iv : Interval) (n v : ℕ) → n ≤ iv.start → contains (translate_neg iv n) v ≡ contains iv (v + n)
unfolding contains translate_neg
contains-translate_neg iv n v h = ground arith

-- The union contains what either interval contains.
contains-union :
    (a b : Interval) (v : ℕ) → (contains a v || contains b v) ≡ true → contains (union a b) v ≡ true
unfolding contains union
contains-union a b v h = ground arith
