-- ===== src/Delta/Transform/Diamond.antt =====
-- Two lists of operations on one text and their transformed counterparts, step by step.
use app_flowy.Prelude.{
  ℕ, ◌≤◌, ◌≡◌, refl, ap, List, [], ◌∷◌, ◌++◌, take, drop, length, length-drop, take-append_length,
  drop-append_length, take-take_append, drop-take_append, arith,
}
use app_flowy.OtStr.{Text, utf16_len}
use app_flowy.OtStr.Units.{utf16_len-length}
use app_flowy.Delta.Operation.{DeltaOperation, delete, retain, insert}
use app_flowy.Delta.Meaning.{written, base_len, target_len, AllBmp, SameEffect}

module _ {T : Type 0} where
  -- `b` behind `ops1` makes of a text what `a` behind `ops2` makes of it.
  pub record Diamond (ops1 ops2 a b : List (DeltaOperation T)) : Type 0 where
    pub base_a : base_len a ≡ target_len ops2
    pub base_b : base_len b ≡ target_len ops1
    pub targets : target_len a ≡ target_len b
    pub bmp : AllBmp ops1 → AllBmp ops2 → AllBmp a × AllBmp b
    pub converge :
        AllBmp ops1
        → AllBmp ops2
        → (s : Text) → base_len ops1 ≤ length s
        → base_len ops2 ≤ length s
        → written b (written ops1 s) ≡ written a (written ops2 s)

  pub Diamond-nil : Diamond [] [] [] []
  unfolding base_len target_len AllBmp written
  Diamond-nil = record {
    base_a = refl;
    base_b = refl;
    targets = refl;
    bmp = λ h k. (tt, tt);
    converge = λ h k s l m. refl;
  }

module _ {T : Type 0} {ops1 ops2 a b : List (DeltaOperation T)} where
  pub Diamond-left_insert :
      (t : Text) (x y z : T)
      → Diamond ops1 ops2 a b
      → Diamond (insert t x ∷ ops1) ops2 (insert t y ∷ a) (retain (utf16_len t) z ∷ b)
  unfolding written base_len target_len AllBmp
  Diamond-left_insert t x y z d = record {
    base_a = d.base_a;
    base_b = omega (arith, d.base_b);
    targets = omega (arith, d.targets);
    bmp = λ h k. let (p, q) = d.bmp h.1 k in ((h.0, p), q);
    converge = λ h k s l m.
        rw (utf16_len-length t h.0, take-append_length t, drop-append_length t)
          (ap (t ++◌) (d.converge h.1 k s l m));
  }

  pub Diamond-right_insert :
      (t : Text) (x y z : T)
      → Diamond ops1 ops2 a b
      → Diamond ops1 (insert t x ∷ ops2) (retain (utf16_len t) z ∷ a) (insert t y ∷ b)
  unfolding written base_len target_len AllBmp
  Diamond-right_insert t x y z d = record {
    base_a = omega (arith, d.base_a);
    base_b = d.base_b;
    targets = omega (arith, d.targets);
    bmp = λ h k. let (p, q) = d.bmp h k.1 in (p, (k.0, q));
    converge = λ h k s l m.
        rw (utf16_len-length t k.0, take-append_length t, drop-append_length t)
          (ap (t ++◌) (d.converge h k.1 s l m));
  }

  module _ (n : ℕ) where
    pub Diamond-both_retain :
        (x y c e : T)
        → Diamond ops1 ops2 a b
        → Diamond (retain n x ∷ ops1) (retain n y ∷ ops2) (retain n c ∷ a) (retain n e ∷ b)
    unfolding written base_len target_len AllBmp
    Diamond-both_retain x y c e d = record {
      base_a = omega (arith, d.base_a);
      base_b = omega (arith, d.base_b);
      targets = omega (arith, d.targets);
      bmp = d.bmp;
      converge = λ h k s l m.
          rw
            (
              take-take_append n s (written ops1 (drop n s)) (omega arith),
              drop-take_append n s (written ops1 (drop n s)) (omega arith),
              take-take_append n s (written ops2 (drop n s)) (omega arith),
              drop-take_append n s (written ops2 (drop n s)) (omega arith),
            )
            (ap (take n s ++◌) (
              d.converge h k (drop n s) (omega (arith, length-drop n s))
                (omega (arith, length-drop n s))));
    }

    pub Diamond-both_delete :
        Diamond ops1 ops2 a b → Diamond (delete n ∷ ops1) (delete n ∷ ops2) a b
    unfolding written base_len target_len AllBmp
    Diamond-both_delete d = record {
      base_a = d.base_a;
      base_b = d.base_b;
      targets = d.targets;
      bmp = d.bmp;
      converge = λ h k s l m.
          d.converge h k (drop n s) (omega (arith, length-drop n s))
            (omega (arith, length-drop n s));
    }

    pub Diamond-left_delete :
        (y : T)
        → Diamond ops1 ops2 a b
        → Diamond (delete n ∷ ops1) (retain n y ∷ ops2) (delete n ∷ a) b
    unfolding written base_len target_len AllBmp
    Diamond-left_delete y d = record {
      base_a = omega (arith, d.base_a);
      base_b = d.base_b;
      targets = d.targets;
      bmp = d.bmp;
      converge = λ h k s l m. rw (drop-take_append n s (written ops2 (drop n s)) (omega arith)) (
          d.converge h k (drop n s) (omega (arith, length-drop n s))
            (omega (arith, length-drop n s)));
    }

    pub Diamond-right_delete :
        (x : T)
        → Diamond ops1 ops2 a b
        → Diamond (retain n x ∷ ops1) (delete n ∷ ops2) a (delete n ∷ b)
    unfolding written base_len target_len AllBmp
    Diamond-right_delete x d = record {
      base_a = d.base_a;
      base_b = omega (arith, d.base_b);
      targets = d.targets;
      bmp = d.bmp;
      converge = λ h k s l m. rw (drop-take_append n s (written ops1 (drop n s)) (omega arith)) (
          d.converge h k (drop n s) (omega (arith, length-drop n s))
            (omega (arith, length-drop n s)));
    }

  -- The lists that are transformed may be given in another shape.
  pub Diamond-SameEffect :
      {ops1' ops2' : List (DeltaOperation T)}
      → SameEffect ops1' ops1
      → SameEffect ops2' ops2
      → Diamond ops1 ops2 a b
      → Diamond ops1' ops2' a b
  Diamond-SameEffect p q d = record {
    base_a = omega (arith, d.base_a, q.same_target);
    base_b = omega (arith, d.base_b, p.same_target);
    targets = d.targets;
    bmp = λ h k. d.bmp (p.same_bmp.0 h) (q.same_bmp.0 k);
    converge = λ h k s l m.
        rw (p.same_text s, q.same_text s)
          (d.converge (p.same_bmp.0 h) (q.same_bmp.0 k) s (omega (arith, p.same_base))
            (omega (arith, q.same_base)));
  }
