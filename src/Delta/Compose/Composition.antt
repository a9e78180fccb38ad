-- ===== src/Delta/Compose/Composition.antt =====
-- A list of operations that does to every text what two lists do one behind the other.
use app_flowy.Prelude.{
  ℕ, ◌+◌, ◌-◌, ◌≤◌, ◌≡◌, refl, ap, List, [], ◌∷◌, ◌++◌, append_assoc, take, drop, drop-drop, length,
  length-drop, take-append_length, drop-append_length, take-take_append, drop-take_append, All,
  arith,
}
use app_flowy.OtStr.{Text, utf16_len}
use app_flowy.OtStr.Units.{utf16_len-length}
use app_flowy.Delta.Operation.{DeltaOperation, delete, retain, insert}
use app_flowy.Delta.Meaning.{written, base_len, target_len, AllBmp, SameEffect}
use app_flowy.Delta.Cursor.Pieces.{IsSolid}

module _ {T : Type 0} where
  -- The text that the operations make of `s`, with what they do not reach kept at its end.
  unfoldable pub output : List (DeltaOperation T) → Text → Text
  output [] s = s
  output (delete n ∷ ops) s = output ops (drop n s)
  output (retain n a ∷ ops) s = take n s ++ output ops (drop n s)
  output (insert t a ∷ ops) s = t ++ output ops s

  pub output-eq-written :
      (ops : List (DeltaOperation T)) (s : Text)
      → output ops s ≡ written ops s ++ drop (base_len ops) s
  unfolding output written base_len
  output-eq-written [] s = refl
  output-eq-written (delete n ∷ ops) s = rw (← drop-drop) (output-eq-written ops (drop n s))
  output-eq-written (retain n a ∷ ops) s =
      rw (← drop-drop, append_assoc) (ap (take n s ++◌) (output-eq-written ops (drop n s)))
  output-eq-written (insert t a ∷ ops) s = rw append_assoc (ap (t ++◌) (output-eq-written ops s))

  pub output-SameEffect :
      {xs ys : List (DeltaOperation T)} → SameEffect xs ys → (s : Text) → output xs s ≡ output ys s
  output-SameEffect {xs} {ys} p s =
      rw (output-eq-written xs s, output-eq-written ys s, p.same_text s, p.same_base)

  pub AllBmp-of_solid : (ops : List (DeltaOperation T)) → All IsSolid ops → AllBmp ops
  unfolding AllBmp
  AllBmp-of_solid [] h = tt
  AllBmp-of_solid (delete n ∷ ops) h = AllBmp-of_solid ops h.1
  AllBmp-of_solid (retain n a ∷ ops) h = AllBmp-of_solid ops h.1
  AllBmp-of_solid (insert t a ∷ ops) h = (h.0.1, AllBmp-of_solid ops h.1)

  -- `ops` is for the texts of `first`, longer where `second` reaches behind what `first` makes.
  pub record Composition (first second ops : List (DeltaOperation T)) : Type 0 where
    pub base : base_len ops ≡ base_len first + (base_len second - target_len first)
    pub target : target_len ops ≡ target_len second + (target_len first - base_len second)
    pub text :
        AllBmp first
        → AllBmp second
        → (s : Text) → base_len first ≤ length s
        → output ops s ≡ output second (output first s)
    pub bmp : AllBmp first → AllBmp second → AllBmp ops

  pub Composition-nil : Composition [] [] []
  unfolding base_len target_len AllBmp output
  Composition-nil = record { base = refl; target = refl; text = λ h k s l. refl; bmp = λ h k. tt }

  pub Composition-SameEffect :
      {first first' second second' ops : List (DeltaOperation T)}
      → SameEffect first first'
      → SameEffect second second'
      → Composition first' second' ops
      → Composition first second ops
  Composition-SameEffect {first} {first'} {second} {second'} p q c = record {
    base = omega (arith, c.base, p.same_base, p.same_target, q.same_base);
    target = omega (arith, c.target, p.same_target, q.same_target, q.same_base);
    text = λ h k s l.
        rw (output-SameEffect p s, output-SameEffect q (output first' s))
          (c.text (p.same_bmp.0 h) (q.same_bmp.0 k) s (omega (arith, p.same_base)));
    bmp = λ h k. c.bmp (p.same_bmp.0 h) (q.same_bmp.0 k);
  }

module _ {T : Type 0} {first second ops : List (DeltaOperation T)} where
  pub Composition-insert :
      (t : Text) (b : T)
      → Composition first second ops
      → Composition first (insert t b ∷ second) (insert t b ∷ ops)
  unfolding base_len target_len AllBmp output
  Composition-insert t b c = record {
    base = c.base;
    target = omega (arith, c.target);
    text = λ h k s l. ap (t ++◌) (c.text h k.1 s l);
    bmp = λ h k. (k.0, c.bmp h k.1);
  }

  pub Composition-delete :
      (n : ℕ)
      → Composition first second ops
      → Composition (delete n ∷ first) second (delete n ∷ ops)
  unfolding base_len target_len AllBmp output
  Composition-delete n c = record {
    base = omega (arith, c.base);
    target = c.target;
    text = λ h k s l. c.text h k (drop n s) (omega (arith, length-drop n s));
    bmp = c.bmp;
  }

  pub Composition-retain_retain :
      (n : ℕ) (a b e : T)
      → Composition first second ops
      → Composition (retain n a ∷ first) (retain n b ∷ second) (retain n e ∷ ops)
  unfolding base_len target_len AllBmp output
  Composition-retain_retain n a b e c = record {
    base = omega (arith, c.base);
    target = omega (arith, c.target);
    text = λ h k s l.
        rw
          (
            take-take_append n s (output first (drop n s)) (omega arith),
            drop-take_append n s (output first (drop n s)) (omega arith),
          )
          (ap (take n s ++◌) (c.text h k (drop n s) (omega (arith, length-drop n s))));
    bmp = c.bmp;
  }

  pub Composition-retain_delete :
      (n : ℕ) (a : T)
      → Composition first second ops
      → Composition (retain n a ∷ first) (delete n ∷ second) (delete n ∷ ops)
  unfolding base_len target_len AllBmp output
  Composition-retain_delete n a c = record {
    base = omega (arith, c.base);
    target = omega (arith, c.target);
    text = λ h k s l.
        rw (drop-take_append n s (output first (drop n s)) (omega arith))
          (c.text h k (drop n s) (omega (arith, length-drop n s)));
    bmp = c.bmp;
  }

  pub Composition-insert_retain :
      (t : Text) (n : ℕ) (a b e : T)
      → utf16_len t ≡ n
      → Composition first second ops
      → Composition (insert t a ∷ first) (retain n b ∷ second) (insert t e ∷ ops)
  unfolding base_len target_len AllBmp output
  Composition-insert_retain t n a b e q c = record {
    base = omega (arith, c.base);
    target = omega (arith, c.target);
    text = λ h k s l.
        rw (← q, utf16_len-length t h.0, take-append_length t, drop-append_length t)
          (ap (t ++◌) (c.text h.1 k s l));
    bmp = λ h k. (h.0, c.bmp h.1 k);
  }

  pub Composition-insert_delete :
      (t : Text) (n : ℕ) (a : T)
      → utf16_len t ≡ n
      → Composition first second ops
      → Composition (insert t a ∷ first) (delete n ∷ second) ops
  unfolding base_len target_len AllBmp output
  Composition-insert_delete t n a q c = record {
    base = omega (arith, c.base);
    target = omega (arith, c.target);
    text = λ h k s l. rw (← q, utf16_len-length t h.0, drop-append_length t) (c.text h.1 k s l);
    bmp = λ h k. c.bmp h.1 k;
  }

-- One of the lists is used up, and the other goes on alone.
module _ {T : Type 0} {rest ops : List (DeltaOperation T)} where
  pub Composition-insert_nil :
      (t : Text) (a e : T)
      → Composition rest [] ops
      → Composition (insert t a ∷ rest) [] (insert t e ∷ ops)
  unfolding base_len target_len AllBmp output
  Composition-insert_nil t a e c = record {
    base = omega (arith, c.base);
    target = omega (arith, c.target);
    text = λ h k s l. ap (t ++◌) (c.text h.1 k s l);
    bmp = λ h k. (h.0, c.bmp h.1 k);
  }

module _ {T : Type 0} {rest ops : List (DeltaOperation T)} (n : ℕ) where
  pub Composition-nil_retain :
      (b e : T) → Composition [] rest ops → Composition [] (retain n b ∷ rest) (retain n e ∷ ops)
  unfolding base_len target_len AllBmp output
  Composition-nil_retain b e c = record {
    base = omega (arith, c.base);
    target = omega (arith, c.target);
    text = λ h k s l. ap (take n s ++◌) (c.text h k (drop n s) (omega arith));
    bmp = c.bmp;
  }

  pub Composition-nil_delete :
      Composition [] rest ops → Composition [] (delete n ∷ rest) (delete n ∷ ops)
  unfolding base_len target_len AllBmp output
  Composition-nil_delete c = record {
    base = omega (arith, c.base);
    target = omega (arith, c.target);
    text = λ h k s l. c.text h k (drop n s) (omega arith);
    bmp = c.bmp;
  }

  pub Composition-retain_nil :
      (a e : T) → Composition rest [] ops → Composition (retain n a ∷ rest) [] (retain n e ∷ ops)
  unfolding base_len target_len AllBmp output
  Composition-retain_nil a e c = record {
    base = omega (arith, c.base);
    target = omega (arith, c.target);
    text = λ h k s l. ap (take n s ++◌) (c.text h k (drop n s) (omega (arith, length-drop n s)));
    bmp = c.bmp;
  }
