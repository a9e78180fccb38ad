-- ===== src/Delta/Meaning.antt =====
-- What a list of operations does to a text, its lengths, and rewritings that keep both.
use app_flowy.Prelude.{
  ℕ, ◌+◌, ◌-◌, ◌≤◌, ◌≡◌, subst, refl, ap, ◌↔◌, ◌∙◌, Option, none, some, List, [], ◌∷◌, ◌++◌, All,
  All-append, option_list, ◌<◌, take, drop, drop-drop, take-add, on_last, on_last_two, append_assoc,
  arith,
}
use app_flowy.OtStr.{Text, utf16_len}
use app_flowy.OtStr.Units.{IsBmp, utf16_len-append}
use app_flowy.Delta.Operation.{DeltaOperation, delete, retain, insert}
use app_flowy.Delta.Ops.{DeltaOperations}

pub IsBmp-append : (s t : Text) → IsBmp (s ++ t) → IsBmp s × IsBmp t
IsBmp-append [] t h = (tt, h)
IsBmp-append (c ∷ s) t h = let (p, q) = IsBmp-append s t h.1 in ((h.0, p), q)

module _ {T : Type 0} where
  -- The text that the operations make of `s`; what they do not reach is dropped.
  unfoldable pub written : List (DeltaOperation T) → Text → Text
  written [] s = []
  written (delete n ∷ ops) s = written ops (drop n s)
  written (retain n a ∷ ops) s = take n s ++ written ops (drop n s)
  written (insert t a ∷ ops) s = t ++ written ops s

  -- The length of the texts that the operations are for, and of those that they make.
  unfoldable pub base_len : List (DeltaOperation T) → ℕ
  base_len [] = 0
  base_len (delete n ∷ ops) = n + base_len ops
  base_len (retain n a ∷ ops) = n + base_len ops
  base_len (insert t a ∷ ops) = base_len ops

  unfoldable pub target_len : List (DeltaOperation T) → ℕ
  target_len [] = 0
  target_len (delete n ∷ ops) = target_len ops
  target_len (retain n a ∷ ops) = n + target_len ops
  target_len (insert t a ∷ ops) = utf16_len t + target_len ops

  -- Every inserted character takes one code unit.
  unfoldable pub AllBmp : List (DeltaOperation T) → Type 0
  AllBmp [] = Unit
  AllBmp (delete n ∷ ops) = AllBmp ops
  AllBmp (retain n a ∷ ops) = AllBmp ops
  AllBmp (insert t a ∷ ops) = IsBmp t × AllBmp ops

  -- The lists do the same to every text and have the same lengths.
  pub record SameEffect (xs ys : List (DeltaOperation T)) : Type 0 where
    pub same_text : (s : Text) → written xs s ≡ written ys s
    pub same_base : base_len xs ≡ base_len ys
    pub same_target : target_len xs ≡ target_len ys
    pub same_bmp : AllBmp xs ↔ AllBmp ys

  pub SameEffect-refl : (xs : List (DeltaOperation T)) → SameEffect xs xs
  SameEffect-refl xs = record {
    same_text = λ s. refl;
    same_base = refl;
    same_target = refl;
    same_bmp = (λ h. h, λ h. h);
  }

  pub SameEffect-trans :
      {xs ys zs : List (DeltaOperation T)} → SameEffect xs ys → SameEffect ys zs → SameEffect xs zs
  SameEffect-trans p q = record {
    same_text = λ s. p.same_text s ∙ q.same_text s;
    same_base = p.same_base ∙ q.same_base;
    same_target = p.same_target ∙ q.same_target;
    same_bmp = (λ h. q.same_bmp.0 (p.same_bmp.0 h), λ h. p.same_bmp.1 (q.same_bmp.1 h));
  }

  pub SameEffect-cons :
      (x : DeltaOperation T) {xs ys : List (DeltaOperation T)}
      → SameEffect xs ys
      → SameEffect (x ∷ xs) (x ∷ ys)
  unfolding written base_len target_len AllBmp
  SameEffect-cons (delete n) p = record {
    same_text = λ s. p.same_text (drop n s);
    same_base = ap (n +◌) p.same_base;
    same_target = p.same_target;
    same_bmp = p.same_bmp;
  }
  SameEffect-cons (retain n a) p = record {
    same_text = λ s. ap (take n s ++◌) (p.same_text (drop n s));
    same_base = ap (n +◌) p.same_base;
    same_target = ap (n +◌) p.same_target;
    same_bmp = p.same_bmp;
  }
  SameEffect-cons (insert t a) p = record {
    same_text = λ s. ap (t ++◌) (p.same_text s);
    same_base = p.same_base;
    same_target = ap (utf16_len t +◌) p.same_target;
    same_bmp = (λ h. (h.0, p.same_bmp.0 h.1), λ h. (h.0, p.same_bmp.1 h.1));
  }

  pub written-append :
      (xs ys : List (DeltaOperation T)) (s : Text)
      → written (xs ++ ys) s ≡ written xs s ++ written ys (drop (base_len xs) s)
  unfolding written base_len
  written-append [] ys s = refl
  written-append (delete n ∷ xs) ys s = rw (← drop-drop) (written-append xs ys (drop n s))
  written-append (retain n a ∷ xs) ys s =
      rw (← drop-drop, append_assoc) (ap (take n s ++◌) (written-append xs ys (drop n s)))
  written-append (insert t a ∷ xs) ys s = rw append_assoc (ap (t ++◌) (written-append xs ys s))

  pub base_len-append :
      (xs ys : List (DeltaOperation T)) → base_len (xs ++ ys) ≡ base_len xs + base_len ys
  unfolding base_len
  base_len-append [] ys = omega arith
  base_len-append (delete n ∷ xs) ys = omega (arith, base_len-append xs ys)
  base_len-append (retain n a ∷ xs) ys = omega (arith, base_len-append xs ys)
  base_len-append (insert t a ∷ xs) ys = base_len-append xs ys

  pub target_len-append :
      (xs ys : List (DeltaOperation T)) → target_len (xs ++ ys) ≡ target_len xs + target_len ys
  unfolding target_len
  target_len-append [] ys = omega arith
  target_len-append (delete n ∷ xs) ys = target_len-append xs ys
  target_len-append (retain n a ∷ xs) ys = omega (arith, target_len-append xs ys)
  target_len-append (insert t a ∷ xs) ys = omega (arith, target_len-append xs ys)

  AllBmp-append : (xs ys : List (DeltaOperation T)) → AllBmp (xs ++ ys) ↔ (AllBmp xs × AllBmp ys)
  unfolding AllBmp
  AllBmp-append [] ys = (λ h. (tt, h), λ h. h.1)
  AllBmp-append (delete n ∷ xs) ys = AllBmp-append xs ys
  AllBmp-append (retain n a ∷ xs) ys = AllBmp-append xs ys
  AllBmp-append (insert t a ∷ xs) ys = (
    λ h. let (p, q) = (AllBmp-append xs ys).0 h.1 in ((h.0, p), q),
    λ h. (h.0.0, (AllBmp-append xs ys).1 (h.0.1, h.1)),
  )

  -- What follows two lists of the same effect does not tell them apart.
  pub SameEffect-append :
      {xs ys : List (DeltaOperation T)} (zs : List (DeltaOperation T))
      → SameEffect xs ys
      → SameEffect (xs ++ zs) (ys ++ zs)
  SameEffect-append {xs} {ys} zs p = record {
    same_text = λ s. rw (written-append xs, written-append ys, p.same_text s, p.same_base);
    same_base = omega (arith, base_len-append xs zs, base_len-append ys zs, p.same_base);
    same_target = omega (arith, target_len-append xs zs, target_len-append ys zs, p.same_target);
    same_bmp = (
      λ h. let (q, r) = (AllBmp-append xs zs).0 h in (AllBmp-append ys zs).1 (p.same_bmp.0 q, r),
      λ h. let (q, r) = (AllBmp-append ys zs).0 h in (AllBmp-append xs zs).1 (p.same_bmp.1 q, r),
    );
  }

  -- A rewrite of the end of a list that is related to appending is so on the whole list, for a
  -- relation that holds behind a common operation.
  module _ (R : List (DeltaOperation T) → List (DeltaOperation T) → Type 0)
      (cons : (x : DeltaOperation T) (xs ys : List (DeltaOperation T))
        → R xs ys
        → R (x ∷ xs) (x ∷ ys)) where
    pub on_last-related :
        (f : Option (DeltaOperation T) → List (DeltaOperation T)) (op : DeltaOperation T)
        → ((o : Option (DeltaOperation T)) → R (f o) (option_list o ++ op ∷ []))
        → (xs : List (DeltaOperation T)) → R (on_last f xs) (xs ++ op ∷ [])
    on_last-related f op h [] = h none
    on_last-related f op h (x ∷ []) = h (some x)
    on_last-related f op h (x ∷ y ∷ xs) = cons x _ _ (on_last-related f op h (y ∷ xs))

    pub on_last_two-related :
        (f : Option (DeltaOperation T) → Option (DeltaOperation T) → List (DeltaOperation T))
        (op : DeltaOperation T)
        → ((p o : Option (DeltaOperation T))
            → R (f p o) (option_list p ++ option_list o ++ op ∷ []))
        → (xs : List (DeltaOperation T)) → R (on_last_two f xs) (xs ++ op ∷ [])
    on_last_two-related f op h [] = h none none
    on_last_two-related f op h (x ∷ []) = h none (some x)
    on_last_two-related f op h (x ∷ y ∷ []) = h (some x) (some y)
    on_last_two-related f op h (x ∷ y ∷ z ∷ xs) =
        cons x _ _ (on_last_two-related f op h (y ∷ z ∷ xs))

    -- An operation that may be left out at the end.
    pub append-related :
        (op : DeltaOperation T)
        → R [] (op ∷ [])
        → (xs : List (DeltaOperation T)) → R xs (xs ++ op ∷ [])
    append-related op h [] = h
    append-related op h (x ∷ xs) = cons x _ _ (append-related op h xs)

  -- No deletion and no retention is of length 0.
  abbrev pub IsPositive : DeltaOperation T → Type 0
  IsPositive (delete n) = 0 < n
  IsPositive (retain n a) = 0 < n
  IsPositive (insert t a) = Unit

  -- The recorded lengths are those of the operations, and no deletion or retention is empty.
  pub record IsWellFormed (d : DeltaOperations T) : Type 0 where
    pub base : base_len d.ops ≡ d.utf16_base_len
    pub target : target_len d.ops ≡ d.utf16_target_len
    pub positive : All IsPositive d.ops

  -- Neighbours that can be joined, split or swapped.
  pub split_retain :
      (m n : ℕ) (a b c : T) (ops : List (DeltaOperation T))
      → SameEffect (retain (m + n) a ∷ ops) (retain m b ∷ retain n c ∷ ops)
  unfolding written base_len target_len AllBmp
  split_retain m n a b c ops = record {
    same_text = λ s. rw (take-add m n s, append_assoc, drop-drop);
    same_base = omega arith;
    same_target = omega arith;
    same_bmp = (λ h. h, λ h. h);
  }

  pub split_delete :
      (m n : ℕ) (ops : List (DeltaOperation T))
      → SameEffect (delete (m + n) ∷ ops) (delete m ∷ delete n ∷ ops)
  unfolding written base_len target_len AllBmp
  split_delete m n ops = record {
    same_text = λ s. rw drop-drop;
    same_base = omega arith;
    same_target = refl;
    same_bmp = (λ h. h, λ h. h);
  }

  pub split_insert :
      (s t : Text) (a b : T) (ops : List (DeltaOperation T))
      → SameEffect (insert (s ++ t) a ∷ ops) (insert s a ∷ insert t b ∷ ops)
  unfolding written base_len target_len AllBmp
  split_insert s t a b ops = record {
    same_text = λ u. append_assoc s t (written ops u);
    same_base = refl;
    same_target = omega (arith, utf16_len-append s t);
    same_bmp = (
      λ h. let (p, q) = IsBmp-append s t h.0 in (p, (q, h.1)),
      λ h. (All-append _ s t h.0 h.1.0, h.1.1),
    );
  }

  pub swap_insert_delete :
      (t : Text) (b : T) (n : ℕ) (ops : List (DeltaOperation T))
      → SameEffect (insert t b ∷ delete n ∷ ops) (delete n ∷ insert t b ∷ ops)
  unfolding written base_len target_len AllBmp
  swap_insert_delete t b n ops = record {
    same_text = λ u. refl;
    same_base = refl;
    same_target = refl;
    same_bmp = (λ h. h, λ h. h);
  }

  pub split_retain_at :
      (n m : ℕ) (a b c : T) (ops : List (DeltaOperation T))
      → n ≤ m
      → SameEffect (retain m a ∷ ops) (retain n b ∷ retain (m - n) c ∷ ops)
  split_retain_at n m a b c ops h =
      let e : n + (m - n) ≡ m = omega arith in
      subst (λ k. SameEffect (retain k a ∷ ops) (retain n b ∷ retain (m - n) c ∷ ops)) e
        (split_retain n (m - n) a b c ops)

  pub split_delete_at :
      (n m : ℕ) (ops : List (DeltaOperation T))
      → n ≤ m
      → SameEffect (delete m ∷ ops) (delete n ∷ delete (m - n) ∷ ops)
  split_delete_at n m ops h =
      let e : n + (m - n) ≡ m = omega arith in
      subst (λ k. SameEffect (delete k ∷ ops) (delete n ∷ delete (m - n) ∷ ops)) e
        (split_delete n (m - n) ops)
