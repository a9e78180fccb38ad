-- ===== src/Delta/Compose/Content.antt =====
-- `compose` of shared-lib/lib-ot/src/core/delta/ops.rs as a whole: its loop, and the texts it makes.
use app_flowy.Prelude.{
  ℕ, zero, suc, ◌+◌, ◌≤◌, ◌<◌, ◌≡◌, ◌≢◌, refl, sym, ap, ◌∙◌, Option, some, List, [], ◌∷◌, ◌++◌,
  append-nil, length, All, drop-all, ◌==◌, Bool-cases, inl, inr, arith,
}
use app_flowy.Errors.{Result, ok, ◌>>=◌}
use app_flowy.OtStr.{Text, utf16_len}
use app_flowy.OtStr.Units.{IsBmp, utf16_len-length}
use app_flowy.Attributes.{OperationAttributes}
use app_flowy.Delta.Operation.{DeltaOperation}
use app_flowy.Delta.Ops.{DeltaOperations, new, apply}
use app_flowy.Delta.Meaning.{written, base_len, AllBmp, IsWellFormed}
use app_flowy.Delta.Extends.{Extends, Extends-nil, Extends-trans, IsWellFormed-new}
use app_flowy.Delta.Apply.{apply-ok, apply-err, length-written, IsBmp-written}
use app_flowy.Delta.Cursor.{max_iv_len, new_iterator}
use app_flowy.Delta.Cursor.Pieces.{IsSolid}
use app_flowy.Delta.Cursor.Pending.{Pending, total_len, new_iterator-Pending}
use app_flowy.Delta.Compose.{Composing, finished, compose_step, compose_loop, compose}
use app_flowy.Delta.Compose.Joined.{ComposesAttributes}
use app_flowy.Delta.Compose.Advance.{Advance, advance}
use app_flowy.Delta.Compose.Next.{has_next-nil}
use app_flowy.Delta.Compose.Composition.{
  Composition, Composition-nil, AllBmp-of_solid, output, output-eq-written,
}

module _ {T : Type 0} ⦃attrs : OperationAttributes T⦄ where
  -- The loop ends, and what it added to `d` composes the operations that were left.
  record Composed (first second : List (DeltaOperation T)) (d : DeltaOperations T)
      (result : Option (Result (DeltaOperations T))) : Type 0 where
    composed : DeltaOperations T
    ops : List (DeltaOperation T)
    returns : result ≡ some (ok composed)
    extends : Extends d ops composed
    composition : Composition first second ops

  step_finished :
      (s : Composing T)
      → Pending s.iter []
      → Pending s.other_iter []
      → compose_step s ≡ some (ok (finished s.new_delta))
  unfolding compose_step
  step_finished s p q = rw (compose_step, has_next-nil s.iter p, has_next-nil s.other_iter q) refl

  loop_finished :
      (rounds : ℕ) (s : Composing T)
      → compose_step s ≡ some (ok (finished s.new_delta))
      → compose_loop (suc rounds) s ≡ some (ok s.new_delta)
  unfolding compose_loop
  loop_finished rounds s e = rw (compose_loop, e) refl

  loop_on :
      {first second : List (DeltaOperation T)} (rounds : ℕ) (s : Composing T)
      (x : Advance first second s)
      → Composed x.first_left x.second_left x.after.new_delta (compose_loop rounds x.after)
      → Composed first second s.new_delta (compose_loop (suc rounds) s)
  unfolding compose_loop
  loop_on rounds s x c = record {
    composed = c.composed;
    ops = x.added ++ c.ops;
    returns = rw (compose_loop, x.returns) c.returns;
    extends = Extends-trans x.added c.ops x.extends c.extends;
    composition = x.composition c.ops c.composition;
  }

  -- A round for each operation that is left, and one for the last test, are enough.
  loop-Composed :
      ComposesAttributes T attrs
      → (rounds : ℕ) (first second : List (DeltaOperation T)) (s : Composing T)
      → Pending s.iter first
      → Pending s.other_iter second
      → length first + length second < rounds
      → Composed first second s.new_delta (compose_loop rounds s)
  loop-Composed total zero first second s p q l = absurd (omega arith)
  loop-Composed total (suc rounds) [] [] s p q l = record {
    composed = s.new_delta;
    ops = [];
    returns = loop_finished rounds s (step_finished s p q);
    extends = Extends-nil s.new_delta;
    composition = Composition-nil;
  }
  loop-Composed total (suc rounds) (op ∷ ops) second s p q l =
      let x = advance s total (op ∷ ops) second p q (omega arith) in
      loop_on rounds s x (
        loop-Composed total rounds x.first_left x.second_left x.after x.first_pending
          x.second_pending (omega (arith, x.shorter)))
  loop-Composed total (suc rounds) [] (op ∷ ops) s p q l =
      let x = advance s total [] (op ∷ ops) p q (omega arith) in
      loop_on rounds s x (
        loop-Composed total rounds x.first_left x.second_left x.after x.first_pending
          x.second_pending (omega (arith, x.shorter)))

  module _ (a b : DeltaOperations T) (wa : IsWellFormed a) (wb : IsWellFormed b)
      (sa : All IsSolid a.ops) (sb : All IsSolid b.ops) (ba : total_len a.ops ≤ max_iv_len)
      (bb : total_len b.ops ≤ max_iv_len) where
    compose-Composed : ComposesAttributes T attrs → Composed a.ops b.ops new (compose a b)
    unfolding compose
    compose-Composed total =
        loop-Composed total (length a.ops + length b.ops + 1) a.ops b.ops
          (record { iter = new_iterator a; other_iter = new_iterator b; new_delta = new })
          (new_iterator-Pending a sa ba) (new_iterator-Pending b sb bb) (omega arith)

    Composed-base :
        (c : Composed a.ops b.ops new (compose a b))
        → a.utf16_target_len ≡ b.utf16_base_len
        → c.composed.utf16_base_len ≡ a.utf16_base_len
    Composed-base c e = omega (
      arith,
      (c.extends.well_formed IsWellFormed-new).base,
      c.extends.same.same_base,
      c.composition.base,
      wa.base,
      wa.target,
      wb.base,
    )

    -- On a text of the base length the operations leave nothing over.
    written-Composed :
        (c : Composed a.ops b.ops new (compose a b)) (s : Text)
        → a.utf16_target_len ≡ b.utf16_base_len
        → IsBmp s
        → utf16_len s ≡ a.utf16_base_len
        → written c.composed.ops s ≡ written b.ops (written a.ops s)
    written-Composed c s e h l =
        c.extends.same.same_text s
        ∙ exact_output c.ops s
            (omega (arith, utf16_len-length s h, c.composition.base, wa.base, wa.target, wb.base))
        ∙ c.composition.text ha hb s (omega (arith, n))
        ∙ ap (output b.ops) (sym (exact_output a.ops s (omega (arith, n))))
        ∙ sym (
            exact_output b.ops (written a.ops s)
              (omega (arith, length-written a.ops s ha (omega (arith, n)), wb.base, wa.target)))
      where
        ha : AllBmp a.ops
        ha = AllBmp-of_solid a.ops sa

        hb : AllBmp b.ops
        hb = AllBmp-of_solid b.ops sb

        n : base_len a.ops ≡ length s
        n = omega (arith, utf16_len-length s h, wa.base)

        exact_output :
            (ops : List (DeltaOperation T)) (t : Text)
            → base_len ops ≡ length t
            → written ops t ≡ output ops t
        exact_output ops t k = sym (
            output-eq-written ops t
            ∙ ap (written ops t ++◌) (drop-all _ t (omega arith))
            ∙ append-nil _)

    -- The composed delta, with its lengths and its texts.
    pub record Composes (c : DeltaOperations T) : Type 0 where
      pub returns : compose a b ≡ some (ok c)
      pub well_formed : IsWellFormed c
      pub base : c.utf16_base_len ≡ a.utf16_base_len
      pub bmp : AllBmp c.ops
      pub text :
          (s : Text)
          → IsBmp s
          → utf16_len s ≡ a.utf16_base_len
          → written c.ops s ≡ written b.ops (written a.ops s)

    pub compose-Composes :
        ComposesAttributes T attrs
        → a.utf16_target_len ≡ b.utf16_base_len
        → (c : DeltaOperations T) × Composes c
    unfolding AllBmp
    compose-Composes total e =
        let c = compose-Composed total in
        (
          c.composed,
          record {
            returns = c.returns;
            well_formed = c.extends.well_formed IsWellFormed-new;
            base = Composed-base c e;
            bmp =
                c.extends.same.same_bmp.1
                  (c.composition.bmp (AllBmp-of_solid a.ops sa) (AllBmp-of_solid b.ops sb));
            text = λ s h l. written-Composed c s e h l;
          },
        )

    -- Two well-formed deltas of non-empty operations, whose insertions take one code unit for each
    -- character, whose operations reach at most 2 ^ 31 - 1 units far and whose attributes can be composed,
    -- the second for the length that the first one makes: `compose` returns a well-formed delta, and
    -- on every text of one-unit characters applying it gives what applying the first delta and then
    -- the second gives, the refusal of a text of another length included.
    pub compose-apply :
        ComposesAttributes T attrs
        → a.utf16_target_len ≡ b.utf16_base_len
        → (s : Text) → IsBmp s
        → (c : DeltaOperations T) × (compose a b ≡ some (ok c))
          × IsWellFormed c
          × (apply c s ≡ (apply a s >>= apply b))
    compose-apply total e s h =
        let c = compose-Composed total in
        (c.composed, c.returns, c.extends.well_formed IsWellFormed-new, both c s h)
      where
        both :
            (c : Composed a.ops b.ops new (compose a b)) (s : Text)
            → IsBmp s
            → apply c.composed s ≡ (apply a s >>= apply b)
        both c s h = elim (Bool-cases (utf16_len s == a.utf16_base_len)) [
          | inl same ↦
              let l : utf16_len s ≡ a.utf16_base_len = ground arith in
              let n : base_len a.ops ≡ length s = omega (arith, utf16_len-length s h, wa.base) in
              rw
                (
                  apply-ok c.composed s (l ∙ sym (Composed-base c e)),
                  apply-ok a s l,
                  apply-ok b (written a.ops s) (
                      omega (
                        arith,
                        utf16_len-length _ (IsBmp-written a.ops s (AllBmp-of_solid a.ops sa) h),
                        length-written a.ops s (AllBmp-of_solid a.ops sa) (omega (arith, n)),
                        wa.target,
                      )),
                )
                (ap ok (written-Composed c s e h l))
          | inr other ↦
              let l : utf16_len s ≢ a.utf16_base_len = ground arith in
              rw (apply-err c.composed s (λ q. l (q ∙ Composed-base c e)), apply-err a s l) refl
        ]
