-- ===== src/Delta/Invert.antt =====
-- `invert_str` of shared-lib/lib-ot/src/core/delta/ops.rs, against the inverse of a list of operations.
use app_flowy.Prelude.{
  ◌≤◌, ◌≡◌, refl, sym, ap, ◌∙◌, List, [], ◌∷◌, ◌++◌, take, drop, length, length-drop, take-all,
  take-add, drop-append_length, take-take_append, drop-take_append, arith,
}
use app_flowy.Errors.{ok, ◌>>=◌}
use app_flowy.OtStr.{Text, utf16_len}
use app_flowy.OtStr.Units.{IsBmp, utf16_len-length}
use app_flowy.Attributes.{OperationAttributes}
use app_flowy.Delta.Operation.{DeltaOperation, delete, retain, insert}
use app_flowy.Delta.Ops.{DeltaOperations, new, apply, invert_str_loop, invert_str}
use app_flowy.Delta.Meaning.{written, base_len, target_len, AllBmp, IsWellFormed, SameEffect}
use app_flowy.Delta.Extends.{
  Extends, Extends-nil, Extends-insert, Extends-retain, Extends-delete, Extends-trans,
  IsWellFormed-new,
}
use app_flowy.Delta.Apply.{apply-ok, length-written, IsBmp-written}

module _ {T : Type 0} ⦃attrs : OperationAttributes T⦄ where
  -- The operations that undo `ops` on `s`, before they are joined.
  inverse : List (DeltaOperation T) → Text → List (DeltaOperation T)
  inverse [] s = []
  inverse (delete n ∷ ops) s = insert (take n s) attrs.empty ∷ inverse ops (drop n s)
  inverse (retain n a ∷ ops) s = retain n attrs.empty ∷ inverse ops (drop n s)
  inverse (insert t a ∷ ops) s = delete (utf16_len t) ∷ inverse ops s

  invert_str_loop-Extends :
      (ops : List (DeltaOperation T)) (s : Text) (d : DeltaOperations T)
      → Extends d (inverse ops s) (invert_str_loop ops s d)
  unfolding invert_str_loop inverse
  invert_str_loop-Extends [] s d = Extends-nil d
  invert_str_loop-Extends (delete n ∷ ops) s d =
      Extends-trans (insert (take n s) attrs.empty ∷ []) _ (Extends-insert (take n s) attrs.empty d)
        (invert_str_loop-Extends ops (drop n s) _)
  invert_str_loop-Extends (retain n a ∷ ops) s d =
      Extends-trans (retain n attrs.empty ∷ []) _ (Extends-retain n attrs.empty d)
        (invert_str_loop-Extends ops (drop n s) _)
  invert_str_loop-Extends (insert t a ∷ ops) s d =
      Extends-trans (delete (utf16_len t) ∷ []) _ (Extends-delete (utf16_len t) d)
        (invert_str_loop-Extends ops s _)

  base_len-inverse :
      (ops : List (DeltaOperation T)) (s : Text) → base_len (inverse ops s) ≡ target_len ops
  unfolding inverse base_len target_len
  base_len-inverse [] s = refl
  base_len-inverse (delete n ∷ ops) s = base_len-inverse ops (drop n s)
  base_len-inverse (retain n a ∷ ops) s = omega (arith, base_len-inverse ops (drop n s))
  base_len-inverse (insert t a ∷ ops) s = omega (arith, base_len-inverse ops s)

  written-inverse :
      (ops : List (DeltaOperation T)) (s : Text)
      → AllBmp ops
      → base_len ops ≤ length s
      → written (inverse ops s) (written ops s) ≡ take (base_len ops) s
  unfolding inverse written base_len AllBmp
  written-inverse [] s h b = refl
  written-inverse (delete n ∷ ops) s h b =
      ap (take n s ++◌) (written-inverse ops (drop n s) h (omega (arith, length-drop n s)))
      ∙ sym (take-add n (base_len ops) s)
  written-inverse (retain n a ∷ ops) s h b =
      rw (take-take_append n s _ (omega arith), drop-take_append n s _ (omega arith))
        (ap (take n s ++◌) (written-inverse ops (drop n s) h (omega (arith, length-drop n s)))
          ∙ sym (take-add n (base_len ops) s))
  written-inverse (insert t a ∷ ops) s h b =
      rw (utf16_len-length t h.0, drop-append_length t) (written-inverse ops s h.1 b)

  -- For a well-formed delta and a text of its base length, with one code unit for each character
  -- of the text and of the insertions, the delta that `invert_str` makes is accepted on the
  -- changed text and gives the text back.
  pub apply-invert_str :
      (d : DeltaOperations T) (s : Text)
      → IsWellFormed d
      → AllBmp d.ops
      → IsBmp s
      → utf16_len s ≡ d.utf16_base_len
      → (apply d s >>= apply (invert_str d s)) ≡ ok s
  unfolding invert_str
  apply-invert_str d s c h b e =
      rw (apply-ok d s e) (undo (invert_str_loop-Extends d.ops s new).same)
    where
      n_eq : base_len d.ops ≡ length s
      n_eq = omega (arith, utf16_len-length s b, c.base)

      fits : utf16_len (written d.ops s) ≡ (invert_str_loop d.ops s new).utf16_base_len
      fits = omega (
        arith,
        utf16_len-length (written d.ops s) (IsBmp-written d.ops s h b),
        length-written d.ops s h (omega (arith, n_eq)),
        ((invert_str_loop-Extends d.ops s new).well_formed IsWellFormed-new).base,
        (invert_str_loop-Extends d.ops s new).same.same_base,
        base_len-inverse d.ops s,
      )

      undo :
          SameEffect (invert_str_loop d.ops s new).ops (inverse d.ops s)
          → apply (invert_str_loop d.ops s new) (written d.ops s) ≡ ok s
      undo same =
          apply-ok _ _ fits
          ∙ ap ok (
              same.same_text (written d.ops s)
              ∙ written-inverse d.ops s h (omega (arith, n_eq))
              ∙ take-all (base_len d.ops) s (omega (arith, n_eq)))
