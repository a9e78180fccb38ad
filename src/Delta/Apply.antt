-- ===== src/Delta/Apply.antt =====
-- `apply` of shared-lib/lib-ot/src/core/delta/ops.rs, against the meaning of the operations.
use app_flowy.Prelude.{
  ◌≤◌, ◌≡◌, ◌≢◌, refl, sym, ◌∙◌, List, [], ◌∷◌, ◌++◌, append_assoc, append-nil, take, drop, length,
  length-drop, length-append, length-take, All-take, All-drop, All-append, arith,
}
use app_flowy.Errors.{ok, err, incompatible_length}
use app_flowy.OtStr.{Text, utf16_len}
use app_flowy.OtStr.Units.{IsBmp, utf16_len-length}
use app_flowy.Delta.Operation.{DeltaOperation, delete, retain, insert}
use app_flowy.Delta.Ops.{DeltaOperations, apply_loop, apply}
use app_flowy.Delta.Meaning.{written, base_len, target_len, AllBmp, IsWellFormed}

module _ {T : Type 0} where
  apply_loop-eq-written :
      (ops : List (DeltaOperation T)) (rest new_s : Text)
      → apply_loop ops rest new_s ≡ new_s ++ written ops rest
  unfolding apply_loop written
  apply_loop-eq-written [] rest new_s = sym (append-nil new_s)
  apply_loop-eq-written (delete n ∷ ops) rest new_s = apply_loop-eq-written ops (drop n rest) new_s
  apply_loop-eq-written (retain n a ∷ ops) rest new_s =
      apply_loop-eq-written ops (drop n rest) (new_s ++ take n rest) ∙ append_assoc new_s _ _
  apply_loop-eq-written (insert s a ∷ ops) rest new_s =
      apply_loop-eq-written ops rest (new_s ++ s) ∙ append_assoc new_s s _

  pub apply-ok :
      (d : DeltaOperations T) (s : Text)
      → utf16_len s ≡ d.utf16_base_len
      → apply d s ≡ ok (written d.ops s)
  unfolding apply
  apply-ok d s h = ground (arith, apply_loop-eq-written d.ops s [])

  pub apply-err :
      (d : DeltaOperations T) (s : Text)
      → utf16_len s ≢ d.utf16_base_len
      → apply d s ≡ err incompatible_length
  unfolding apply
  apply-err d s h = ground arith

  pub IsBmp-written :
      (ops : List (DeltaOperation T)) (s : Text) → AllBmp ops → IsBmp s → IsBmp (written ops s)
  unfolding written AllBmp
  IsBmp-written [] s h b = tt
  IsBmp-written (delete n ∷ ops) s h b = IsBmp-written ops (drop n s) h (All-drop _ n s b)
  IsBmp-written (retain n a ∷ ops) s h b =
      All-append _ (take n s) _ (All-take _ n s b)
        (IsBmp-written ops (drop n s) h (All-drop _ n s b))
  IsBmp-written (insert t a ∷ ops) s h b = All-append _ t _ h.0 (IsBmp-written ops s h.1 b)

  pub length-written :
      (ops : List (DeltaOperation T)) (s : Text)
      → AllBmp ops
      → base_len ops ≤ length s
      → length (written ops s) ≡ target_len ops
  unfolding written AllBmp base_len target_len
  length-written [] s h b = refl
  length-written (delete n ∷ ops) s h b =
      length-written ops (drop n s) h (omega (arith, length-drop n s))
  length-written (retain n a ∷ ops) s h b = omega (
    arith,
    length-append (take n s) (written ops (drop n s)),
    length-take n s,
    length-written ops (drop n s) h (omega (arith, length-drop n s)),
  )
  length-written (insert t a ∷ ops) s h b =
      omega
        (arith, length-append t (written ops s), utf16_len-length t h.0, length-written ops s h.1 b)

  -- A well-formed delta whose insertions are of one-unit characters is accepted on a text of such
  -- characters of its base length, and gives a text of such characters of its recorded target
  -- length.
  pub apply-target_len :
      (d : DeltaOperations T) (s : Text)
      → IsWellFormed d
      → AllBmp d.ops
      → IsBmp s
      → utf16_len s ≡ d.utf16_base_len
      → (t : Text) × (apply d s ≡ ok t) × (utf16_len t ≡ d.utf16_target_len) × IsBmp t
  apply-target_len d s c h b e = (
    written d.ops s,
    apply-ok d s e,
    omega (
      arith,
      utf16_len-length s b,
      utf16_len-length (written d.ops s) (IsBmp-written d.ops s h b),
      length-written d.ops s h (omega (arith, utf16_len-length s b, c.base)),
      c.target,
    ),
    IsBmp-written d.ops s h b,
  )
