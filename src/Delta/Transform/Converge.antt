-- ===== src/Delta/Transform/Converge.antt =====
-- `transform` of shared-lib/lib-ot/src/core/delta/ops.rs on a text, in both orders of the edits.
use app_flowy.Prelude.{◌≡◌, ◌≢◌, sym, ap, ◌∙◌, some, ◌==◌, arith, Bool-cases, inl, inr}
use app_flowy.Errors.{ok, err, ◌>>=◌, incompatible_length}
use app_flowy.OtStr.{Text, utf16_len}
use app_flowy.OtStr.Units.{IsBmp, utf16_len-length}
use app_flowy.Attributes.{OperationAttributes}
use app_flowy.Delta.Ops.{DeltaOperations, new, apply}
use app_flowy.Delta.Meaning.{written, target_len, AllBmp, IsWellFormed}
use app_flowy.Delta.Extends.{IsWellFormed-new}
use app_flowy.Delta.Apply.{apply-ok, length-written, IsBmp-written}
use app_flowy.Delta.Transform.{transform}
use app_flowy.Delta.Transform.Outcome.{TransformsAttributes, Outcome}
use app_flowy.Delta.Transform.Loop.{loop-Outcome}

module _ {T : Type 0} ⦃attrs : OperationAttributes T⦄ where
  -- Both orders of the edits are accepted on `s` and give one text.
  abbrev pub Agree : (a b a_prime b_prime : DeltaOperations T) → Text → Type 0
  Agree a b a_prime b_prime s =
      (t : Text) × ((apply a s >>= apply b_prime) ≡ ok t) × ((apply b s >>= apply a_prime) ≡ ok t)

  -- The second delta runs on what the first one made, if it is for that length.
  run_both :
      (d e : DeltaOperations T) (s : Text)
      → utf16_len s ≡ d.utf16_base_len
      → utf16_len (written d.ops s) ≡ e.utf16_base_len
      → (apply d s >>= apply e) ≡ ok (written e.ops (written d.ops s))
  run_both d e s h k = rw (apply-ok d s h) (apply-ok e (written d.ops s) k)

  utf16_len-written :
      (d : DeltaOperations T) (s : Text)
      → IsWellFormed d
      → AllBmp d.ops
      → IsBmp s
      → utf16_len s ≡ d.utf16_base_len
      → utf16_len (written d.ops s) ≡ target_len d.ops
  utf16_len-written d s w h b e =
      utf16_len-length _ (IsBmp-written d.ops s h b)
      ∙ length-written d.ops s h (omega (arith, utf16_len-length s b, w.base))

  module _ (a b : DeltaOperations T) (wa : IsWellFormed a) (wb : IsWellFormed b) (ha : AllBmp a.ops)
      (hb : AllBmp b.ops) (same : a.utf16_base_len ≡ b.utf16_base_len) where
    Outcome-Agree :
        (o : Outcome a.ops b.ops new new (transform a b)) (s : Text)
        → IsBmp s
        → utf16_len s ≡ a.utf16_base_len
        → Agree a b o.a_prime o.b_prime s
    Outcome-Agree o s hs e = (
      written o.b_prime.ops (written a.ops s),
      run_both a o.b_prime s e (
          omega (
            arith,
            utf16_len-written a s wa ha hs e,
            o.b_extends.same.same_base,
            (o.b_extends.well_formed IsWellFormed-new).base,
          )),
      run_both b o.a_prime s (e ∙ same) (
            omega (
              arith,
              utf16_len-written b s wb hb hs (e ∙ same),
              o.a_extends.same.same_base,
              (o.a_extends.well_formed IsWellFormed-new).base,
            ))
          ∙ ap ok (
              o.a_extends.same.same_text (written b.ops s)
              ∙ sym (
                  o.b_extends.same.same_text (written a.ops s)
                  ∙ o.diamond.converge ha hb s (omega (arith, utf16_len-length s hs, wa.base))
                      (omega (arith, utf16_len-length s hs, wb.base)))),
    )

    transform-Outcome : TransformsAttributes T attrs → Outcome a.ops b.ops new new (transform a b)
    unfolding transform
    transform-Outcome total = elim (Bool-cases (a.utf16_base_len == b.utf16_base_len)) [
      | inl eq ↦ rw eq (
          loop-Outcome total _ a.ops b.ops new new (omega arith) (omega (arith, wa.base, wb.base))
            wa.positive wb.positive)
      | inr ne ↦ absurd (ground arith)
    ]

    -- Two well-formed deltas for one length, whose attributes can be transformed and whose inserted
    -- characters take one code unit each, are transformed into two well-formed deltas with which
    -- both orders of the edits give one text, on every text of that length of such characters.
    pub transform-Agree :
        TransformsAttributes T attrs
        → (s : Text) → IsBmp s
        → utf16_len s ≡ a.utf16_base_len
        → (a_prime b_prime : DeltaOperations T) × (transform a b ≡ some (ok (a_prime, b_prime)))
          × IsWellFormed a_prime
          × IsWellFormed b_prime
          × Agree a b a_prime b_prime s
    transform-Agree total s h e =
        let o : Outcome a.ops b.ops new new (transform a b) = transform-Outcome total in
        (
          o.a_prime,
          o.b_prime,
          o.returns,
          o.a_extends.well_formed IsWellFormed-new,
          o.b_extends.well_formed IsWellFormed-new,
          Outcome-Agree o s h e,
        )

  -- `transform` refuses two deltas whose base lengths differ.
  transform-incompatible_length :
      (a b : DeltaOperations T)
      → a.utf16_base_len ≢ b.utf16_base_len
      → transform a b ≡ some (err incompatible_length)
  unfolding transform
  transform-incompatible_length a b h = ground arith
