-- ===== src/Pad/Delta.antt =====
-- Deltas between texts that can be composed on and on, as those of the pads are.
use app_flowy.Prelude.{◌<◌, ◌≡◌, refl, sym, ap, ◌∙◌, some, length, All, arith}
use app_flowy.Errors.{ok}
use app_flowy.OtStr.{Text}
use app_flowy.OtStr.Units.{IsBmp, utf16_len-length}
use app_flowy.Attributes.{EmptyAttributes, empty_operation_attributes}
use app_flowy.Delta.Ops.{DeltaOperations, apply}
use app_flowy.Delta.Meaning.{written, AllBmp, IsWellFormed}
use app_flowy.Delta.Apply.{apply-ok, length-written}
use app_flowy.Delta.Compose.{compose}
use app_flowy.Delta.Compose.Solid.{HasText, compose-HasText, All-IsSolid, total_len-le}
use app_flowy.Delta.Compose.Content.{compose-Composes}

-- A delta that makes one text of another, and can be composed.
pub record IsDelta (d : DeltaOperations EmptyAttributes) (old new : Text) : Type 0 where
  pub well_formed : IsWellFormed d
  pub has_text : All HasText d.ops
  pub bmp : AllBmp d.ops
  pub base : d.utf16_base_len ≡ length old
  pub makes : written d.ops old ≡ new

-- Characters of one code unit, and so many that the cursor's `i32` reaches behind two such texts.
pub record IsPlain (s : Text) : Type 0 where
  pub bmp : IsBmp s
  pub short : length s < 1073741824

module _ {d : DeltaOperations EmptyAttributes} {old new : Text} (p : IsDelta d old new)
    (plain : IsPlain old) where
  pub IsDelta-target : d.utf16_target_len ≡ length new
  IsDelta-target = omega (
    arith,
    p.well_formed.target,
    length-written d.ops old p.bmp (omega (arith, p.well_formed.base, p.base)),
    ap length p.makes,
  )

  pub IsDelta-apply : apply d old ≡ ok new
  IsDelta-apply =
      apply-ok d old (omega (arith, utf16_len-length old plain.bmp, p.base)) ∙ ap ok p.makes

-- Deltas that follow each other compose to one.
pub compose-IsDelta :
    {a b : DeltaOperations EmptyAttributes} {s t u : Text}
    → IsDelta a s t
    → IsDelta b t u
    → IsPlain s
    → IsPlain t
    → IsPlain u
    → (c : DeltaOperations EmptyAttributes) × (compose a b ≡ some (ok c)) × IsDelta c s u
compose-IsDelta {a} {b} {s} {t} {u} p q ps pt pu =
    let (c, r) =
      compose-Composes a b p.well_formed q.well_formed
        (All-IsSolid a.ops p.well_formed.positive p.has_text p.bmp)
        (All-IsSolid b.ops q.well_formed.positive q.has_text q.bmp)
        (omega (
          arith,
          total_len-le a.ops,
          p.well_formed.base,
          p.well_formed.target,
          p.base,
          IsDelta-target p ps,
          ps.short,
          pt.short,
        ))
        (omega (
          arith,
          total_len-le b.ops,
          q.well_formed.base,
          q.well_formed.target,
          q.base,
          IsDelta-target q pt,
          pt.short,
          pu.short,
        ))
        (λ x y. (x, refl)) (IsDelta-target p ps ∙ sym q.base) in
    (
      c,
      r.returns,
      record {
        well_formed = r.well_formed;
        has_text = compose-HasText a b r.returns;
        bmp = r.bmp;
        base = r.base ∙ p.base;
        makes =
            r.text s ps.bmp (utf16_len-length s ps.bmp ∙ sym p.base)
            ∙ ap (written b.ops) p.makes
            ∙ q.makes;
      },
    )
