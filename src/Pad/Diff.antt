-- ===== src/Pad/Diff.antt =====
-- `cal_diff` of frontend/rust-lib/flowy-client-sync/src/util.rs: the delta between two texts, from what
-- the comparison of texts finds.
use app_flowy.Prelude.{
  ◌≡◌, ◌≢◌, subst, true, refl, sym, ap, ◌∙◌, some, List, [], ◌∷◌, ◌++◌, length, take-append_length,
  drop-append_length, All, is_nil, Bool-cases, inl, inr, arith,
}
use app_flowy.OtStr.{Text, utf16_len}
use app_flowy.OtStr.Units.{IsBmp, utf16_len-length, utf16_len-append}
use app_flowy.Attributes.{EmptyAttributes, empty_attributes, empty_operation_attributes}
use app_flowy.Delta.Operation.{DeltaOperation}
use app_flowy.Delta.Operation
use app_flowy.Delta.Ops.{DeltaOperations, new, add}
use app_flowy.Delta.Meaning.{written, base_len, AllBmp, IsBmp-append}
use app_flowy.Delta.Extends.{
  Extends, Extends-nil, Extends-delete, Extends-retain, Extends-insert, Extends-trans,
  IsWellFormed-new,
}
use app_flowy.Delta.Builder
use app_flowy.Delta.Builder.{DeltaOperationBuilder, build, new_builder}
use app_flowy.Delta.Compose.Solid.{HasText, add-HasText}
use app_flowy.Pad.Delta.{IsDelta, IsPlain}
use app_flowy.Pad.{Chunk, equal, delete, insert, add_chunks, cal_diff}

-- The texts that the chunks are of.
abbrev pub old_text : List Chunk → Text
old_text [] = []
old_text (equal s ∷ chunks) = s ++ old_text chunks
old_text (delete s ∷ chunks) = s ++ old_text chunks
old_text (insert s ∷ chunks) = old_text chunks

abbrev pub new_text : List Chunk → Text
new_text [] = []
new_text (equal s ∷ chunks) = s ++ new_text chunks
new_text (delete s ∷ chunks) = new_text chunks
new_text (insert s ∷ chunks) = s ++ new_text chunks

-- What the documentation of `dissimilar::diff` says: its chunks are of the two texts.
pub record IsDiff (diff : Text → Text → List Chunk) : Type 0 where
  pub of_old : (old new : Text) → old_text (diff old new) ≡ old
  pub of_new : (old new : Text) → new_text (diff old new) ≡ new

chunk_ops : List Chunk → List (DeltaOperation EmptyAttributes)
chunk_ops [] = []
chunk_ops (equal s ∷ chunks) = Operation.retain (utf16_len s) empty_attributes ∷ chunk_ops chunks
chunk_ops (delete s ∷ chunks) = Operation.delete (utf16_len s) ∷ chunk_ops chunks
chunk_ops (insert s ∷ chunks) = Operation.insert s empty_attributes ∷ chunk_ops chunks

add_chunks-Extends :
    (chunks : List Chunk) (b : DeltaOperationBuilder EmptyAttributes)
    → Extends b.delta (chunk_ops chunks) (add_chunks chunks b).delta
unfolding add_chunks chunk_ops Builder.retain Builder.delete Builder.insert
add_chunks-Extends [] b = Extends-nil b.delta
add_chunks-Extends (equal s ∷ chunks) b =
    Extends-trans (Operation.retain (utf16_len s) empty_attributes ∷ []) (chunk_ops chunks)
      (Extends-retain (utf16_len s) empty_attributes b.delta)
      (add_chunks-Extends chunks (Builder.retain (utf16_len s) b))
add_chunks-Extends (delete s ∷ chunks) b =
    Extends-trans (Operation.delete (utf16_len s) ∷ []) (chunk_ops chunks)
      (Extends-delete (utf16_len s) b.delta)
      (add_chunks-Extends chunks (Builder.delete (utf16_len s) b))
add_chunks-Extends (insert s ∷ chunks) b =
    Extends-trans (Operation.insert s empty_attributes ∷ []) (chunk_ops chunks)
      (Extends-insert s empty_attributes b.delta) (add_chunks-Extends chunks (Builder.insert s b))

add_chunks-HasText :
    (chunks : List Chunk) (b : DeltaOperationBuilder EmptyAttributes)
    → All HasText b.delta.ops
    → All HasText (add_chunks chunks b).delta.ops
unfolding add_chunks add Builder.retain Builder.delete Builder.insert
add_chunks-HasText [] b h = h
add_chunks-HasText (equal s ∷ chunks) b h =
    add_chunks-HasText chunks (Builder.retain (utf16_len s) b)
      (add-HasText (Operation.retain (utf16_len s) empty_attributes) b.delta h)
add_chunks-HasText (delete s ∷ chunks) b h =
    add_chunks-HasText chunks (Builder.delete (utf16_len s) b)
      (add-HasText (Operation.delete (utf16_len s)) b.delta h)
add_chunks-HasText (insert s ∷ chunks) b h =
    add_chunks-HasText chunks (Builder.insert s b)
      (add-HasText (Operation.insert s empty_attributes) b.delta h)

base_len-chunk_ops :
    (chunks : List Chunk) → base_len (chunk_ops chunks) ≡ utf16_len (old_text chunks)
unfolding base_len chunk_ops
base_len-chunk_ops [] = sym (utf16_len-length [] tt)
base_len-chunk_ops (equal s ∷ chunks) =
    omega (arith, base_len-chunk_ops chunks, utf16_len-append s (old_text chunks))
base_len-chunk_ops (delete s ∷ chunks) =
    omega (arith, base_len-chunk_ops chunks, utf16_len-append s (old_text chunks))
base_len-chunk_ops (insert s ∷ chunks) = base_len-chunk_ops chunks

AllBmp-chunk_ops : (chunks : List Chunk) → IsBmp (new_text chunks) → AllBmp (chunk_ops chunks)
unfolding AllBmp chunk_ops
AllBmp-chunk_ops [] h = tt
AllBmp-chunk_ops (equal s ∷ chunks) h =
    AllBmp-chunk_ops chunks (IsBmp-append s (new_text chunks) h).1
AllBmp-chunk_ops (delete s ∷ chunks) h = AllBmp-chunk_ops chunks h
AllBmp-chunk_ops (insert s ∷ chunks) h =
    let (p, q) = IsBmp-append s (new_text chunks) h in (p, AllBmp-chunk_ops chunks q)

written-chunk_ops :
    (chunks : List Chunk)
    → IsBmp (old_text chunks)
    → written (chunk_ops chunks) (old_text chunks) ≡ new_text chunks
unfolding written chunk_ops
written-chunk_ops [] h = refl
written-chunk_ops (equal s ∷ chunks) h =
    let (p, q) = IsBmp-append s (old_text chunks) h in
    rw
      (
        utf16_len-length s p,
        take-append_length s (old_text chunks),
        drop-append_length s (old_text chunks),
      )
      (ap (s ++◌) (written-chunk_ops chunks q))
written-chunk_ops (delete s ∷ chunks) h =
    let (p, q) = IsBmp-append s (old_text chunks) h in
    rw (utf16_len-length s p, drop-append_length s (old_text chunks)) (written-chunk_ops chunks q)
written-chunk_ops (insert s ∷ chunks) h = ap (s ++◌) (written-chunk_ops chunks h)

-- The delta that is built from the chunks of two texts makes the second of the first.
pub add_chunks-IsDelta :
    (chunks : List Chunk)
    → IsBmp (old_text chunks)
    → IsBmp (new_text chunks)
    → IsDelta (build (add_chunks chunks new_builder)) (old_text chunks) (new_text chunks)
unfolding build new_builder
add_chunks-IsDelta chunks h k = record {
  well_formed = e.well_formed IsWellFormed-new;
  has_text = add_chunks-HasText chunks new_builder tt;
  bmp = e.same.same_bmp.1 (AllBmp-chunk_ops chunks k);
  base = omega (
    arith,
    (e.well_formed IsWellFormed-new).base,
    e.same.same_base,
    base_len-chunk_ops chunks,
    utf16_len-length (old_text chunks) h,
  );
  makes = e.same.same_text (old_text chunks) ∙ written-chunk_ops chunks h;
}
  where
    e : Extends new (chunk_ops chunks) (add_chunks chunks new_builder).delta
    e = add_chunks-Extends chunks new_builder

IsDelta-nil :
    {d : DeltaOperations EmptyAttributes} {old new : Text}
    → IsDelta d old new
    → d.ops ≡ []
    → (old ≡ []) × (new ≡ [])
unfolding base_len written
IsDelta-nil {d} {old} {new} p e =
    (no_text old (omega (arith, ap base_len e, p.well_formed.base, p.base)), sym (rw e at p.makes))
  where
    no_text : (s : Text) → length s ≡ 0 → s ≡ []
    no_text [] h = refl
    no_text (c ∷ s) h = absurd (omega arith)

-- `cal_diff` finds a delta between plain texts one of which is not empty, and that makes the second of
-- the first.
pub cal_diff-IsDelta :
    {diff : Text → Text → List Chunk} (old new : Text)
    → IsDiff diff
    → IsPlain old
    → IsPlain new
    → new ≢ []
    → (d : DeltaOperations EmptyAttributes) × (cal_diff diff old new ≡ some d) × IsDelta d old new
unfolding cal_diff
cal_diff-IsDelta {diff} old new law po pn some_text = elim (Bool-cases (is_nil d.ops)) [
  | inl nothing ↦ absurd (some_text (IsDelta-nil makes (no_ops d.ops nothing)).1)
  | inr found ↦ (d, rw found refl, makes)
]
  where
    d : DeltaOperations EmptyAttributes
    d = build (add_chunks (diff old new) new_builder)

    makes : IsDelta d old new
    makes =
        rw (law.of_old old new, law.of_new old new) at
          (add_chunks-IsDelta (diff old new) (subst IsBmp (sym (law.of_old old new)) po.bmp)
            (subst IsBmp (sym (law.of_new old new)) pn.bmp))

    no_ops : (ops : List (DeltaOperation EmptyAttributes)) → is_nil ops ≡ true → ops ≡ []
    no_ops [] h = refl
    no_ops (op ∷ ops) h = cc
