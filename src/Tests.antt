-- ===== src/Tests.antt =====
-- Deltas on short texts, at which the theorems are applied.
mod Maps
mod Nodes
mod Revisions
mod Pushes
mod Documents
mod Tasks
mod Pads
mod Folders
mod Grids
use app_flowy.Prelude.{
  ◌+◌, ◌≤◌, ◌≡◌, refl, Bool, true, false, not, ◌&&◌, ◌||◌, some, [], ◌∷◌, ◌++◌, All, arith,
}
use app_flowy.Errors.{ok, ◌>>=◌}
use app_flowy.Interval.{interval}
use app_flowy.OtStr.{Text, utf8_char, utf8, count_utf16_code_units, utf16_len, sub_str, or_empty}
use app_flowy.OtStr.Units.{IsBmp, text_units, utf16_len-eq-text_units, sub_str-append}
use app_flowy.Attributes.{
  OperationAttributes, EmptyAttributes, empty_attributes, empty_operation_attributes,
}
use app_flowy.Delta.Operation.{delete, retain, insert, len}
use app_flowy.Delta.Ops.{DeltaOperations, add, apply, invert_str}
use app_flowy.Delta.Meaning.{base_len, target_len, AllBmp, IsWellFormed}
use app_flowy.Delta.Formats.{SameFormats, add-SameFormats}
use app_flowy.Delta.Lengths.{add-IsWellFormed}
use app_flowy.Delta.Apply.{apply-target_len}
use app_flowy.Delta.Invert.{apply-invert_str}
use app_flowy.Delta.Transform.{transform}
use app_flowy.Delta.Transform.Outcome.{TransformsAttributes}
use app_flowy.Delta.Transform.Converge.{Agree, transform-Agree}
use app_flowy.Delta.Builder
use app_flowy.Delta.Cursor.{OperationsCursor, max_iv_len, new_iterator, next_op_with_len}
use app_flowy.Delta.Cursor.Pieces.{IsSolid, front}
use app_flowy.Delta.Cursor.Pending.{Pending, total_len, new_iterator-Pending}
use app_flowy.Delta.Cursor.Calls.{next_op_with_len-rest}
use app_flowy.Delta.Cursor.Collect.{ops-new_iterator}
use app_flowy.Delta.Compose.{compose}
use app_flowy.Delta.Compose.Joined.{ComposesAttributes}
use app_flowy.Delta.Compose.Content.{compose-apply}

abbrev plain : EmptyAttributes
plain = empty_attributes

-- "abc", and "A𝄞" with a character of two code units.
abbrev abc : Text
abc = 97 ∷ 98 ∷ 99 ∷ []

abbrev clef : Text
clef = 65 ∷ 0x1d11e ∷ []

-- "abc" to "axyc".
abbrev first : DeltaOperations EmptyAttributes
first = record {
  ops = retain 1 plain ∷ insert (120 ∷ 121 ∷ []) plain ∷ delete 1 ∷ retain 1 plain ∷ [];
  utf16_base_len = 3;
  utf16_target_len = 4;
}

-- "axyc" to "axzc".
abbrev second : DeltaOperations EmptyAttributes
second = record {
  ops = retain 2 plain ∷ insert (122 ∷ []) plain ∷ delete 1 ∷ retain 1 plain ∷ [];
  utf16_base_len = 4;
  utf16_target_len = 4;
}

-- "abc" to "Aab".
abbrev other : DeltaOperations EmptyAttributes
other = record {
  ops = insert (65 ∷ []) plain ∷ retain 2 plain ∷ delete 1 ∷ [];
  utf16_base_len = 3;
  utf16_target_len = 3;
}

abc-IsBmp : IsBmp abc
abc-IsBmp = (omega arith, (omega arith, (omega arith, tt)))

abc-utf16_len : utf16_len abc ≡ 3
unfolding utf16_len count_utf16_code_units utf8 utf8_char
abc-utf16_len = refl

first-IsWellFormed : IsWellFormed first
unfolding base_len target_len utf16_len count_utf16_code_units utf8 utf8_char
first-IsWellFormed = record {
  base = refl;
  target = refl;
  positive = (omega arith, (tt, (omega arith, (omega arith, tt))));
}

second-IsWellFormed : IsWellFormed second
unfolding base_len target_len utf16_len count_utf16_code_units utf8 utf8_char
second-IsWellFormed = record {
  base = refl;
  target = refl;
  positive = (omega arith, (tt, (omega arith, (omega arith, tt))));
}

other-IsWellFormed : IsWellFormed other
unfolding base_len target_len utf16_len count_utf16_code_units utf8 utf8_char
other-IsWellFormed = record {
  base = refl;
  target = refl;
  positive = (tt, (omega arith, (omega arith, tt)));
}

first-AllBmp : AllBmp first.ops
unfolding AllBmp
first-AllBmp = ((omega arith, (omega arith, tt)), tt)

other-AllBmp : AllBmp other.ops
unfolding AllBmp
other-AllBmp = ((omega arith, tt), tt)

first-IsSolid : All IsSolid first.ops
first-IsSolid = (
  omega arith,
  ((omega arith, (omega arith, (omega arith, tt))), (omega arith, (omega arith, tt))),
)

second-IsSolid : All IsSolid second.ops
second-IsSolid = (omega arith, ((omega arith, (omega arith, tt)), (omega arith, (omega arith, tt))))

first-total_len : total_len first.ops ≤ max_iv_len
unfolding total_len len utf16_len count_utf16_code_units utf8 utf8_char
first-total_len = omega arith

second-total_len : total_len second.ops ≤ max_iv_len
unfolding total_len len utf16_len count_utf16_code_units utf8 utf8_char
second-total_len = omega arith

transforms : TransformsAttributes EmptyAttributes empty_operation_attributes
transforms a b = ((a, b), refl)

composes : ComposesAttributes EmptyAttributes empty_operation_attributes
composes a b = (a, refl)

compose-apply_example :
    (c : DeltaOperations EmptyAttributes) × (compose first second ≡ some (ok c))
    × IsWellFormed c
    × (apply c abc ≡ (apply first abc >>= apply second))
compose-apply_example =
    compose-apply first second first-IsWellFormed second-IsWellFormed first-IsSolid second-IsSolid
      first-total_len second-total_len composes refl abc abc-IsBmp

transform-Agree_example :
    (a_prime b_prime : DeltaOperations EmptyAttributes) × (transform first other
      ≡ some (ok (a_prime, b_prime)))
    × IsWellFormed a_prime
    × IsWellFormed b_prime
    × Agree first other a_prime b_prime abc
transform-Agree_example =
    transform-Agree first other first-IsWellFormed other-IsWellFormed first-AllBmp other-AllBmp refl
      transforms abc abc-IsBmp abc-utf16_len

apply-invert_str_example : (apply first abc >>= apply (invert_str first abc)) ≡ ok abc
apply-invert_str_example =
    apply-invert_str first abc first-IsWellFormed first-AllBmp abc-IsBmp abc-utf16_len

-- Attributes that are bold or not.
abbrev same_bool : Bool → Bool → Bool
same_bool true b = b
same_bool false b = not b

abbrev bold_or_not : OperationAttributes Bool
bold_or_not = record {
  beq = same_bool;
  empty = false;
  is_empty = not;
  remove = λ a. a;
  extend = λ a b. b;
  compose = λ a b. ok b;
  transform = λ a b. ok (a, b);
  invert = λ a b. b;
}

same_bool_sound : (a b : Bool) → same_bool a b ≡ true → a ≡ b
same_bool_sound true true h = refl
same_bool_sound true false h = cc
same_bool_sound false true h = cc
same_bool_sound false false h = refl

-- A plain character kept, a bold "a" inserted, and a deletion.
abbrev half_bold : DeltaOperations Bool
half_bold = record {
  ops = retain 1 false ∷ insert (97 ∷ []) true ∷ delete 2 ∷ [];
  utf16_base_len = 3;
  utf16_target_len = 2;
}

add-SameFormats_example :
    SameFormats
      (λ a. a)
      (add ⦃attrs = bold_or_not⦄ (insert (98 ∷ []) false) half_bold).ops
      (half_bold.ops ++ insert (98 ∷ []) false ∷ [])
add-SameFormats_example =
    add-SameFormats (λ a. a) ⦃attrs = bold_or_not⦄ same_bool_sound (insert (98 ∷ []) false)
      half_bold

add-IsWellFormed_example : IsWellFormed (add (insert abc plain) other)
add-IsWellFormed_example = add-IsWellFormed (insert abc plain) other other-IsWellFormed

apply-target_len_example : (t : Text) × (apply first abc ≡ ok t) × (utf16_len t ≡ 4) × IsBmp t
apply-target_len_example =
    apply-target_len first abc first-IsWellFormed first-AllBmp abc-IsBmp abc-utf16_len

first-Pending : Pending (new_iterator first) first.ops
first-Pending = new_iterator-Pending first first-IsSolid first-total_len

-- The whole of the first operation.
next_op_with_len-rest_example :
    (c' : OperationsCursor EmptyAttributes) × (next_op_with_len 1 (new_iterator first)
      ≡ some (some (front 1 (retain 1 plain)), c'))
    × Pending c' (insert (120 ∷ 121 ∷ []) plain ∷ delete 1 ∷ retain 1 plain ∷ [])
unfolding len
next_op_with_len-rest_example =
    next_op_with_len-rest (new_iterator first) (retain 1 plain)
      (insert (120 ∷ 121 ∷ []) plain ∷ delete 1 ∷ retain 1 plain ∷ []) first-Pending 1 (omega arith)
      (omega arith)

ops-new_iterator_example : app_flowy.Delta.Cursor.ops (new_iterator first) ≡ some first.ops
ops-new_iterator_example = ops-new_iterator first first-IsSolid first-total_len

sub_str-append_example :
    or_empty (sub_str clef (interval 0 2)) ++ or_empty (sub_str clef (interval 2 (utf16_len clef)))
    ≡ clef
sub_str-append_example = sub_str-append clef 2

utf16_len-eq-text_units_example : utf16_len clef ≡ text_units clef
utf16_len-eq-text_units_example = utf16_len-eq-text_units clef
