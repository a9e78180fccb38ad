-- ===== src/Tests/Pads.antt =====
-- A pad whose document is a number, and its edits, at which the theorems are applied.
use app_flowy.Prelude.{
  ℕ, ◌+◌, ◌≡◌, ◌≢◌, ◌<◌, true, sym, ap, subst, refl, inl, Option, none, some, List, [], ◌∷◌,
  append-nil, get_elem?, ◌==◌, arith,
}
use app_flowy.Prelude.Search.{insert_at}
use app_flowy.FlowyErrors.{FlowyResult, done}
use app_flowy.OtStr.{Text}
use app_flowy.Attributes.{EmptyAttributes, empty_operation_attributes}
use app_flowy.Delta.Ops.{DeltaOperations}
use app_flowy.Delta.Builder
use app_flowy.Delta.Builder.{build, new_builder}
use app_flowy.Infra.{move_vec_element, move_vec_element-position}
use app_flowy.Pad.{
  Chunk, delete, insert, Libraries, Pad, Changeset, Edited, cal_diff, modify,
  compose_remote_operations,
}
use app_flowy.Pad.Delta.{IsDelta}
use app_flowy.Pad.Diff.{IsDiff, cal_diff-IsDelta}
use app_flowy.Pad.InSync.{HasJson, IsInSync, Taken, modify-Taken}
use app_flowy.Pad.Edits.{revision-modify, modify-changed}
use app_flowy.Pad.Remote.{IsRoundTrip, TookOver, insert-IsDelta, compose_remote_operations-modify}

-- The second text in place of the first.
abbrev pub replacing : Text → Text → List Chunk
replacing old new = delete old ∷ insert new ∷ []

pub replacing-IsDiff : IsDiff replacing
replacing-IsDiff = record { of_old = λ old new. append-nil old; of_new = λ old new. append-nil new }

-- One character as the JSON of a number.
abbrev from_character : Text → Option ℕ
from_character [] = none
from_character (n ∷ []) = some n
from_character (n ∷ m ∷ s) = none

abbrev numbers : Libraries ℕ
numbers = record {
  to_json = λ n. some (n ∷ []);
  from_json = from_character;
  diff = replacing;
  md5 = λ d. [];
}

-- What is read of a JSON that there may be.
abbrev pub read_back : {D : Type 0} → (Text → Option D) → Option Text → Option D
read_back from_json none = none
read_back from_json (some json) = from_json json

numbers-IsRoundTrip : IsRoundTrip numbers
numbers-IsRoundTrip = record {
  from_json-to_json = λ n json e. sym (ap (read_back from_character) e);
}

pub cons-ne-nil : (c : ℕ) (s : Text) → c ∷ s ≢ []
cons-ne-nil c s e = cc

abbrev number-HasJson : (n : ℕ) → n < 0x10000 → HasJson numbers n
number-HasJson n h = record {
  json = n ∷ [];
  serialized = refl;
  plain = record { bmp = (h, tt); short = omega arith };
  not_empty = cons-ne-nil n [];
}

-- The pad of 65, "A".
abbrev pad : Pad ℕ
pad = record { revision = 65; operations = build (Builder.insert (65 ∷ []) new_builder) }

abbrev pad-IsInSync : IsInSync numbers pad
pad-IsInSync = record {
  has_json = number-HasJson 65 (omega arith);
  delta = insert-IsDelta (65 ∷ []) (record { bmp = (omega arith, tt); short = omega arith });
}

-- To the next number.
abbrev next : ℕ → Edited ℕ
next n = (done (some tt), n + 1)

cal_diff-IsDelta_example :
    (d : DeltaOperations EmptyAttributes) × (cal_diff replacing (65 ∷ []) (66 ∷ []) ≡ some d)
    × IsDelta d (65 ∷ []) (66 ∷ [])
cal_diff-IsDelta_example =
    cal_diff-IsDelta (65 ∷ []) (66 ∷ []) replacing-IsDiff
      (record { bmp = (omega arith, tt); short = omega arith })
      (record { bmp = (omega arith, tt); short = omega arith }) (λ e. cc e)

modify-Taken_example : Taken numbers (65 ∷ []) (done (some tt)) 66 (modify numbers next pad)
modify-Taken_example =
    modify-Taken numbers replacing-IsDiff pad pad-IsInSync next (inl refl)
      (number-HasJson 66 (omega arith))

-- The changeset of the edit.
abbrev changed :
    (c : Changeset) × ((modify numbers next pad).0 ≡ done (some c))
    × ((modify numbers next pad).1.revision ≡ 66)
changed = modify-changed numbers pad next replacing-IsDiff pad-IsInSync refl (
    subst (HasJson numbers) (sym (revision-modify numbers next pad))
      (number-HasJson 66 (omega arith)))

compose_remote_operations-modify_example :
    TookOver numbers numbers-IsRoundTrip
      (modify numbers next pad).1.revision
      (compose_remote_operations numbers changed.0.operations pad)
compose_remote_operations-modify_example =
    compose_remote_operations-modify numbers numbers-IsRoundTrip replacing-IsDiff pad pad
      pad-IsInSync pad-IsInSync refl next {c = changed.0} {after = (modify numbers next pad).1}
      (inl refl) (number-HasJson 66 (omega arith))
      (ap (λ (r : FlowyResult (Option Changeset)). (r, (modify numbers next pad).1)) changed.1)

-- The third of four numbers, to the front.
move_vec_element-position_example :
    (x : ℕ) × (rest : List ℕ) × (move_vec_element (λ n. n == 3) 0 0 (1 ∷ 2 ∷ 3 ∷ 4 ∷ [])
      ≡ (done true, insert_at 0 x rest))
    × (get_elem? (insert_at 0 x rest) 0 ≡ some x)
    × (1 ∷ 2 ∷ 3 ∷ 4 ∷ [] ≡ insert_at 2 x rest)
    × ((x == 3) ≡ true)
move_vec_element-position_example =
    move_vec_element-position (λ n. n == 3) 0 0 (1 ∷ 2 ∷ 3 ∷ 4 ∷ []) refl (omega arith)
