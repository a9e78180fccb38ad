-- ===== src/Grid/BlockPad/Moves.antt =====
-- `move_row` to a place behind the rows.
use app_flowy.Prelude.{
  ℕ, true, ◌+◌, ◌≤◌, ◌≡◌, refl, sym, ap, ◌∙◌, some, List, [], ltb, length, arith,
}
use app_flowy.Prelude.Search.{position, insert_at}
use app_flowy.FlowyErrors.{FlowyResult, done, failed, out_of_bound}
use app_flowy.OtStr.{Text}
use app_flowy.Attributes.HashMap.{text_eq}
use app_flowy.Infra.{Found, first_passing}
use app_flowy.Pad.{Libraries, Pad, modified, modify, on_part}
use app_flowy.Pad.InSync.{IsInSync}
use app_flowy.Pad.Remote.{IsRoundTrip, from_operations-operations}
use app_flowy.Grid.{RowRevision, DatabaseBlockRevision}
use app_flowy.Grid.BlockPad.{has_id, put_row, move_in, on_rows, move_row}

module _ {Cells : Type 0} (libs : Libraries (DatabaseBlockRevision Cells))
    (pad : Pad (DatabaseBlockRevision Cells)) where
  torn :
      (rest : List (RowRevision Cells))
      → IsRoundTrip libs
      → IsInSync libs pad
      → length pad.revision.rows ≡ length rest + 1
      → ¬ IsInSync libs (record pad { revision = record pad.revision { rows = rest } })
  torn rest trip s counted t = absurd (omega (arith, ap length rows))
    where
      after : Pad (DatabaseBlockRevision Cells)
      after = record pad { revision = record pad.revision { rows = rest } }

      both : done pad ≡ done after
      both =
          sym (from_operations-operations libs trip pad s)
          ∙ from_operations-operations libs trip after t

      rows_in : FlowyResult (Pad (DatabaseBlockRevision Cells)) → List (RowRevision Cells)
      rows_in (failed e) = []
      rows_in (done p) = p.revision.rows

      rows : pad.revision.rows ≡ rest
      rows = ap rows_in both

  module _ (id : Text) (from to : ℕ) {i : ℕ} where
    lost :
        (r : Found (has_id id) i pad.revision.rows)
        → position (has_id id) pad.revision.rows ≡ some i
        → ltb (length r.rest) to ≡ true
        → move_row libs id from to pad
          ≡ (failed out_of_bound, record pad { revision = record pad.revision { rows = r.rest } })
    unfolding move_row modify on_rows modified
    lost r e past =
        ap (λ x. modified libs (on_part (λ rows. record pad.revision { rows = rows }) x) pad) moved
      where
        moved : move_in id to pad.revision.rows ≡ (failed out_of_bound, r.rest)
        moved = unfold put_row in rw (move_in, e, r.removed, past) refl

    -- A row that is there, moved to or behind the number of rows: the call fails, the row is no longer in
    -- the pad's block, which keeps the others, and the operations are as they were. So a pad that was in
    -- sync is not any more, where JSON can be read back.
    pub move_row-out_of_bound :
        IsRoundTrip libs
        → IsInSync libs pad
        → position (has_id id) pad.revision.rows ≡ some i
        → length pad.revision.rows ≤ to
        → (row : RowRevision Cells) × (rest : List (RowRevision Cells)) × (pad.revision.rows
            ≡ insert_at i row rest)
          × (text_eq row.id id ≡ true)
          × (move_row libs id from to pad ≡ (
            failed out_of_bound,
            record pad { revision = record pad.revision { rows = rest } },
          ))
          × (¬ IsInSync libs (move_row libs id from to pad).1)
    move_row-out_of_bound trip s e behind =
        let r : Found (has_id id) i pad.revision.rows =
          first_passing (has_id id) pad.revision.rows e in
        let gone = lost r e (ground (arith, r.counted)) in
        (r.element, r.rest, r.whole, r.passes, gone, rw gone (torn r.rest trip s r.counted))
