-- ===== src/Grid/DatabasePad/Closures.antt =====
-- The closures of `DatabaseRevisionPad`'s methods are careful edits: they say truly whether they changed
-- something, and let no id stand twice.
use app_flowy.Prelude.{
  ℕ, ◌+◌, ◌≡◌, refl, inl, inr, false, ◌&&◌, ◌||◌, Option, none, some, List, [], ◌∷◌, ◌++◌, ltb,
  Bool-cases, Option-cases, arith,
}
use app_flowy.Prelude.Search.{any, position, insert_at}
use app_flowy.FlowyErrors.{done, failed, internal_error, can_not_delete_primary_field}
use app_flowy.OtStr.{Text}
use app_flowy.Pad.Careful.{Careful, Careful-some, Careful-same}
use app_flowy.Grid.{
  IndexMap, FieldTypeRevision, FieldRevision, GridBlockMetaRevision, GridBlockMetaRevisionChangeset,
}
use app_flowy.Grid.BlockPad.{or_old, is_given, changed_if}
use app_flowy.Grid.DatabasePad.{
  copy_suffix, is_field, last, insert_before, index_of, create_in, delete_found, delete_in,
  duplicate_found, duplicate_in, replace_found, replace_in,
}
use app_flowy.Grid.DatabasePad.Methods.{
  is_block, create_block_behind, create_block_in, update_block_in, switch_in,
}
use app_flowy.Grid.DatabasePad.Ids.{
  one_if, count_id, IsApart, count_id-insert_at, count_id-remove, count_id-any, IsApart-le,
  IsApart-new, one_if-same, id-found,
}
use app_flowy.Grid.DatabasePad.Ids.Edits.{count_id-push}

module _ {Options : Type 0} where
  abbrev pub FieldsApart : List (FieldRevision Options) → Type 0
  FieldsApart = IsApart FieldRevision.id

  pub create_in-IsApart :
      (field : FieldRevision Options) (start : Option Text) (fields : List (FieldRevision Options))
      → FieldsApart fields
      → Careful FieldsApart (create_in field start fields) fields
  unfolding create_in insert_before
  create_in-IsApart field start fields h = elim (Bool-cases (any (is_field field.id) fields)) [
    | inl there ↦ rw there (Careful-same (done none) h)
    | inr fresh ↦ rw fresh (
        Careful-some (
          IsApart-new FieldRevision.id field fields
            (insert_before field (index_of start fields) fields)
            (count_id-any FieldRevision.id field.id fields fresh)
            (λ id. counts id (index_of start fields)) h))
  ]
    where
      counts :
          (id : Text) (o : Option ℕ)
          → count_id FieldRevision.id id (insert_before field o fields)
            ≡ one_if FieldRevision.id id field + count_id FieldRevision.id id fields
      counts id none = count_id-push FieldRevision.id id field fields
      counts id (some index) = count_id-insert_at FieldRevision.id id index field fields

  pub delete_in-IsApart :
      (id : Text) (fields : List (FieldRevision Options))
      → FieldsApart fields
      → Careful FieldsApart (delete_in id fields) fields
  unfolding delete_in delete_found
  delete_in-IsApart id fields h = elim (Option-cases (position (is_field id) fields)) [
    | inl n ↦ rw (delete_in, n) (Careful-same (done none) h)
    | inr (i, e) ↦
        let (field, rest, removed, _, _) = id-found FieldRevision.id id fields e in
        elim (Bool-cases field.is_primary) [
          | inl primary ↦
              rw (delete_in, e, removed, primary)
                (Careful-same (failed can_not_delete_primary_field) h)
          | inr other ↦
              rw (delete_in, e, removed, other)
                (Careful-some (
                  IsApart-le FieldRevision.id fields rest
                    (λ k. omega (arith, count_id-remove FieldRevision.id k i fields removed)) h))
        ]
  ]

  pub duplicate_in-IsApart :
      (id duplicated_id : Text) (fields : List (FieldRevision Options))
      → count_id FieldRevision.id duplicated_id fields ≡ 0
      → FieldsApart fields
      → Careful FieldsApart (duplicate_in id duplicated_id fields) fields
  unfolding duplicate_in duplicate_found
  duplicate_in-IsApart id duplicated_id fields fresh h =
      elim (Option-cases (position (is_field id) fields)) [
        | inl n ↦ rw (duplicate_in, n) (Careful-same (done none) h)
        | inr (i, e) ↦
            let (field, _, _, there, _) = id-found FieldRevision.id id fields e in
            let copy : FieldRevision Options = record field {
              id = duplicated_id;
              name = field.name ++ copy_suffix;
            } in
            rw (duplicate_in, e, there)
              (Careful-some (
                IsApart-new FieldRevision.id copy fields (insert_at (i + 1) copy fields) fresh
                  (λ k. count_id-insert_at FieldRevision.id k (i + 1) copy fields) h))
      ]

  pub replace_in-IsApart :
      (field : FieldRevision Options) (fields : List (FieldRevision Options))
      → FieldsApart fields
      → Careful FieldsApart (replace_in field fields) fields
  unfolding replace_in replace_found
  replace_in-IsApart field fields h = elim (Option-cases (position (is_field field.id) fields)) [
    | inl n ↦ rw (replace_in, n) (Careful-same (done none) h)
    | inr (i, e) ↦
        let (old, rest, removed, _, same) = id-found FieldRevision.id field.id fields e in
        rw (replace_in, e, removed)
          (Careful-some (
            IsApart-le FieldRevision.id fields (insert_at i field rest)
              (λ k. omega (
                arith,
                count_id-insert_at FieldRevision.id k i field rest,
                count_id-remove FieldRevision.id k i fields removed,
                one_if-same FieldRevision.id k old field same,
              ))
              h))
  ]

  pub switch_in-keeps :
      (options : IndexMap Text Text Options) (ty : FieldTypeRevision) (make_default : Text)
      (transform : FieldTypeRevision → Option Text → Text → Text) (field : FieldRevision Options)
      → Careful (λ f. f.id ≡ field.id) (switch_in options ty make_default transform field) field
  unfolding switch_in
  switch_in-keeps options ty make_default transform field = Careful-some refl

abbrev pub BlocksApart : List GridBlockMetaRevision → Type 0
BlocksApart = IsApart GridBlockMetaRevision.block_id

pub create_block_in-IsApart :
    (block : GridBlockMetaRevision) (blocks : List GridBlockMetaRevision)
    → BlocksApart blocks
    → Careful BlocksApart (create_block_in block blocks) blocks
unfolding create_block_in create_block_behind
create_block_in-IsApart block blocks h = elim (Bool-cases (any (is_block block.block_id) blocks)) [
  | inl there ↦ rw there (Careful-same (done none) h)
  | inr fresh ↦ rw fresh (behind (last blocks) (pushed fresh))
]
  where
    pushed :
        any (is_block block.block_id) blocks ≡ false
        → Careful BlocksApart (done (some tt), blocks ++ block ∷ []) blocks
    pushed fresh = Careful-some (
        IsApart-new GridBlockMetaRevision.block_id block blocks (blocks ++ block ∷ [])
          (count_id-any GridBlockMetaRevision.block_id block.block_id blocks fresh)
          (λ id. count_id-push GridBlockMetaRevision.block_id id block blocks) h)

    behind :
        (o : Option GridBlockMetaRevision)
        → Careful BlocksApart (done (some tt), blocks ++ block ∷ []) blocks
        → Careful BlocksApart (create_block_behind block blocks o) blocks
    behind none c = c
    behind (some l) c =
        elim (Bool-cases
          (ltb block.start_row_index l.start_row_index && ltb block.start_row_index l.row_count)) [
            | inl before ↦ rw (create_block_behind, before) (Careful-same (failed internal_error) h)
            | inr after ↦ rw (create_block_behind, after) c
          ]

pub update_block_in-keeps :
    (changeset : GridBlockMetaRevisionChangeset) (block : GridBlockMetaRevision)
    → Careful (λ b. b.block_id ≡ block.block_id) (update_block_in changeset block) block
unfolding update_block_in
update_block_in-keeps changeset block = by_given changeset.row_count changeset.start_row_index
  where
    by_given :
        (count start : Option ℕ)
        → Careful
            (λ b. b.block_id ≡ block.block_id)
            (
              done (changed_if (is_given count || is_given start)),
              record block {
                row_count = or_old count block.row_count;
                start_row_index = or_old start block.start_row_index;
              },
            )
            block
    by_given none none = Careful-same (done none) refl
    by_given none (some n) = Careful-some refl
    by_given (some n) start = Careful-some refl
