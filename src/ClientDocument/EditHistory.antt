-- ===== src/ClientDocument/EditHistory.antt =====
-- frontend/rust-lib/flowy-client-sync/src/client_document/history.rs: what can be undone and redone. A
-- vector's last entry is the last of the list.
use app_flowy.Prelude.{
  ℕ, ◌+◌, ◌-◌, ◌≤◌, ◌≡◌, refl, Bool, not, Option, none, some, List, [], ◌∷◌, ◌++◌, length,
  length-append, ltb, is_nil, if◌then◌else◌, arith,
}
use app_flowy.Delta.Ops.{DeltaOperations}

abbrev pub max_undoes : ℕ
max_undoes = 20

pub record History (T : Type 0) : Type 0 where
  pub undoes : List (DeltaOperations T)
  pub redoes : List (DeltaOperations T)
  pub capacity : ℕ

-- `Vec::pop`, with what it leaves.
unfoldable pub pop {ℓ} : {A : Type ℓ} → List A → Option (A × List A)
pop [] = none
pop (x ∷ xs) = elim (pop xs) [ none ↦ some (x, []) | some (y, ys) ↦ some (y, x ∷ ys) ]

-- `Vec::remove(0)`
abbrev pub remove_first {ℓ} : {A : Type ℓ} → List A → List A
remove_first [] = []
remove_first (x ∷ xs) = xs

module _ {T : Type 0} where
  unfoldable pub new : History T
  new = record { undoes = []; redoes = []; capacity = max_undoes }

  unfoldable pub can_undo : History T → Bool
  can_undo h = not (is_nil h.undoes)

  unfoldable pub can_redo : History T → Bool
  can_redo h = not (is_nil h.redoes)

  unfoldable pub add_undo : DeltaOperations T → History T → History T
  add_undo d h = record h { undoes = h.undoes ++ d ∷ [] }

  unfoldable pub add_redo : DeltaOperations T → History T → History T
  add_redo d h = record h { redoes = h.redoes ++ d ∷ [] }

  unfoldable pub record_undo : DeltaOperations T → History T → History T
  unfolding add_undo
  record_undo d h =
      if is_nil d.ops
      then h
      else let h' = add_undo d (record h { redoes = [] }) in
        if ltb h'.capacity (length h'.undoes)
        then record h' { undoes = remove_first h'.undoes }
        else h'

  -- With the last entry and the others.
  unfoldable pub undo_last :
      Option (DeltaOperations T × List (DeltaOperations T))
      → History T
      → Option (DeltaOperations T) × History T
  undo_last none h = (none, h)
  undo_last (some (d, rest)) h = (some d, record h { undoes = rest })

  unfoldable pub undo : History T → Option (DeltaOperations T) × History T
  unfolding pop undo_last
  undo h = undo_last (pop h.undoes) h

  unfoldable pub redo_last :
      Option (DeltaOperations T × List (DeltaOperations T))
      → History T
      → Option (DeltaOperations T) × History T
  redo_last none h = (none, h)
  redo_last (some (d, rest)) h = (some d, record h { redoes = rest })

  unfoldable pub redo : History T → Option (DeltaOperations T) × History T
  unfolding pop redo_last
  redo h = redo_last (pop h.redoes) h

  -- Both stacks together are not above the capacity.
  abbrev pub Fits : History T → Type 0
  Fits h = length h.undoes + length h.redoes ≤ h.capacity

-- How long what is left is.
pub pop-length {ℓ} :
    {A : Type ℓ} (xs : List A)
    → length xs ≡ (elim (pop xs) [ none ↦ 0 | some (y, ys) ↦ length ys + 1 ])
unfolding pop
pop-length [] = refl
pop-length (x ∷ xs) = ground (arith, pop-length xs)

length-remove_first {ℓ} : {A : Type ℓ} (xs : List A) → length (remove_first xs) ≡ length xs - 1
length-remove_first [] = refl
length-remove_first (x ∷ xs) = omega arith

module _ {T : Type 0} where
  pub record_undo-Fits : (d : DeltaOperations T) (h : History T) → Fits h → Fits (record_undo d h)
  unfolding record_undo
  record_undo-Fits d h fits =
      ground (arith, length-append h.undoes (d ∷ []), length-remove_first (h.undoes ++ d ∷ []))

  -- Nothing was taken, or there is room for one entry.
  abbrev pub Taken : Option (DeltaOperations T) × History T → History T → Type 0
  Taken (none, h') h = h' ≡ h
  Taken (some d, h') h = length h'.undoes + length h'.redoes + 1 ≤ h'.capacity

  undo_last-Taken :
      (t : Option (DeltaOperations T × List (DeltaOperations T))) (h : History T)
      → Fits h
      → length h.undoes ≡ (elim t [ none ↦ 0 | some (y, ys) ↦ length ys + 1 ])
      → Taken (undo_last t h) h
  unfolding undo_last
  undo_last-Taken none h fits e = refl
  undo_last-Taken (some (d, rest)) h fits e = omega arith

  redo_last-Taken :
      (t : Option (DeltaOperations T × List (DeltaOperations T))) (h : History T)
      → Fits h
      → length h.redoes ≡ (elim t [ none ↦ 0 | some (y, ys) ↦ length ys + 1 ])
      → Taken (redo_last t h) h
  unfolding redo_last
  redo_last-Taken none h fits e = refl
  redo_last-Taken (some (d, rest)) h fits e = omega arith

  pub undo-Taken : (h : History T) → Fits h → Taken (undo h) h
  unfolding undo
  undo-Taken h fits = undo_last-Taken (pop h.undoes) h fits (pop-length h.undoes)

  pub redo-Taken : (h : History T) → Fits h → Taken (redo h) h
  unfolding redo
  redo-Taken h fits = redo_last-Taken (pop h.redoes) h fits (pop-length h.redoes)

  pub record_undo-capacity :
      (d : DeltaOperations T) (h : History T) → (record_undo d h).capacity ≡ h.capacity
  unfolding record_undo
  record_undo-capacity d h = ground arith

  pub undo-capacity : (h : History T) → (undo h).1.capacity ≡ h.capacity
  unfolding undo
  undo-capacity h = elim (pop h.undoes) as (λ t. (undo_last t h).1.capacity ≡ h.capacity) [
    | none ↦ refl
    | some t ↦ refl
  ]

  pub redo-capacity : (h : History T) → (redo h).1.capacity ≡ h.capacity
  unfolding redo
  redo-capacity h = elim (pop h.redoes) as (λ t. (redo_last t h).1.capacity ≡ h.capacity) [
    | none ↦ refl
    | some t ↦ refl
  ]
