-- ===== src/NodeTree/Path.antt =====
-- shared-lib/lib-ot/src/core/node_tree/path.rs: the position of a node, from the root on.
pub mod Shift
use app_flowy.Prelude.{
  ℕ, zero, suc, ◌+◌, ◌-◌, Bool, true, false, not, ◌&&◌, ◌||◌, List, [], ◌∷◌, ◌++◌, take, drop,
  length, is_nil, ltb, leb, ◌==◌, if◌then◌else◌,
}

abbrev pub NodePath : Type 0
NodePath = List ℕ

-- `PartialEq`
unfoldable pub path_eq : NodePath → NodePath → Bool
path_eq [] [] = true
path_eq [] (y ∷ q) = false
path_eq (x ∷ p) [] = false
path_eq (x ∷ p) (y ∷ q) = x == y && path_eq p q

unfoldable pub is_valid : NodePath → Bool
is_valid p = not (is_nil p)

unfoldable pub clone_with : ℕ → NodePath → NodePath
clone_with element p = p ++ element ∷ []

unfoldable pub is_root : NodePath → Bool
is_root [] = false
is_root (x ∷ []) = x == 0
is_root (x ∷ y ∷ p) = false

-- The element at an index, which is in range wherever it is asked for.
unfoldable pub element : ℕ → NodePath → ℕ
element i [] = 0
element zero (x ∷ p) = x
element (suc i) (x ∷ p) = element i p

-- The `for` loop over the first `n` elements.
unfoldable pub shares : ℕ → NodePath → NodePath → Bool
shares zero p q = true
shares (suc n) [] q = false
shares (suc n) (x ∷ p) [] = false
shares (suc n) (x ∷ p) (y ∷ q) = x == y && shares n p q

unfoldable pub transform : NodePath → NodePath → ℕ → NodePath
transform self other offset =
    let second_last_index = length self - 1 in
    let last_value = element second_last_index self in
    let other_value = element second_last_index other in
    if ltb (length other) (length self)
    then other
    else if is_nil self || is_nil other
    then other
    else if shares second_last_index self other
    then take second_last_index self
      ++ (if leb last_value other_value then other_value + offset else other_value)
        ∷ drop (length self) other
    else other
