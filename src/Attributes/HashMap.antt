-- ===== src/Attributes/HashMap.antt =====
-- shared-lib/lib-ot/src/core/attributes/attribute.rs: attributes with values by name. The ordered map
-- below them is another library's, so its methods are a parameter: a record of what is called here.
pub mod Laws
use app_flowy.Prelude.{
  ℕ, Bool, true, false, not, ◌&&◌, Option, none, some, List, [], ◌∷◌, ◌==◌, if◌then◌else◌,
}
use app_flowy.Errors.{Result, ok}
use app_flowy.OtStr.{Text}
use app_flowy.Attributes.{OperationAttributes}

pub data ValueType : Type 0 where
  int_type float_type str_type bool_type : ValueType

pub record AttributeValue : Type 0 where
  pub ty : Option ValueType
  pub value : Option Text

-- `PartialEq` of keys, of the discriminants, and of values that may be missing.
unfoldable pub text_eq : Text → Text → Bool
text_eq [] [] = true
text_eq [] (c ∷ t) = false
text_eq (c ∷ s) [] = false
text_eq (c ∷ s) (d ∷ t) = c == d && text_eq s t

abbrev pub discriminant : ValueType → ℕ
discriminant int_type = 0
discriminant float_type = 1
discriminant str_type = 2
discriminant bool_type = 3

abbrev pub option_eq {ℓ} : {A : Type ℓ} → (A → A → Bool) → Option A → Option A → Bool
option_eq eq none none = true
option_eq eq none (some b) = false
option_eq eq (some a) none = false
option_eq eq (some a) (some b) = eq a b

unfoldable pub value_eq : AttributeValue → AttributeValue → Bool
value_eq x y =
    option_eq (λ a b. discriminant a == discriminant b) x.ty y.ty
    && option_eq text_eq x.value y.value

-- `AttributeValue::none`
abbrev pub none_value : AttributeValue
none_value = record { ty = none; value = none }

abbrev pub from_string : Text → AttributeValue
from_string [] = record { ty = some str_type; value = none }
from_string (c ∷ s) = record { ty = some str_type; value = some (c ∷ s) }

abbrev pub is_some {ℓ} : {A : Type ℓ} → Option A → Bool
is_some none = false
is_some (some a) = true

-- `entries` is the order of `iter`, `update` an assignment through `iter_mut`.
pub record IndexMap (M : Type 0) : Type 0 where
  pub beq : M → M → Bool
  pub empty : M
  pub is_empty : M → Bool
  pub get : Text → M → Option AttributeValue
  pub insert : Text → AttributeValue → M → M
  pub remove : Text → M → M
  pub update : (Text → AttributeValue → AttributeValue) → M → M
  pub retain : (Text → AttributeValue → Bool) → M → M
  pub entries : M → List (Text × AttributeValue)

module _ {M : Type 0} (map : IndexMap M) where
  unfoldable pub contains_key : Text → M → Bool
  contains_key key m = is_some (map.get key m)

  -- A loop that inserts, for each entry, the value that `f` gives, if any.
  unfoldable pub insert_each :
      (Text → AttributeValue → Option AttributeValue) → List (Text × AttributeValue) → M → M
  insert_each f [] m = m
  insert_each f ((key, value) ∷ es) m = elim (f key value) [
    | none ↦ insert_each f es m
    | some new_value ↦ insert_each f es (map.insert key new_value m)
  ]

  unfoldable pub remove_value : Text → M → M
  remove_value key m = map.insert key none_value m

  unfoldable pub remove_all_value : M → M
  remove_all_value m = map.update (λ key value. none_value) m

  -- Whether a name is in the list.
  unfoldable pub is_among : List Text → Text → Bool
  is_among [] key = false
  is_among (k ∷ keys) key = if text_eq k key then true else is_among keys key

  unfoldable pub retain_values : List Text → M → M
  unfolding is_among
  retain_values retain_keys m =
      map.update (λ key value. if is_among retain_keys key then value else none_value) m

  unfoldable pub merge : Option M → M → M
  unfolding insert_each
  merge none m = m
  merge (some other) m = insert_each (λ key value. some value) (map.entries m) other

  -- The methods of the traits.
  unfoldable pub remove_none : M → M
  remove_none m = map.retain (λ key value. is_some value.value) m

  unfoldable pub extend : M → M → M
  unfolding insert_each
  extend m other = insert_each (λ key value. some value) (map.entries other) m

  unfoldable pub compose : M → M → Result M
  unfolding extend
  compose self other = ok (extend self other)

  -- The entries whose key the other map does not have.
  unfoldable pub without : M → M → M
  unfolding insert_each contains_key
  without self other =
      insert_each (λ key value. if contains_key key other then none else some value)
        (map.entries self) map.empty

  unfoldable pub transform : M → M → Result (M × M)
  unfolding without
  transform self other = ok (without self other, without other self)

  abbrev pub differs : M → M → Text → Bool
  differs self other key = not (option_eq value_eq (map.get key other) (map.get key self))

  unfoldable pub base_inverted : M → M → M
  unfolding insert_each contains_key
  base_inverted self other =
      insert_each
        (λ key value. if differs self other key && contains_key key self then some value else none)
        (map.entries other) map.empty

  unfoldable pub invert : M → M → M
  unfolding insert_each contains_key base_inverted
  invert self other =
      insert_each
        (λ key value.
          if differs self other key && not (contains_key key other) then some none_value else none)
        (map.entries self) (base_inverted self other)

  -- The attributes of a delta over such a map.
  abbrev pub attribute_hash_map : OperationAttributes M
  attribute_hash_map = record {
    beq = map.beq;
    empty = map.empty;
    is_empty = map.is_empty;
    remove = remove_none;
    extend = extend;
    compose = compose;
    transform = transform;
    invert = invert;
  }
