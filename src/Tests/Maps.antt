-- ===== src/Tests/Maps.antt =====
-- Association lists as the ordered map of the attributes, and the theorems on attributes at them.
use app_flowy.Prelude.{
  ◌≡◌, refl, ◌∙◌, Bool, true, false, ◌&&◌, Option, none, some, List, [], ◌∷◌, inl, inr, is_nil,
  Bool-cases, if◌then◌else◌, arith,
}
use app_flowy.Errors.{ok}
use app_flowy.OtStr.{Text}
use app_flowy.Attributes.HashMap.{
  AttributeValue, IndexMap, text_eq, value_eq, option_eq, none_value, from_string, extend, compose,
  transform, invert,
}
use app_flowy.Attributes.HashMap.Laws.{
  lookup, IsApart, IndexMapLaws, text_eq_sound, text_eq_refl, or_else, get-compose, transform-own,
  compose-invert,
}

abbrev Entries : Type 0
Entries = List (Text × AttributeValue)

unfoldable drop_key : Text → Entries → Entries
drop_key key [] = []
drop_key key ((k, v) ∷ es) = if text_eq key k then drop_key key es else (k, v) ∷ drop_key key es

-- Each key once, with the entry in front.
unfoldable distinct : Entries → Entries
distinct [] = []
distinct ((k, v) ∷ es) = (k, v) ∷ drop_key k (distinct es)

unfoldable change : (Text → AttributeValue → AttributeValue) → Entries → Entries
change f [] = []
change f ((k, v) ∷ es) = (k, f k v) ∷ change f es

unfoldable select : (Text → AttributeValue → Bool) → Entries → Entries
select p [] = []
select p ((k, v) ∷ es) = if p k v then (k, v) ∷ select p es else select p es

unfoldable is_within : Entries → Entries → Bool
is_within other [] = true
is_within other ((k, v) ∷ es) = option_eq value_eq (lookup k other) (some v) && is_within other es

abbrev entry_map : IndexMap Entries
entry_map = record {
  beq = λ a b. is_within b (distinct a) && is_within a (distinct b);
  empty = [];
  is_empty = is_nil;
  get = lookup;
  insert = λ k v m. (k, v) ∷ m;
  remove = drop_key;
  update = change;
  retain = λ p m. select p (distinct m);
  entries = distinct;
}

lookup-drop_key :
    (key k : Text) (es : Entries)
    → lookup key (drop_key k es) ≡ (if text_eq key k then none else lookup key es)
unfolding lookup drop_key
lookup-drop_key key k [] = ground arith
lookup-drop_key key k ((j, v) ∷ es) = elim (Bool-cases (text_eq k j)) [
  | inl same ↦
      rw (drop_key, same, lookup-drop_key key k es, text_eq_sound k j same) (twice (text_eq key j))
  | inr other ↦ elim (Bool-cases (text_eq key j)) [
    | inl here ↦
        rw (drop_key, other, lookup, here)
          (elim (Bool-cases (text_eq key k)) [
            | inl e ↦ absurd (not_both (rw (text_eq_sound key k e) at here) other)
            | inr e ↦ rw e refl
          ])
    | inr there ↦ rw (drop_key, other, lookup, there, lookup-drop_key key k es) refl
  ]
]
  where
    twice :
        (b : Bool)
        → (if b then none else lookup key es)
          ≡ (if b then none else if b then some v else lookup key es)
    twice true = refl
    twice false = refl

    not_both : {b : Bool} → b ≡ true → b ≡ false → ⊥
    not_both h e = ground arith

IsApart-drop_key : (k : Text) (es : Entries) → IsApart es → IsApart (drop_key k es)
unfolding drop_key
IsApart-drop_key k [] h = tt
IsApart-drop_key k ((j, v) ∷ es) h = elim (Bool-cases (text_eq k j)) [
  | inl same ↦ rw same (IsApart-drop_key k es h.1)
  | inr other ↦
      rw other
        (lookup-drop_key j k es ∙ either (text_eq j k) (lookup j es) h.0, IsApart-drop_key k es h.1)
]
  where
    either : (b : Bool) (o : Option AttributeValue) → o ≡ none → (if b then none else o) ≡ none
    either true o e = refl
    either false o e = e

lookup-distinct : (key : Text) (es : Entries) → lookup key es ≡ lookup key (distinct es)
unfolding lookup distinct
lookup-distinct key [] = refl
lookup-distinct key ((k, v) ∷ es) = elim (Bool-cases (text_eq key k)) [
  | inl same ↦ rw same refl
  | inr other ↦ rw (other, lookup-drop_key key k (distinct es), other) (lookup-distinct key es)
]

distinct-IsApart : (es : Entries) → IsApart (distinct es)
unfolding distinct
distinct-IsApart [] = tt
distinct-IsApart ((k, v) ∷ es) = (
  lookup-drop_key k k (distinct es) ∙ rw (text_eq_refl k) refl,
  IsApart-drop_key k (distinct es) (distinct-IsApart es),
)

entry_map_laws : IndexMapLaws Entries entry_map
unfolding lookup
entry_map_laws = record {
  get-empty = λ key. refl;
  get-insert = λ key k v m. refl;
  get-entries = lookup-distinct;
  entries-IsApart = distinct-IsApart;
}

-- The names "b" and "i".
abbrev bold : Text
bold = 98 ∷ []

abbrev italic : Text
italic = 105 ∷ []

abbrev set_value : AttributeValue
set_value = from_string (121 ∷ [])

abbrev left : Entries
left = (bold, set_value) ∷ []

abbrev right : Entries
right = (italic, set_value) ∷ (bold, none_value) ∷ []

get-compose_example :
    (m : Entries) × (compose entry_map left right ≡ ok m)
    × (lookup bold m ≡ or_else (lookup bold right) (lookup bold left))
get-compose_example = get-compose entry_map entry_map_laws left right bold

transform-own_example :
    (a b : Entries) × (transform entry_map left right ≡ ok (a, b))
    × (lookup bold (extend entry_map left b) ≡ some set_value)
    × (lookup bold (extend entry_map right a) ≡ some none_value)
unfolding lookup text_eq
transform-own_example = transform-own entry_map entry_map_laws left right bold

compose-invert_example :
    lookup italic (extend entry_map (extend entry_map left right) (invert entry_map right left))
    ≡ some none_value
unfolding lookup text_eq
compose-invert_example = compose-invert entry_map entry_map_laws right left italic
