-- ===== src/Attributes/HashMap/Laws.antt =====
-- Looking up a name in attributes that were composed, transformed or inverted.
use app_flowy.Prelude.{
  ℕ, zero, suc, ◌≡◌, refl, sym, ap, ap₂, ◌∙◌, Bool, true, false, not, ◌&&◌, Option, none, some,
  List, [], ◌∷◌, ◌==◌, Bool-cases, Option-cases, inl, inr, if◌then◌else◌, arith,
}
use app_flowy.Errors.{ok}
use app_flowy.OtStr.{Text}
use app_flowy.Attributes.HashMap.{
  ValueType, int_type, float_type, str_type, bool_type, AttributeValue, text_eq, discriminant,
  option_eq, value_eq, none_value, is_some, IndexMap, contains_key, insert_each, extend, compose,
  without, transform, base_inverted, invert,
}

unfoldable pub lookup : Text → List (Text × AttributeValue) → Option AttributeValue
lookup key [] = none
lookup key ((k, v) ∷ es) = if text_eq key k then some v else lookup key es

-- Every key stands once.
abbrev pub IsApart : List (Text × AttributeValue) → Type 0
IsApart [] = Unit
IsApart ((k, v) ∷ es) = (lookup k es ≡ none) × IsApart es

-- What the code relies on: a map holds the value inserted last, and iterates over each key once.
pub record IndexMapLaws (M : Type 0) (map : IndexMap M) : Type 0 where
  pub get-empty : (key : Text) → map.get key map.empty ≡ none
  pub get-insert :
      (key k : Text) (v : AttributeValue) (m : M)
      → map.get key (map.insert k v m) ≡ (if text_eq key k then some v else map.get key m)
  pub get-entries : (key : Text) (m : M) → map.get key m ≡ lookup key (map.entries m)
  pub entries-IsApart : (m : M) → IsApart (map.entries m)

pub text_eq_sound : (s t : Text) → text_eq s t ≡ true → s ≡ t
unfolding text_eq
text_eq_sound [] [] h = refl
text_eq_sound [] (c ∷ t) h = cc
text_eq_sound (c ∷ s) [] h = cc
text_eq_sound (c ∷ s) (d ∷ t) h = elim (Bool-cases (c == d)) [
  | inl same ↦ ap₂ (◌∷◌) (ground arith) (text_eq_sound s t (rw same at h))
  | inr other ↦ absurd (ground arith)
]

pub text_eq_refl : (s : Text) → text_eq s s ≡ true
unfolding text_eq
text_eq_refl [] = refl
text_eq_refl (c ∷ s) = ground (arith, text_eq_refl s)

abbrev pub or_else {ℓ} : {A : Type ℓ} → Option A → Option A → Option A
or_else none o = o
or_else (some a) o = some a

abbrev pub given :
    (AttributeValue → Option AttributeValue) → Option AttributeValue → Option AttributeValue
given f none = none
given f (some v) = f v

module _ {M : Type 0} (map : IndexMap M) (laws : IndexMapLaws M map) where
  -- The loop inserts what `f` gives for the entry of the name.
  get-insert_each :
      (f : Text → AttributeValue → Option AttributeValue) (es : List (Text × AttributeValue))
      (m : M) (key : Text)
      → IsApart es
      → map.get key (insert_each map f es m)
        ≡ or_else (given (f key) (lookup key es)) (map.get key m)
  unfolding insert_each lookup
  get-insert_each f [] m key apart = refl
  get-insert_each f ((k, v) ∷ es) m key apart = elim (Bool-cases (text_eq key k)) [
    | inl same ↦
        let e : key ≡ k = text_eq_sound key k same in
        let gone : lookup key es ≡ none = rw e apart.0 in
        elim (Option-cases (f k v)) [
          | inl h ↦ rw (insert_each, h, get-insert_each f es m key apart.1, same, gone, e, h) refl
          | inr (w, h) ↦
              rw
                (
                  insert_each,
                  h,
                  get-insert_each f es (map.insert k w m) key apart.1,
                  laws.get-insert key k w m,
                  same,
                  gone,
                  e,
                  h,
                )
                refl
        ]
    | inr other ↦ elim (Option-cases (f k v)) [
      | inl h ↦ rw (insert_each, h, get-insert_each f es m key apart.1, other) refl
      | inr (w, h) ↦
          rw
            (
              insert_each,
              h,
              get-insert_each f es (map.insert k w m) key apart.1,
              laws.get-insert key k w m,
              other,
            )
            refl
    ]
  ]

  get-insert_each_entries :
      (f : Text → AttributeValue → Option AttributeValue) (other m : M) (key : Text)
      → map.get key (insert_each map f (map.entries other) m)
        ≡ or_else (given (f key) (map.get key other)) (map.get key m)
  get-insert_each_entries f other m key =
      rw (laws.get-entries key other)
        (get-insert_each f (map.entries other) m key (laws.entries-IsApart other))

  given-some : (o : Option AttributeValue) → given (λ v. some v) o ≡ o
  given-some none = refl
  given-some (some v) = refl

  get-extend :
      (m other : M) (key : Text)
      → map.get key (extend map m other) ≡ or_else (map.get key other) (map.get key m)
  unfolding extend
  get-extend m other key = rw (get-insert_each_entries (λ k v. some v) other m key, given-some) refl

  -- For a map with the laws, any two values of it and every name: composing returns a map with the
  -- later value of the name where there is one, and the earlier one otherwise.
  pub get-compose :
      (self other : M) (key : Text)
      → (m : M) × (compose map self other ≡ ok m)
        × (map.get key m ≡ or_else (map.get key other) (map.get key self))
  unfolding compose
  get-compose self other key = (extend map self other, refl, get-extend self other key)

  get-without :
      (self other : M) (key : Text)
      → map.get key (without map self other)
        ≡ (if is_some (map.get key other) then none else map.get key self)
  unfolding without contains_key
  get-without self other key =
      get-insert_each_entries _ self map.empty key ∙ rw laws.get-empty (by_value (map.get key self))
    where
      by_value :
          (o : Option AttributeValue)
          → or_else (given (λ v. if is_some (map.get key other) then none else some v) o) none
            ≡ (if is_some (map.get key other) then none else o)
      by_value o = ground arith

  extend-without :
      (self other : M) (key : Text)
      → map.get key (extend map self (without map other self))
        ≡ or_else (map.get key self) (map.get key other)
  extend-without self other key =
      rw (get-extend self (without map other self) key, get-without other self key)
        (by_values (map.get key self) (map.get key other))
    where
      by_values :
          (o p : Option AttributeValue) → or_else (if is_some o then none else p) o ≡ or_else o p
      by_values none none = refl
      by_values none (some v) = refl
      by_values (some v) p = refl

  -- For a map with the laws, any two values of it and every name: `transform` returns two maps with
  -- which each order of composition has the value of the map that it starts from, where that map has
  -- the name, and the value of the other one otherwise.
  pub transform-own :
      (self other : M) (key : Text)
      → (a b : M) × (transform map self other ≡ ok (a, b))
        × (map.get key (extend map self b) ≡ or_else (map.get key self) (map.get key other))
        × (map.get key (extend map other a) ≡ or_else (map.get key other) (map.get key self))
  unfolding transform
  transform-own self other key = (
    without map self other,
    without map other self,
    refl,
    extend-without self other key,
    extend-without other self key,
  )

value_type_eq : (a b : ValueType) → discriminant a ≡ discriminant b → a ≡ b
value_type_eq a b h = sym (back a) ∙ ap from_discriminant h ∙ back b
  where
    from_discriminant : ℕ → ValueType
    from_discriminant zero = int_type
    from_discriminant (suc zero) = float_type
    from_discriminant (suc (suc zero)) = str_type
    from_discriminant (suc (suc (suc n))) = bool_type

    back : (a : ValueType) → from_discriminant (discriminant a) ≡ a
    back int_type = refl
    back float_type = refl
    back str_type = refl
    back bool_type = refl

option_eq_sound {ℓ} :
    {A : Type ℓ} (eq : A → A → Bool)
    → ((a b : A) → eq a b ≡ true → a ≡ b)
    → (o p : Option A) → option_eq eq o p ≡ true
    → o ≡ p
option_eq_sound eq sound none none h = refl
option_eq_sound eq sound none (some b) h = cc
option_eq_sound eq sound (some a) none h = cc
option_eq_sound eq sound (some a) (some b) h = ap some (sound a b h)

both_true : (a b : Bool) → (a && b) ≡ true → (a ≡ true) × (b ≡ true)
both_true true b h = (refl, h)
both_true false b h = cc

value_eq_sound : (x y : AttributeValue) → value_eq x y ≡ true → x ≡ y
unfolding value_eq
value_eq_sound x y h =
    let (same_ty, same_value) = both_true _ _ h in
    ap₂ (λ t v. record { ty = t; value = v })
      (option_eq_sound _ (λ a b e. value_type_eq a b (ground arith)) x.ty y.ty same_ty)
      (option_eq_sound text_eq text_eq_sound x.value y.value same_value)

module _ {M : Type 0} (map : IndexMap M) (laws : IndexMapLaws M map) where
  -- For a map with the laws and every name: composing a base with attributes, and then with their
  -- inverse for that base, gives a name of the base its value again, any other name of the
  -- attributes the value that stands for none, and no value to the rest.
  pub compose-invert :
      (self base : M) (key : Text)
      → map.get key (extend map (extend map base self) (invert map self base))
        ≡ or_else (map.get key base) (if is_some (map.get key self) then some none_value else none)
  unfolding invert base_inverted contains_key
  compose-invert self base key =
      rw
        (
          get-extend map laws (extend map base self) (invert map self base) key,
          get-extend map laws base self key,
          invert,
          get-insert_each_entries map laws _ self (base_inverted map self base) key,
          base_inverted,
          get-insert_each_entries map laws _ base map.empty key,
          laws.get-empty key,
        )
        (undone (map.get key self) (map.get key base))
    where
      undone :
          (o p : Option AttributeValue)
          → or_else
              (or_else
                (given
                  (λ x.
                    if not (option_eq value_eq p o) && not (is_some p)
                    then some none_value
                    else none)
                  o)
                (or_else
                  (given
                    (λ x. if not (option_eq value_eq p o) && is_some o then some x else none)
                    p)
                  none))
              (or_else o p)
            ≡ or_else p (if is_some o then some none_value else none)
      undone none none = refl
      undone none (some w) = refl
      undone (some v) none = refl
      undone (some v) (some w) = elim (Bool-cases (value_eq w v)) [
        | inl same ↦ rw same (ap some (sym (value_eq_sound w v same)))
        | inr other ↦ rw other refl
      ]
