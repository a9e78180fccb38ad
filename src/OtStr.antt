-- ===== src/OtStr.antt =====
-- shared-lib/lib-ot/src/core/ot_str.rs: `OTString`. A Rust `String` holds Unicode scalar values, here
-- numbers; `utf8` is the standard library's encoding of them (`str::as_bytes`). The iterator walks
-- the text, since every step of it takes the bytes of one scalar value.
pub mod Units
use app_flowy.Prelude.{
  ℕ, ◌+◌, ◌-◌, ◌/◌, ◌%◌, ◌<◌, Bool, ◌&&◌, ◌||◌, Option, none, some, List, [], ◌∷◌, ◌++◌, ltb, leb,
  is_nil, if◌then◌else◌,
}
use app_flowy.Interval.{Interval}

abbrev pub Text : Type 0
Text = List ℕ

unfoldable pub utf8_char : ℕ → List ℕ
utf8_char c =
    if ltb c 0x80
    then c ∷ []
    else if ltb c 0x800
    then (0xc0 + c / 64) ∷ (0x80 + c % 64) ∷ []
    else if ltb c 0x10000
    then (0xe0 + c / 4096) ∷ (0x80 + c / 64 % 64) ∷ (0x80 + c % 64) ∷ []
    else (0xf0 + c / 262144) ∷ (0x80 + c / 4096 % 64) ∷ (0x80 + c / 64 % 64) ∷ (0x80 + c % 64) ∷ []

unfoldable pub utf8 : Text → List ℕ
utf8 [] = []
utf8 (c ∷ s) = utf8_char c ++ utf8 s

-- `(b as i8) >= -0x40`
abbrev pub starts_char : ℕ → Bool
starts_char b = ltb b 0x80 || leb 0xc0 b

-- What one byte adds to the counter.
abbrev pub units_of_byte : ℕ → ℕ
units_of_byte b = (if starts_char b then 1 else 0) + (if leb 0xf0 b then 1 else 0)

unfoldable pub count_utf16_code_units : List ℕ → ℕ
count_utf16_code_units [] = 0
count_utf16_code_units (b ∷ bytes) = units_of_byte b + count_utf16_code_units bytes

unfoldable pub len_utf8_from_first_byte : ℕ → ℕ
len_utf8_from_first_byte b =
    if ltb b 0x80 then 1 else if ltb b 0xe0 then 2 else if ltb b 0xf0 then 3 else 4

unfoldable pub utf16_len : Text → ℕ
utf16_len s = count_utf16_code_units (utf8 s)

-- The byte at which the iterator stands, when the next scalar value is `c`.
unfoldable pub first_byte : ℕ → ℕ
first_byte c = elim (utf8_char c) [ [] ↦ 0 | b ∷ _ ↦ b ]

-- `rest` is the text from `byte_offset` on.
pub record Utf16CodeUnitIterator : Type 0 where
  pub rest : Text
  pub utf16_offset : ℕ
  pub utf16_count : ℕ

unfoldable pub utf16_iter : Text → Utf16CodeUnitIterator
utf16_iter s = record { rest = s; utf16_offset = 0; utf16_count = 0 }

-- The counters after the scalar value `c` was taken.
unfoldable pub advance : ℕ → Text → Utf16CodeUnitIterator → Utf16CodeUnitIterator
advance c rest it =
    let count = it.utf16_count + units_of_byte (first_byte c) in
    record {
      rest = rest;
      utf16_offset = if ltb 0 count then count - 1 else it.utf16_offset;
      utf16_count = count;
    }

-- `Iterator::next`; the item is the scalar value whose bytes are returned.
unfoldable pub next : Utf16CodeUnitIterator → Option ℕ × Utf16CodeUnitIterator
next it = elim it.rest [ [] ↦ (none, it) | c ∷ rest ↦ (some c, advance c rest it) ]

-- The loop of `sub_str` over what the iterator still yields.
unfoldable pub sub_str_loop : Interval → Text → Utf16CodeUnitIterator → Text
sub_str_loop iv [] it = []
sub_str_loop iv (c ∷ rest) it =
    let it' = advance c rest it in
    let more = sub_str_loop iv rest it' in
    if leb iv.start it'.utf16_offset && ltb it'.utf16_offset iv.end then c ∷ more else more

-- `from_utf8` succeeds on the bytes of whole scalar values.
unfoldable pub sub_str : Text → Interval → Option Text
unfolding sub_str_loop
sub_str s iv = let buf = sub_str_loop iv s (utf16_iter s) in if is_nil buf then none else some buf

-- `unwrap_or_else(|| "".to_owned())`
abbrev pub or_empty : Option Text → Text
or_empty none = []
or_empty (some s) = s
