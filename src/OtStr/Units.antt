-- ===== src/OtStr/Units.antt =====
-- Counting UTF-16 code units, and cutting a text at an offset in them.

use app_flowy.Prelude.{
  ℕ, zero, suc, ◌+◌, ◌≤◌, ◌<◌, ◌≡◌, refl, sym, ap, ◌∙◌, none, some, List, [], ◌∷◌, ◌++◌, ltb, All,
  length, take, drop, is_nil, take-nil, drop-nil, arith, if◌then◌else◌,
}
use app_flowy.Interval.{Interval, interval}
use app_flowy.OtStr.{
  Text, utf8_char, utf8, units_of_byte, count_utf16_code_units, utf16_len, first_byte,
  Utf16CodeUnitIterator, utf16_iter, advance, sub_str_loop, sub_str, or_empty,
}

-- The width of a scalar value in UTF-16.
abbrev pub char_units : ℕ → ℕ
char_units c = if ltb c 0x10000 then 1 else 2

abbrev pub text_units : Text → ℕ
text_units [] = 0
text_units (c ∷ s) = char_units c + text_units s

count-append :
    (xs ys : List ℕ)
    → count_utf16_code_units (xs ++ ys) ≡ count_utf16_code_units xs + count_utf16_code_units ys
unfolding count_utf16_code_units
count-append [] ys = omega arith
count-append (b ∷ xs) ys = omega (arith, count-append xs ys)

count-utf8_char : (c : ℕ) → count_utf16_code_units (utf8_char c) ≡ char_units c
unfolding count_utf16_code_units utf8_char
count-utf8_char c = ground arith

pub units-first_byte : (c : ℕ) → units_of_byte (first_byte c) ≡ char_units c
unfolding first_byte utf8_char
units-first_byte c = ground arith

-- For every text, the count over its UTF-8 bytes is the sum of the widths of its characters in
-- UTF-16: two from 0x10000 on, and one below.
pub utf16_len-eq-text_units : (s : Text) → utf16_len s ≡ text_units s
unfolding utf16_len utf8
utf16_len-eq-text_units [] = unfold count_utf16_code_units in refl
utf16_len-eq-text_units (c ∷ s) =
    omega (arith, count-append (utf8_char c) (utf8 s), count-utf8_char c, utf16_len-eq-text_units s)

-- Every scalar value takes one code unit.
abbrev pub IsBmp : Text → Type 0
IsBmp = All (λ c. c < 0x10000)

pub utf16_len-length : (s : Text) → IsBmp s → utf16_len s ≡ length s
utf16_len-length s h = utf16_len-eq-text_units s ∙ text_units-length s h
  where
    text_units-length : (s : Text) → IsBmp s → text_units s ≡ length s
    text_units-length [] h = refl
    text_units-length (c ∷ s) (hc, h) = ground (arith, text_units-length s h)

pub utf16_len-append : (s t : Text) → utf16_len (s ++ t) ≡ utf16_len s + utf16_len t
utf16_len-append [] t = omega (arith, utf16_len-eq-text_units [])
utf16_len-append (c ∷ s) t = omega (
  arith,
  utf16_len-eq-text_units (c ∷ s),
  utf16_len-eq-text_units s,
  utf16_len-eq-text_units t,
  utf16_len-eq-text_units (s ++ t),
  utf16_len-eq-text_units (c ∷ s ++ t),
  utf16_len-append s t,
)

pub utf16_len-eq-zero : (s : Text) → utf16_len s ≡ 0 → s ≡ []
utf16_len-eq-zero [] h = refl
utf16_len-eq-zero (c ∷ s) h = absurd (ground (arith, utf16_len-eq-text_units (c ∷ s)))

module _ (c : ℕ) (rest : Text) (it : Utf16CodeUnitIterator) where
  count-advance : (advance c rest it).utf16_count ≡ it.utf16_count + char_units c
  unfolding advance
  count-advance = rw units-first_byte

  -- After a step the offset is that of the last code unit taken.
  offset-advance : suc (advance c rest it).utf16_offset ≡ it.utf16_count + char_units c
  unfolding advance
  offset-advance = ground (arith, units-first_byte c)

-- Nothing that starts at offset `k` or later is selected below `k`.
loop-below :
    (k : ℕ) (s : Text) (it : Utf16CodeUnitIterator)
    → k ≤ it.utf16_count
    → sub_str_loop (interval 0 k) s it ≡ []
unfolding sub_str_loop
loop-below k [] it h = refl
loop-below k (c ∷ s) it h =
    ground (arith, count-advance c s it, offset-advance c s it, loop-below k s (advance c s it))

loop-from :
    (k e : ℕ) (s : Text) (it : Utf16CodeUnitIterator)
    → k ≤ it.utf16_count
    → it.utf16_count + text_units s ≤ e
    → sub_str_loop (interval k e) s it ≡ s
unfolding sub_str_loop
loop-from k e [] it h b = refl
loop-from k e (c ∷ s) it h b =
    ground (arith, count-advance c s it, offset-advance c s it, loop-from k e s (advance c s it))

loop-split :
    (k e : ℕ) (s : Text) (it : Utf16CodeUnitIterator)
    → it.utf16_count + text_units s ≤ e
    → sub_str_loop (interval 0 k) s it ++ sub_str_loop (interval k e) s it ≡ s
unfolding sub_str_loop
loop-split k e [] it b = refl
loop-split k e (c ∷ s) it b = ground (
  arith,
  count-advance c s it,
  offset-advance c s it,
  loop-split k e s (advance c s it),
  loop-below k s (advance c s it),
  loop-from k e s (advance c s it),
)

or_empty-sub_str :
    (s : Text) (iv : Interval) → or_empty (sub_str s iv) ≡ sub_str_loop iv s (utf16_iter s)
unfolding sub_str
or_empty-sub_str s iv = ground arith

-- For every text and every offset `k`, the pieces that `sub_str` takes below `k` and from `k` on
-- make up the text, also where `k` lies inside a surrogate pair; `none` stands for the empty
-- piece.
pub sub_str-append :
    (s : Text) (k : ℕ)
    → or_empty (sub_str s (interval 0 k)) ++ or_empty (sub_str s (interval k (utf16_len s))) ≡ s
unfolding utf16_iter
sub_str-append s k =
    simp or_empty-sub_str
      (loop-split k (utf16_len s) s (utf16_iter s) (omega (arith, utf16_len-eq-text_units s)))

loop-empty :
    (b e : ℕ) (s : Text) (it : Utf16CodeUnitIterator)
    → e ≤ it.utf16_count
    → sub_str_loop (interval b e) s it ≡ []
unfolding sub_str_loop
loop-empty b e [] it h = refl
loop-empty b e (c ∷ s) it h =
    ground (arith, count-advance c s it, offset-advance c s it, loop-empty b e s (advance c s it))

-- On a text of one-unit characters the loop selects by position.
loop-take :
    (k b e : ℕ) (s : Text) (it : Utf16CodeUnitIterator)
    → IsBmp s
    → b ≤ it.utf16_count
    → e ≡ it.utf16_count + k
    → sub_str_loop (interval b e) s it ≡ take k s
unfolding sub_str_loop
loop-take k b e [] it h l q = sym (take-nil k)
loop-take zero b e (c ∷ s) it h l q = loop-empty b e (c ∷ s) it (omega arith)
loop-take (suc k) b e (c ∷ s) it h l q =
    ground
      (arith, count-advance c s it, offset-advance c s it, loop-take k b e s (advance c s it) h.1)

loop-slice :
    (a k b e : ℕ) (s : Text) (it : Utf16CodeUnitIterator)
    → IsBmp s
    → b ≡ it.utf16_count + a
    → e ≡ b + k
    → sub_str_loop (interval b e) s it ≡ take k (drop a s)
unfolding sub_str_loop
loop-slice a k b e [] it h p q = sym (ap (take k) (drop-nil a) ∙ take-nil k)
loop-slice zero k b e (c ∷ s) it h p q = loop-take k b e (c ∷ s) it h (omega arith) (omega arith)
loop-slice (suc a) k b e (c ∷ s) it h p q =
    ground (
      arith,
      count-advance c s it,
      offset-advance c s it,
      loop-slice a k b e s (advance c s it) h.1,
    )

-- On a text of one-unit characters, `sub_str` of the `k` units from `a` on is that slice of the
-- text, and `none` where the slice is empty.
pub sub_str-slice :
    (s : Text) (a k : ℕ)
    → IsBmp s
    → sub_str s (interval a (a + k))
      ≡ (if is_nil (take k (drop a s)) then none else some (take k (drop a s)))
unfolding sub_str utf16_iter
sub_str-slice s a k h =
    ap (λ (buf : Text). if is_nil buf then none else some buf)
      (loop-slice a k a (a + k) s (utf16_iter s) h (omega arith) refl)
