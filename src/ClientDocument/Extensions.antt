-- ===== src/ClientDocument/Extensions.antt =====
-- frontend/rust-lib/flowy-client-sync/src/client_document/extensions: the plain deletion, and where
-- formats change at the ends of lines (`line_break` of helper.rs). `none` is a panic: a slice behind the
-- text, or a subtraction below zero in a build that checks it.
use app_flowy.Prelude.{
  ℕ, ◌+◌, ◌-◌, true, false, Option, none, some, [], ◌∷◌, ◌++◌, length, length-append, ◌≡◌, ◌≤◌, ◌<◌,
  ◌⊎◌, inl, inr, refl, ap, ◌∙◌, Bool-cases, arith, ltb, ◌==◌, if◌then◌else◌,
}
use app_flowy.Interval
use app_flowy.Interval.{Interval}
use app_flowy.OtStr.{Text, utf8, utf8_char}
use app_flowy.Attributes.{OperationAttributes}
use app_flowy.Delta.Operation.{DeltaOperation, insert, len, get_data}
use app_flowy.Delta.Ops.{DeltaOperations, new, add_retain}
use app_flowy.Delta.Builder
use app_flowy.Delta.Builder.{build}
use app_flowy.Delta.Newline.{new_line, contains_newline}

pub data AttributeScope : Type 0 where
  inline_scope block_scope embeds_scope ignore_scope : AttributeScope

-- The scopes of which a line of an operation is retained.
abbrev pub Resolves : AttributeScope → Type 0
Resolves scope = (scope ≡ inline_scope) ⊎ (scope ≡ block_scope)

module _ {T : Type 0} ⦃attrs : OperationAttributes T⦄ where
  unfoldable pub default_delete : Interval → DeltaOperations T
  default_delete iv =
      build (Builder.delete (Interval.size iv) (Builder.retain iv.start (record { delta = new })))

  -- A line with its end, which was found at `at`.
  unfoldable pub retain_line :
      AttributeScope → T → ℕ → ℕ → DeltaOperations T → Option (DeltaOperations T)
  retain_line inline_scope a at start d =
      if ltb at start then none else some (add_retain 1 attrs.empty (add_retain (at - start) a d))
  retain_line block_scope a at start d =
      if ltb at start then none else some (add_retain 1 a (add_retain (at - start) attrs.empty d))
  retain_line embeds_scope a at start d = some d
  retain_line ignore_scope a at start d = some d

  -- What stands behind the last end of a line.
  abbrev pub retain_rest : AttributeScope → T → ℕ → DeltaOperations T → DeltaOperations T
  retain_rest inline_scope a n d = add_retain n a d
  retain_rest block_scope a n d = add_retain n attrs.empty d
  retain_rest embeds_scope a n d = d
  retain_rest ignore_scope a n d = d

  -- The loop, which slices the text behind each end of a line, character by character: `at` is the
  -- byte offset in the slice, and `start` that behind the last end of a line, in the slice before. At
  -- the end it gives `start`.
  unfoldable pub line_break_loop :
      AttributeScope → T → Text → ℕ → ℕ → DeltaOperations T → Option (ℕ × DeltaOperations T)
  unfolding retain_line
  line_break_loop scope a [] at start d = some (start, d)
  line_break_loop scope a (c ∷ s) at start d = elim (c == new_line) [
    | false ↦ line_break_loop scope a s (at + length (utf8_char c)) start d
    | true ↦ elim (retain_line scope a at start d) [
      | none ↦ none
      | some d' ↦ line_break_loop scope a s 0 (at + 1) d'
    ]
  ]

  unfoldable pub line_break : DeltaOperation T → AttributeScope → T → Option (DeltaOperations T)
  unfolding line_break_loop
  line_break op scope a = elim (line_break_loop scope a (get_data op) 0 0 new) [
    | none ↦ none
    | some (start, d) ↦
        if ltb start (len op) then some (retain_rest scope a (len op - start) d) else some d
  ]

  -- A line without its end only moves the offset.
  line_break_loop-append :
      (scope : AttributeScope) (a : T) (line s : Text) (at start : ℕ) (d : DeltaOperations T)
      → contains_newline line ≡ false
      → line_break_loop scope a (line ++ s) at start d
        ≡ line_break_loop scope a s (at + length (utf8 line)) start d
  unfolding line_break_loop contains_newline utf8
  line_break_loop-append scope a [] s at start d h =
      ap (λ n. line_break_loop scope a s n start d) (omega arith)
  line_break_loop-append scope a (c ∷ line) s at start d h = elim (Bool-cases (c == new_line)) [
    | inl newline ↦ absurd (ends_early newline h)
    | inr other ↦
        rw (other, line_break_loop)
          (line_break_loop-append scope a line s (at + length (utf8_char c)) start d (rw other at h)
            ∙ ap (λ n. line_break_loop scope a s n start d)
                (omega (arith, length-append (utf8_char c) (utf8 line))))
  ]
    where
      ends_early : c == new_line ≡ true → contains_newline (c ∷ line) ≡ false → ⊥
      ends_early e f = ground arith

  -- At the end of a line that is found before the start, there is no result.
  retain_line-none :
      (scope : AttributeScope) (a : T) (at start : ℕ) (d : DeltaOperations T)
      → Resolves scope
      → at < start
      → retain_line scope a at start d ≡ none
  unfolding retain_line
  retain_line-none inline_scope a at start d r h = ground arith
  retain_line-none block_scope a at start d r h = ground arith
  retain_line-none embeds_scope a at start d r h = elim r [ inl e ↦ cc | inr e ↦ cc ]
  retain_line-none ignore_scope a at start d r h = elim r [ inl e ↦ cc | inr e ↦ cc ]

  second_line-none :
      (scope : AttributeScope) (a : T) (line s : Text) (start : ℕ) (d : DeltaOperations T)
      → Resolves scope
      → contains_newline line ≡ false
      → length (utf8 line) < start
      → line_break_loop scope a (line ++ new_line ∷ s) 0 start d ≡ none
  unfolding line_break_loop
  second_line-none scope a line s start d r h l =
      line_break_loop-append scope a line (new_line ∷ s) 0 start d h
      ∙ rw
          (
            retain_line-none scope a (0 + length (utf8 line)) start d r (omega arith),
            line_break_loop,
          )
          refl

  first_line-none :
      (scope : AttributeScope) (a : T) (first second rest : Text) (d : DeltaOperations T)
      → Resolves scope
      → contains_newline first ≡ false
      → contains_newline second ≡ false
      → length (utf8 second) ≤ length (utf8 first)
      → line_break_loop scope a (first ++ new_line ∷ (second ++ new_line ∷ rest)) 0 0 d ≡ none
  unfolding line_break_loop
  first_line-none scope a first second rest d r h k l =
      line_break_loop-append scope a first (new_line ∷ second ++ new_line ∷ rest) 0 0 d h
      ∙ by_line (retain_line scope a (0 + length (utf8 first)) 0 d)
    where
      by_line :
          (o : Option (DeltaOperations T))
          → (elim o as (λ _. Option (ℕ × DeltaOperations T)) [
            | none ↦ none
            | some d' ↦
                line_break_loop scope a
                  (second ++ new_line ∷ rest)
                  0
                  (0 + length (utf8 first) + 1)
                  d'
          ])
            ≡ none
      by_line none = refl
      by_line (some d') = second_line-none scope a second rest _ d' r k (omega arith)

  -- For an insertion of a text with two ends of lines, where the second line has at most as many bytes
  -- as the first, and a format of lines or of blocks: `line_break` panics. The offset of the second end
  -- is counted from the second line, and the start from the first.
  pub line_break-none :
      (scope : AttributeScope) (a b : T) (first second rest : Text)
      → Resolves scope
      → contains_newline first ≡ false
      → contains_newline second ≡ false
      → length (utf8 second) ≤ length (utf8 first)
      → line_break (insert (first ++ new_line ∷ (second ++ new_line ∷ rest)) b) scope a ≡ none
  unfolding line_break
  line_break-none scope a b first second rest r h k l =
      rw (first_line-none scope a first second rest new r h k l, line_break) refl
