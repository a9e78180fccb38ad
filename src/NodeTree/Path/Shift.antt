-- ===== src/NodeTree/Path/Shift.antt =====
-- How `transform` moves paths: by levels, and past two changes in either order.
use app_flowy.Prelude.{
  ℕ, ◌+◌, ◌<◌, ◌≡◌, ◌≢◌, refl, sym, ap, ◌∙◌, [], ◌∷◌, length, leb, ◌==◌, if◌then◌else◌, Bool-cases,
  inl, inr, arith,
}
use app_flowy.NodeTree.Path.{NodePath, element, shares, transform}

-- Siblings from the position of the change on move by `offset`; a path that leaves the way to the
-- change stays.
unfoldable pub shifted : NodePath → NodePath → ℕ → NodePath
shifted [] other offset = other
shifted (x ∷ p) [] offset = []
shifted (x ∷ []) (y ∷ q) offset = (if leb x y then y + offset else y) ∷ q
shifted (x ∷ z ∷ p) (y ∷ q) offset = if x == y then y ∷ shifted (z ∷ p) q offset else y ∷ q

-- `transform` does at every level what `shifted` does.
pub transform-eq-shifted : (p q : NodePath) (offset : ℕ) → transform p q offset ≡ shifted p q offset
unfolding transform shifted shares element
transform-eq-shifted [] q offset = ground arith
transform-eq-shifted (x ∷ p) [] offset = ground arith
transform-eq-shifted (x ∷ []) (y ∷ q) offset = ground arith
transform-eq-shifted (x ∷ z ∷ p) (y ∷ q) offset =
    ground (arith, transform-eq-shifted (z ∷ p) q offset)

shifted-nil : (p : NodePath) (offset : ℕ) → shifted p [] offset ≡ []
unfolding shifted
shifted-nil [] offset = refl
shifted-nil (x ∷ p) offset = refl

length-shifted : (p q : NodePath) (offset : ℕ) → length (shifted p q offset) ≡ length q
unfolding shifted
length-shifted [] q offset = refl
length-shifted (x ∷ p) [] offset = refl
length-shifted (x ∷ []) (y ∷ q) offset = refl
length-shifted (x ∷ z ∷ p) (y ∷ q) offset = ground (arith, length-shifted (z ∷ p) q offset)

-- Past two changes, each moved past the other, a path comes out the same in either order.
abbrev Confluent : NodePath → NodePath → NodePath → ℕ → ℕ → Type 0
Confluent p q r n m =
    shifted (shifted p q n) (shifted p r n) m ≡ shifted (shifted q p m) (shifted q r m) n

Confluent-siblings :
    (x y : ℕ) (z : ℕ) (r : NodePath) (n m : ℕ) → Confluent (x ∷ []) (y ∷ []) (z ∷ r) n m
unfolding shifted
Confluent-siblings x y z r n m = ground arith

Confluent-below :
    (x y y' : ℕ) (q : NodePath) (z : ℕ) (r : NodePath) (n m : ℕ)
    → Confluent (x ∷ []) (y ∷ y' ∷ q) (z ∷ r) n m
unfolding shifted
Confluent-below x y y' q z r n m = ground arith

shifted-same :
    (x y : ℕ) (p q : NodePath) (offset : ℕ)
    → x ≡ y
    → 0 < length p
    → shifted (x ∷ p) (y ∷ q) offset ≡ y ∷ shifted p q offset
unfolding shifted
shifted-same x y [] q offset e l = absurd (omega arith)
shifted-same x y (z ∷ p) q offset e l = ground arith

shifted-apart :
    (x y : ℕ) (p q : NodePath) (offset : ℕ)
    → x ≢ y
    → 0 < length p
    → shifted (x ∷ p) (y ∷ q) offset ≡ y ∷ q
unfolding shifted
shifted-apart x y [] q offset e l = absurd (omega arith)
shifted-apart x y (z ∷ p) q offset e l = ground arith

-- Below different siblings the two changes do not meet.
module _ (x y z : ℕ) (p q r : NodePath) (n m : ℕ) (lp : 0 < length p) (lq : 0 < length q) where
  Confluent-same : x ≡ y → Confluent p q r n m → Confluent (x ∷ p) (y ∷ q) (z ∷ r) n m
  Confluent-same e h = elim (Bool-cases (x == z)) [
    | inl same ↦
        let f : x ≡ z = ground arith in
        rw
          (
            shifted-same x y p q n e lp,
            shifted-same x z p r n f lp,
            shifted-same y x q p m (sym e) lq,
            shifted-same y z q r m (sym e ∙ f) lq,
            shifted-same y z (shifted p q n) (shifted p r n) m (sym e ∙ f)
                (omega (arith, length-shifted p q n)),
            shifted-same x z (shifted q p m) (shifted q r m) n f
                (omega (arith, length-shifted q p m)),
          )
          (ap (z ∷◌) h)
    | inr other ↦
        let f : x ≢ z = ground arith in
        let g : y ≢ z = ground arith in
        rw
          (
            shifted-same x y p q n e lp,
            shifted-apart x z p r n f lp,
            shifted-same y x q p m (sym e) lq,
            shifted-apart y z q r m g lq,
            shifted-apart y z (shifted p q n) r m g (omega (arith, length-shifted p q n)),
            shifted-apart x z (shifted q p m) r n f (omega (arith, length-shifted q p m)),
          )
          refl
  ]

  Confluent-apart : x ≢ y → Confluent (x ∷ p) (y ∷ q) (z ∷ r) n m
  Confluent-apart e =
      rw (shifted-apart x y p q n e lp, shifted-apart y x q p m (λ d. e (sym d)) lq)
        (elim (Bool-cases (x == z)) [
          | inl same ↦
              let f : x ≡ z = ground arith in
              let g : y ≢ z = ground arith in
              rw
                (
                  shifted-same x z p r n f lp,
                  shifted-apart y z q (shifted p r n) m g lq,
                  shifted-apart y z q r m g lq,
                  shifted-same x z p r n f lp,
                )
                refl
          | inr other ↦
              let f : x ≢ z = ground arith in
              rw (shifted-apart x z p r n f lp) (elim (Bool-cases (y == z)) [
                | inl same ↦
                    let g : y ≡ z = ground arith in
                    rw (shifted-same y z q r m g lq, shifted-apart x z p (shifted q r m) n f lp)
                      refl
                | inr apart ↦
                    let g : y ≢ z = ground arith in
                    rw (shifted-apart y z q r m g lq, shifted-apart x z p r n f lp) refl
              ])
        ])

  Confluent-both_below : Confluent p q r n m → Confluent (x ∷ p) (y ∷ q) (z ∷ r) n m
  Confluent-both_below h = elim (Bool-cases (x == y)) [
    | inl same ↦ Confluent-same (ground arith) h
    | inr other ↦ Confluent-apart (ground arith)
  ]

shifted-Confluent : (p q r : NodePath) (n m : ℕ) → Confluent p q r n m
shifted-Confluent [] q r n m = unfold shifted in rw (shifted-nil q m) refl
shifted-Confluent (x ∷ p) [] r n m = unfold shifted in refl
shifted-Confluent (x ∷ p) (y ∷ q) [] n m =
    unfold shifted in
    shifted-nil (shifted (x ∷ p) (y ∷ q) n) m ∙ sym (shifted-nil (shifted (y ∷ q) (x ∷ p) m) n)
shifted-Confluent (x ∷ []) (y ∷ []) (z ∷ r) n m = Confluent-siblings x y z r n m
shifted-Confluent (x ∷ []) (y ∷ y' ∷ q) (z ∷ r) n m = Confluent-below x y y' q z r n m
shifted-Confluent (x ∷ x' ∷ p) (y ∷ []) (z ∷ r) n m = sym (Confluent-below y x x' p z r m n)
shifted-Confluent (x ∷ x' ∷ p) (y ∷ y' ∷ q) (z ∷ r) n m =
    Confluent-both_below x y z (x' ∷ p) (y' ∷ q) r n m (omega arith) (omega arith)
      (shifted-Confluent (x' ∷ p) (y' ∷ q) r n m)

-- For any two changes at paths `p` and `q` and any path `r`: moving `r` past the change at `p` and
-- then past the one at `q`, which is itself moved past `p`, gives the same path as the other order.
pub transform-transform :
    (p q r : NodePath) (n m : ℕ)
    → transform (transform p q n) (transform p r n) m
      ≡ transform (transform q p m) (transform q r m) n
transform-transform p q r n m = simp transform-eq-shifted (shifted-Confluent p q r n m)

shifted-injective :
    (p q r : NodePath) (offset : ℕ) → shifted p q offset ≡ shifted p r offset → q ≡ r
unfolding shifted
shifted-injective [] q r offset h = h
shifted-injective (x ∷ p) [] [] offset h = refl
shifted-injective (x ∷ []) [] (z ∷ r) offset h = cc
shifted-injective (x ∷ x' ∷ p) [] (z ∷ r) offset h =
    absurd (omega (arith, length-shifted (x ∷ x' ∷ p) (z ∷ r) offset, ap length h))
shifted-injective (x ∷ []) (y ∷ q) [] offset h = cc
shifted-injective (x ∷ x' ∷ p) (y ∷ q) [] offset h =
    absurd (omega (arith, length-shifted (x ∷ x' ∷ p) (y ∷ q) offset, ap length h))
shifted-injective (x ∷ []) (y ∷ q) (z ∷ r) offset h = ground arith
shifted-injective (x ∷ x' ∷ p) (y ∷ q) (z ∷ r) offset h =
    ground (arith, shifted-injective (x' ∷ p) q r offset)

-- For any path and offset of a change, two paths that it moves to one path are the same.
pub transform-injective :
    (p q r : NodePath) (offset : ℕ) → transform p q offset ≡ transform p r offset → q ≡ r
transform-injective p q r offset h =
    shifted-injective p q r offset
      (sym (transform-eq-shifted p q offset) ∙ h ∙ transform-eq-shifted p r offset)
