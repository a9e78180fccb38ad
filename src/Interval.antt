-- ===== src/Interval.antt =====
-- shared-lib/lib-ot/src/core/interval.rs: closed-open ranges of offsets.
pub mod Laws
use app_flowy.Prelude.{ℕ, ◌+◌, ◌-◌, ◌≤◌, ◌<◌, min, max, Bool, not, ◌&&◌, ltb, leb, if◌then◌else◌}

pub record Interval : Type 0 where
  pub start : ℕ
  pub end : ℕ

abbrev pub interval : ℕ → ℕ → Interval
interval a b = record { start = a; end = b }

unfoldable pub is_before : Interval → ℕ → Bool
is_before iv val = leb iv.end val

unfoldable pub contains : Interval → ℕ → Bool
contains iv val = leb iv.start val && ltb val iv.end

unfoldable pub is_after : Interval → ℕ → Bool
is_after iv val = ltb val iv.start

unfoldable pub is_empty : Interval → Bool
is_empty iv = leb iv.end iv.start

unfoldable pub intersect : Interval → Interval → Interval
intersect iv other =
    let start = max iv.start other.start in
    let end = min iv.end other.end in interval start (max start end)

unfoldable pub contains_range : Interval → ℕ → ℕ → Bool
unfolding is_empty intersect
contains_range iv start end = not (is_empty (intersect iv (interval start end)))

-- The first half of `iv - other`.
unfoldable pub prefix : Interval → Interval → Interval
prefix iv other = interval (min iv.start other.start) (min iv.end other.start)

-- The second half of `iv - other`.
unfoldable pub suffix : Interval → Interval → Interval
suffix iv other = interval (max iv.start other.end) (max iv.end other.end)

unfoldable pub translate : Interval → ℕ → Interval
translate iv amount = interval (iv.start + amount) (iv.end + amount)

unfoldable pub translate_neg : Interval → ℕ → Interval
translate_neg iv amount = interval (iv.start - amount) (iv.end - amount)

unfoldable pub union : Interval → Interval → Interval
unfolding is_empty
union iv other =
    if is_empty iv
    then other
    else if is_empty other
    then iv
    else interval (min iv.start other.start) (max iv.end other.end)

unfoldable pub size : Interval → ℕ
size iv = iv.end - iv.start
