-- ===== src/Lollipop.antt =====
-- lollipop/lollipop.c: the order of 16-bit sequence numbers that run in a circle.
pub mod Circle
mod Examples
use c_modules.Base.{
  ℕ, ◌+◌, ◌-◌, ◌%◌, ◌^◌, Bool, true, false, ◌&&◌, ◌||◌, ltb, leb, List, [], ◌∷◌, Option, none, some,
}

abbrev pub rpl_lollipop_circular_region : ℕ
rpl_lollipop_circular_region = 65535

abbrev pub rpl_lollipop_sequence_windows : ℕ
rpl_lollipop_sequence_windows = 5

-- The macro, on `int`s that are not negative.
unfoldable pub lollipop_greater_than : (a b : ℕ) → Bool
lollipop_greater_than a b =
    (ltb b a && leb (a - b) rpl_lollipop_sequence_windows)
    || (ltb a b && leb (rpl_lollipop_circular_region + 1 - rpl_lollipop_sequence_windows) (b - a))

-- main by what atoi makes of its arguments, as bit patterns: -1, or the two results.
unfoldable pub compare_numbers : List ℕ → Option (Bool × Bool)
unfolding lollipop_greater_than
compare_numbers (x ∷ y ∷ []) =
    let a = x % 2 ^ 16 in
    let b = y % 2 ^ 16 in some (lollipop_greater_than a b, lollipop_greater_than b a)
compare_numbers numbers = none
