-- ===== src/Lollipop/Examples.antt =====
-- 2 comes behind 65533 on the circle.
use c_modules.Base.{◌≡◌, refl, arith, true, false, ◌↔◌, some, [], ◌∷◌}
use c_modules.Lollipop.{lollipop_greater_than, compare_numbers}
use c_modules.Lollipop.Circle.{IsAhead, lollipop_greater_than-IsAhead}

lollipop_greater_than-IsAhead_example :
    ((lollipop_greater_than 2 65533 ≡ true) ↔ IsAhead 2 65533)
    × (lollipop_greater_than 2 65533 ≡ true → lollipop_greater_than 65533 2 ≡ false)
lollipop_greater_than-IsAhead_example =
    lollipop_greater_than-IsAhead 2 65533 (omega arith) (omega arith)

-- Numbers that are far apart are not ordered.
far_apart : compare_numbers (10 ∷ 30000 ∷ []) ≡ some (false, false)
unfolding compare_numbers
far_apart = refl
