-- ===== src/Lollipop/Circle.antt =====
-- Which numbers lollipop/lollipop.c calls greater.
use c_modules.Base.{ℕ, ◌+◌, ◌-◌, ◌%◌, ◌<◌, ◌≤◌, ◌≡◌, arith, true, false, ◌↔◌, ◌⊎◌, inl, inr}
use c_modules.Lollipop.{lollipop_greater_than}

-- `a` comes one to five steps behind `b` on the circle of 65536 numbers.
abbrev pub IsAhead : (a b : ℕ) → Type 0
IsAhead a b = (k : ℕ) × (1 ≤ k) × (k ≤ 5) × (a ≡ (b + k) % 65536)

greater-window :
    (a b : ℕ)
    → (lollipop_greater_than a b ≡ true) ↔ ((b < a) × (a ≤ b + 5)) ⊎ ((a < b) × (65531 ≤ b - a))
unfolding lollipop_greater_than
greater-window a b = (λ e. ground arith, λ e. ground arith)

window-IsAhead :
    (a b : ℕ)
    → a < 65536
    → b < 65536
    → ((b < a) × (a ≤ b + 5)) ⊎ ((a < b) × (65531 ≤ b - a))
    → IsAhead a b
window-IsAhead a b ha hb (inl (lt, le)) = (a - b, omega arith, omega arith, omega arith)
window-IsAhead a b ha hb (inr (lt, le)) = (a + 65536 - b, omega arith, omega arith, omega arith)

IsAhead-window :
    (a b : ℕ)
    → a < 65536
    → b < 65536
    → IsAhead a b
    → ((b < a) × (a ≤ b + 5)) ⊎ ((a < b) × (65531 ≤ b - a))
IsAhead-window a b ha hb (k, one, five, e) = ground arith

greater-asym : (a b : ℕ) → lollipop_greater_than a b ≡ true → lollipop_greater_than b a ≡ false
unfolding lollipop_greater_than
greater-asym a b e = ground arith

-- For 16-bit numbers, `a` is greater than `b` exactly when `a` is one to five steps ahead of `b` on the
-- circle, and then `b` is not greater than `a`.
pub lollipop_greater_than-IsAhead :
    (a b : ℕ)
    → a < 65536
    → b < 65536
    → ((lollipop_greater_than a b ≡ true) ↔ IsAhead a b)
      × (lollipop_greater_than a b ≡ true → lollipop_greater_than b a ≡ false)
lollipop_greater_than-IsAhead a b ha hb =
    let (to, from) = greater-window a b in
    (
      (λ e. window-IsAhead a b ha hb (to e), λ k. from (IsAhead-window a b ha hb k)),
      greater-asym a b,
    )
