-- ===== src/Base/Bits.antt =====
-- The bit operations of C at bytes and words, where the libraries have no law at variables.
use Prim.Native.Nat.{ℕ, zero, suc, ◌+◌, ◌*◌, ◌/◌, ◌%◌, ◌^◌, ◌≤◌, ◌<◌, bit_and, bit_or}
use mathlib.Core.Path.{◌≡◌, refl}
use mathlib.Core.Logic.{inl, inr}
use native.Mathlib.Omega.{arith}
use c_modules.Base.Tests.{◌==◌, ==_iff, if◌then◌else◌, Bool-cases}

-- At how many arguments below a bound two functions differ.
unfoldable pub mismatches : (f g : ℕ → ℕ) → ℕ → ℕ
mismatches f g zero = 0
mismatches f g (suc n) = (if f n == g n then 0 else 1) + mismatches f g n

eq_below : (f g : ℕ → ℕ) (bound x : ℕ) → mismatches f g bound ≡ 0 → x < bound → f x ≡ g x
unfolding mismatches
eq_below f g zero x e lt = absurd (omega arith)
eq_below f g (suc n) x e lt = elim (Bool-cases (x == n)) [
  | inl last ↦ let at : x ≡ n = (==_iff x n).0 last in rw at (ground arith)
  | inr before ↦ eq_below f g n x (omega arith) (ground arith)
]

-- An equation of bytes that evaluation finds true at all 256 of them.
pub byte_law : (f g : ℕ → ℕ) (x : ℕ) → mismatches f g 256 ≡ 0 → x < 256 → f x ≡ g x
byte_law f g x none_differs lt = eq_below f g 256 x none_differs lt

pub bit_and-255 : (x : ℕ) → x < 256 → bit_and x 255 ≡ x
unfolding mismatches
bit_and-255 x = byte_law (λ y. bit_and y 255) (λ y. y) x refl

pub bit_and_127 : (x : ℕ) → x < 256 → bit_and x 127 ≡ x % 128
unfolding mismatches
bit_and_127 x = byte_law (λ y. bit_and y 127) (λ y. y % 128) x refl

pub bit_and_15 : (x : ℕ) → x < 256 → bit_and x 15 ≡ x % 16
unfolding mismatches
bit_and_15 x = byte_law (λ y. bit_and y 15) (λ y. y % 16) x refl

-- `|` with bit 7 of a byte that has it.
set_bit_table : (x : ℕ) → x < 256 → bit_or (x % 128 + 128) 128 ≡ x % 128 + 128
unfolding mismatches
set_bit_table x = byte_law (λ y. bit_or (y % 128 + 128) 128) (λ y. y % 128 + 128) x refl

pub bit_or_128 : (x : ℕ) → 128 ≤ x → x < 256 → bit_or x 128 ≡ x
bit_or_128 x h k = let e : x % 128 + 128 ≡ x = omega arith in rw e at (set_bit_table x k)

-- Two nibbles, the high one shifted.
nibbles_table : (x : ℕ) → x < 256 → bit_or (x % 16) (x / 16 * 16) ≡ x
unfolding mismatches
nibbles_table x = byte_law (λ y. bit_or (y % 16) (y / 16 * 16)) (λ y. y) x refl

pub bit_or_nibbles : (lo hi : ℕ) → lo < 16 → hi < 16 → bit_or lo (hi * 16) ≡ lo + hi * 16
bit_or_nibbles lo hi h k = ground (arith, nibbles_table (lo + hi * 16))

-- One bit of a byte; `z` is the bit's number and the byte in one.
bit_table :
    (z : ℕ)
    → z < 2048
    → bit_and (z % 256) (2 ^ (z / 256)) ≡ z % 256 / 2 ^ (z / 256) % 2 * 2 ^ (z / 256)
unfolding mismatches
bit_table z lt =
    eq_below (λ y. bit_and (y % 256) (2 ^ (y / 256)))
      (λ y. y % 256 / 2 ^ (y / 256) % 2 * 2 ^ (y / 256)) 2048 z refl lt

pub bit_and_pow : (k x : ℕ) → k < 8 → x < 256 → bit_and x (2 ^ k) ≡ x / 2 ^ k % 2 * 2 ^ k
bit_and_pow k x hk hx =
    let e : (k * 256 + x) % 256 ≡ x = omega arith in
    let q : (k * 256 + x) / 256 ≡ k = omega arith in
    rw (e, q) at (bit_table (k * 256 + x) (omega arith))

pub bit_and_192 : (x : ℕ) → x < 256 → bit_and x 192 ≡ x / 64 * 64
unfolding mismatches
bit_and_192 x = byte_law (λ y. bit_and y 192) (λ y. y / 64 * 64) x refl
