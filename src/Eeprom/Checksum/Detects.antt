-- ===== src/Eeprom/Checksum/Detects.antt =====
-- Two memories that differ in one word, for the checksum loop of ftdi-eeprom/eeprom.c.
use c_modules.Base.{
  inr, ltb→lt, ==_iff, inl, ◌==◌, Bool-cases, le→ltb, ℕ, zero, suc, ◌+◌, ◌-◌, ◌*◌, ◌/◌, ◌%◌, ◌≤◌,
  ◌<◌, ◌≡◌, ◌≢◌, refl, ◌∙◌, bit_or, bit_xor, Memory, some, ltb, arith, lt→ltb,
}
use c_modules.Base.Xor.{bit_xor_cancel, bit_xor_comm, bit_xor-lt, bit_or_low}
use c_modules.Eeprom.Checksum.{word_at, checksum_step, checksum_loop, checksum, checksum_step-lt}

-- The rotation of a 16-bit word by one.
rotate_cancel :
    (x y : ℕ)
    → x < 65536
    → y < 65536
    → bit_or (x * 2) (x / 32768) % 65536 ≡ bit_or (y * 2) (y / 32768) % 65536
    → x ≡ y
rotate_cancel x y h k e =
    omega (arith, bit_or_low x (x / 32768) (omega arith), bit_or_low y (y / 32768) (omega arith))

-- One step keeps two checksums apart over the same word, and two words under the same checksum.
step_cancel :
    (c c' v v' : ℕ)
    → c < 65536
    → c' < 65536
    → v < 65536
    → v' < 65536
    → checksum_step c v ≡ checksum_step c' v'
    → bit_xor v c ≡ bit_xor v' c'
unfolding checksum_step
step_cancel c c' v v' h h' k k' e =
    rotate_cancel (bit_xor v c) (bit_xor v' c') (bit_xor-lt 16 v c k h) (bit_xor-lt 16 v' c' k' h')
      e

step_apart :
    (c c' v : ℕ)
    → c < 65536
    → c' < 65536
    → v < 65536
    → c ≢ c'
    → checksum_step c v ≢ checksum_step c' v
step_apart c c' v h h' k ne e =
    ne (
      bit_xor_cancel c c' v
        (bit_xor_comm c v ∙ step_cancel c c' v v h h' k k e ∙ bit_xor_comm v c'))

step_apart_word :
    (c v v' : ℕ)
    → c < 65536
    → v < 65536
    → v' < 65536
    → v ≢ v'
    → checksum_step c v ≢ checksum_step c v'
step_apart_word c v v' h k k' ne e = ne (bit_xor_cancel v v' c (step_cancel c c v v' h h k k' e))

word_at-lt : (m : Memory) (p : ℕ) → word_at m p < 65536
unfolding word_at
word_at-lt m p = omega arith

loop_more :
    (fuel n i c : ℕ) (m : Memory)
    → i < n
    → checksum_loop (suc fuel) n i c m
      ≡ checksum_loop fuel n ((i + 1) % 256) (checksum_step c (word_at m (i * 2))) m
unfolding checksum_loop
loop_more fuel n i c m lt = rw (lt→ltb i n lt) refl

loop_done : (fuel n i c : ℕ) (m : Memory) → n ≤ i → checksum_loop (suc fuel) n i c m ≡ some c
unfolding checksum_loop
loop_done fuel n i c m le = rw (le→ltb i n le) refl

module _ (m m' : Memory) (n : ℕ) (small : n ≤ 255) where
  -- Behind the change the words agree, and the difference stays.
  loop_differs :
      (fuel i c c' : ℕ)
      → n - i < fuel
      → i ≤ n
      → ((j : ℕ) → i ≤ j → j < n → word_at m (j * 2) ≡ word_at m' (j * 2))
      → c < 65536
      → c' < 65536
      → c ≢ c'
      → checksum_loop fuel n i c m ≢ checksum_loop fuel n i c' m'
  loop_differs zero i c c' enough le same h h' ne = absurd (omega arith)
  loop_differs (suc fuel) i c c' enough le same h h' ne = elim (Bool-cases (ltb i n)) [
    | inl more ↦
        let lt : i < n = ltb→lt i n more in
        let w = word_at m' (i * 2) in
        rw (loop_more fuel n i c m lt, loop_more fuel n i c' m' lt, same i (omega arith) lt)
          (loop_differs fuel ((i + 1) % 256) (checksum_step c w) (checksum_step c' w) (omega arith)
            (omega arith) (λ j a b. same j (omega arith) b) (checksum_step-lt c w)
            (checksum_step-lt c' w) (step_apart c c' w h h' (word_at-lt m' (i * 2)) ne))
    | inr done ↦
        let ge : n ≤ i = ground arith in
        rw (loop_done fuel n i c m ge, loop_done fuel n i c' m' ge) (λ e. ne (cc))
  ]

  -- The words agree but for number `k`.
  loop_differs_at :
      (fuel i k c : ℕ)
      → n - i < fuel
      → i ≤ k
      → k < n
      → ((j : ℕ) → j ≢ k → j < n → word_at m (j * 2) ≡ word_at m' (j * 2))
      → word_at m (k * 2) ≢ word_at m' (k * 2)
      → c < 65536
      → checksum_loop fuel n i c m ≢ checksum_loop fuel n i c m'
  loop_differs_at zero i k c enough le lt same apart h = absurd (omega arith)
  loop_differs_at (suc fuel) i k c enough le lt same apart h =
      let w = word_at m (i * 2) in
      let w' = word_at m' (i * 2) in
      rw (loop_more fuel n i c m (omega arith), loop_more fuel n i c m' (omega arith))
        (elim (Bool-cases (i == k)) [
          | inl here ↦
              let e : i ≡ k = (==_iff i k).0 here in
              let apart_i : w ≢ w' = rw e apart in
              loop_differs fuel ((i + 1) % 256) (checksum_step c w) (checksum_step c w')
                (omega arith) (omega arith) (λ j a b. same j (omega arith) b) (checksum_step-lt c w)
                (checksum_step-lt c w')
                (step_apart_word c w w' h (word_at-lt m (i * 2)) (word_at-lt m' (i * 2)) apart_i)
          | inr before ↦
              let ne : i ≢ k = ground arith in
              rw (same i ne (omega arith)) (
                loop_differs_at fuel ((i + 1) % 256) k (checksum_step c w') (omega arith)
                  (omega arith) lt same apart (checksum_step-lt c w'))
        ])

-- Two memories whose first `n` words differ in exactly one have different checksums.
pub checksum-differs :
    (m m' : Memory) (n k : ℕ)
    → n ≤ 255
    → k < n
    → ((j : ℕ) → j ≢ k → j < n → word_at m (j * 2) ≡ word_at m' (j * 2))
    → word_at m (k * 2) ≢ word_at m' (k * 2)
    → checksum n m ≢ checksum n m'
unfolding checksum
checksum-differs m m' n k small lt same apart =
    loop_differs_at m m' n small 256 0 k 0xAAAA (omega arith) (omega arith) lt same apart
      (omega arith)
