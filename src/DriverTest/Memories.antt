-- ===== src/DriverTest/Memories.antt =====
-- Texts in the memory of driver-test/main.c.
use c_modules.Base.{
  ℕ, zero, suc, ◌+◌, ◌<◌, ◌≤◌, ◌≡◌, refl, ap, ◌∙◌, arith, List, [], ◌∷◌, ◌++◌, length, get_or,
  Memory, ne→==, eq→==,
}
use c_modules.DriverTest.{store_bytes, read_bytes}

store_bytes-behind :
    (m : Memory) (at : ℕ) (text : List ℕ) (q : ℕ) → q < at → store_bytes m at text q ≡ m q
unfolding store_bytes
store_bytes-behind m at [] q lt = refl
store_bytes-behind m at (c ∷ text) q lt =
    rw (ne→== q at (omega arith)) (store_bytes-behind m (at + 1) text q (omega arith))

-- The text stands where it was stored.
pub store_bytes-at :
    (m : Memory) (at : ℕ) (text : List ℕ) (k : ℕ)
    → k < length text
    → store_bytes m at text (at + k) ≡ get_or text k 0
unfolding store_bytes
store_bytes-at m at [] k lt = absurd (omega arith)
store_bytes-at m at (c ∷ text) zero lt = rw (eq→== (at + 0) at (omega arith)) refl
store_bytes-at m at (c ∷ text) (suc k) lt = rw (ne→== (at + suc k) at (omega arith)) (
    ap (store_bytes m (at + 1) text) {x = at + suc k} {y = at + 1 + k} (omega arith)
    ∙ store_bytes-at m (at + 1) text k (omega arith))

pub read_bytes-same :
    (m m' : Memory) (at n : ℕ)
    → ((q : ℕ) → at ≤ q → m q ≡ m' q)
    → read_bytes m at n ≡ read_bytes m' at n
unfolding read_bytes
read_bytes-same m m' at zero same = refl
read_bytes-same m m' at (suc n) same =
    ap (λ b. b ∷ read_bytes m (at + 1) n) (same at (omega arith))
    ∙ ap (λ bs. m' at ∷ bs) (read_bytes-same m m' (at + 1) n (λ q le. same q (omega arith)))

-- A text that stands in memory is read, and what stands behind it.
pub read_bytes-text :
    (m : Memory) (at : ℕ) (text : List ℕ) (total n : ℕ)
    → total ≡ length text + n
    → ((k : ℕ) → k < length text → m (at + k) ≡ get_or text k 0)
    → read_bytes m at total ≡ text ++ read_bytes m (at + length text) n
unfolding read_bytes
read_bytes-text m at [] total n e holds =
    let at' : at ≡ at + 0 = omega arith in
    let all : total ≡ n = omega arith in ap (read_bytes m at) all ∙ ap (λ a. read_bytes m a n) at'
read_bytes-text m at (c ∷ text) zero n e holds = absurd (omega arith)
read_bytes-text m at (c ∷ text) (suc total) n e holds =
    let at' : at ≡ at + 0 = omega arith in
    let end : at + 1 + length text ≡ at + suc (length text) = omega arith in
    ap (λ b. b ∷ read_bytes m (at + 1) total) (ap m at' ∙ holds 0 (omega arith))
    ∙ ap (λ bs. c ∷ bs)
        (read_bytes-text m (at + 1) text total n (omega arith) (λ k lt.
            let there : at + 1 + k ≡ at + suc k = omega arith in
            ap m there ∙ holds (suc k) (omega arith))
          ∙ ap (λ a. text ++ read_bytes m a n) end)

pub get_or-append : (xs ys : List ℕ) (k : ℕ) → k < length xs → get_or (xs ++ ys) k 0 ≡ get_or xs k 0
get_or-append [] ys k lt = absurd (omega arith)
get_or-append (x ∷ xs) ys zero lt = refl
get_or-append (x ∷ xs) ys (suc k) lt = get_or-append xs ys k (omega arith)
