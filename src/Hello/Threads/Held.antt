-- ===== src/Hello/Threads/Held.antt =====
-- The bytes that the pipe of hello-driver/hello.c holds, as a list.
use c_modules.Base.{
  ℕ, zero, suc, ◌+◌, ◌<◌, ◌≤◌, ◌≡◌, refl, ap, ◌∙◌, arith, List, [], ◌∷◌, ◌++◌, if◌then◌else◌,
  length, Memory, write, ne→==, eq→==,
}
use mathlib.Core.List.{append_assoc}

-- The first `n` bytes of the memory.
unfoldable pub first_bytes : Memory → ℕ → List ℕ
first_bytes m zero = []
first_bytes m (suc n) = first_bytes m n ++ (m n ∷ [])

pub write-at : (m : Memory) (at c : ℕ) → write m at c at ≡ c
write-at m at c = ap (λ b. if b then c else m at) (eq→== at at refl)

pub write-other : (m : Memory) (at c k : ℕ) → k < at → write m at c k ≡ m k
write-other m at c k lt =
    ap (λ b. if b then c else m k) (ne→== k at (λ e. absurd (omega (arith, e, lt))))

pub first_bytes-write :
    (m : Memory) (at c n : ℕ) → n ≤ at → first_bytes (write m at c) n ≡ first_bytes m n
unfolding first_bytes
first_bytes-write m at c zero le = refl
first_bytes-write m at c (suc n) le =
    ap (λ l. l ++ (write m at c n ∷ [])) (first_bytes-write m at c n (omega arith))
    ∙ ap (λ x. first_bytes m n ++ (x ∷ [])) (write-other m at c n (omega arith))

-- A byte behind those that are there.
pub first_bytes-snoc :
    (m : Memory) (at c : ℕ) (left : List ℕ)
    → first_bytes (write m at c) (suc at) ++ left ≡ first_bytes m at ++ (c ∷ left)
unfolding first_bytes
first_bytes-snoc m at c left =
    ap (λ l. (l ++ (write m at c at ∷ [])) ++ left) (first_bytes-write m at c at (omega arith))
    ∙ ap (λ x. (first_bytes m at ++ (x ∷ [])) ++ left) (write-at m at c)
    ∙ append_assoc (first_bytes m at) (c ∷ []) left

pub length-first_bytes :
    (m : Memory) (n : ℕ) (left : List ℕ) → length (first_bytes m n ++ left) ≡ n + length left
unfolding first_bytes
length-first_bytes m zero left = omega arith
length-first_bytes m (suc n) left =
    ap length (append_assoc (first_bytes m n) (m n ∷ []) left)
    ∙ length-first_bytes m n (m n ∷ left)
    ∙ omega arith
