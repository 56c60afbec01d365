-- ===== src/Base/Bytes.antt =====
-- Byte memory that a pointer argument points into, addressed from that pointer.
use Prim.Native.Nat.{ℕ, ◌+◌}
use mathlib.Core.Path.{◌≡◌}
use mathlib.Core.List.{List, [], ◌∷◌}
use c_modules.Base.Tests.{ltb, ◌==◌, if◌then◌else◌}

abbrev pub Memory : Type 0
Memory = ℕ → ℕ

-- `m[p] = v`
abbrev pub write : Memory → ℕ → ℕ → Memory
write m p v q = if q == p then v else m q

-- `memset(m, v, n)`
abbrev pub memset : Memory → ℕ → ℕ → Memory
memset m v n q = if ltb q n then v else m q

-- `s` stands in `m` from `p` on.
abbrev pub Holds : Memory → ℕ → List ℕ → Type 0
Holds m p [] = Unit {0}
Holds m p (c ∷ cs) = (m p ≡ c) × Holds m (p + 1) cs
