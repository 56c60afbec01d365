-- ===== src/Mbr/Text/Buffer.antt =====
-- Texts that stand in byte memory.
use c_modules.Base.{
  ap, ℕ, suc, ◌+◌, ◌<◌, ◌≡◌, ◌∙◌, List, [], ◌∷◌, ◌++◌, Memory, Holds, length, arith,
}

-- A text that stands somewhere stands in every memory that agrees there.
pub Holds-moved :
    (m m' : Memory) (p p' : ℕ) (s : List ℕ)
    → ((q : ℕ) → q < length s → m' (p' + q) ≡ m (p + q))
    → Holds m p s
    → Holds m' p' s
Holds-moved m m' p p' [] same h = tt
Holds-moved m m' p p' (c ∷ cs) same h =
    let first : m' p' ≡ m p =
      ap m' {x = p'} {y = p' + 0} (omega arith)
      ∙ same 0 (omega arith)
      ∙ ap m {x = p + 0} {y = p} (omega arith) in
    (
      first ∙ h.0,
      Holds-moved m m' (p + 1) (p' + 1) cs
          (λ q lt.
            ap m' {x = p' + 1 + q} {y = p' + suc q} (omega arith)
            ∙ same (suc q) (omega arith)
            ∙ ap m {x = p + suc q} {y = p + 1 + q} (omega arith))
          h.1,
    )

pub Holds-append :
    (m : Memory) (p : ℕ) (xs ys : List ℕ)
    → Holds m p (xs ++ ys)
    → Holds m p xs × Holds m (p + length xs) ys
Holds-append m p [] ys h = let e : p + 0 ≡ p = omega arith in (tt, rw e h)
Holds-append m p (x ∷ xs) ys h =
    let r = Holds-append m (p + 1) xs ys h.1 in
    let e : p + suc (length xs) ≡ p + 1 + length xs = omega arith in ((h.0, r.0), rw e r.1)
