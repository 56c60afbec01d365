-- ===== src/Base/Padded.antt =====
-- Texts without a NUL, and the NULs that pad them in a buffer.
use Prim.Native.Nat.{ℕ, zero, suc, ◌-◌, ◌≤◌}
use mathlib.Core.Path.{◌≡◌, refl, ap, ◌∙◌}
use mathlib.Core.Logic.{◌≢◌}
use mathlib.Core.List.{List, [], ◌∷◌, ◌++◌}
use native.Mathlib.Omega.{arith}
use c_modules.Base.Tests.{ne→==}
use c_modules.Base.Text.{take, length, All, c_string, drop, replicate}

-- Bytes without a NUL.
abbrev pub IsPlain : List ℕ → Type 0
IsPlain = All (λ b. b ≢ 0)

pub drop-IsPlain : (n : ℕ) (xs : List ℕ) → IsPlain xs → IsPlain (drop n xs)
drop-IsPlain zero xs h = h
drop-IsPlain (suc n) [] h = h
drop-IsPlain (suc n) (x ∷ xs) h = drop-IsPlain n xs h.1

pub length-drop : (n : ℕ) (xs : List ℕ) → length (drop n xs) ≡ length xs - n
length-drop zero xs = omega arith
length-drop (suc n) [] = omega arith
length-drop (suc n) (x ∷ xs) = omega (arith, length-drop n xs)

pub length-replicate : (n c : ℕ) → length (replicate n c) ≡ n
length-replicate zero c = refl
length-replicate (suc n) c = ap suc (length-replicate n c)

pub c_string-plain : (xs : List ℕ) (k : ℕ) → IsPlain xs → c_string (xs ++ replicate k 0) ≡ xs
c_string-plain [] zero h = refl
c_string-plain [] (suc k) h = refl
c_string-plain (x ∷ xs) k h = rw (ne→== x 0 h.0) (ap (λ t. x ∷ t) (c_string-plain xs k h.1))

pub drop-replicate : (n k c : ℕ) → drop n (replicate k c) ≡ replicate (k - n) c
drop-replicate zero k c = let e : k ≡ k - 0 = omega arith in ap (λ m. replicate m c) e
drop-replicate (suc n) zero c = let e : 0 ≡ 0 - suc n = omega arith in ap (λ m. replicate m c) e
drop-replicate (suc n) (suc k) c =
    let e : k - n ≡ suc k - suc n = omega arith in drop-replicate n k c ∙ ap (λ m. replicate m c) e

pub drop-padded :
    (n : ℕ) (xs : List ℕ) (k : ℕ)
    → drop n (xs ++ replicate k 0) ≡ drop n xs ++ replicate (k - (n - length xs)) 0
drop-padded zero xs k =
    let e : k ≡ k - (0 - length xs) = omega arith in ap (λ m. xs ++ replicate m 0) e
drop-padded (suc n) [] k =
    let e : k - suc n ≡ k - (suc n - 0) = omega arith in
    drop-replicate (suc n) k 0 ∙ ap (λ m. replicate m 0) e
drop-padded (suc n) (x ∷ xs) k =
    let e : k - (n - length xs) ≡ k - (suc n - suc (length xs)) = omega arith in
    drop-padded n xs k ∙ ap (λ m. drop n xs ++ replicate m 0) e

pub c_string-cons : (c : ℕ) (cs : List ℕ) → c ≢ 0 → c_string (c ∷ cs) ≡ c ∷ c_string cs
c_string-cons c cs pos = rw (ne→== c 0 pos) refl

pub c_string-IsPlain : (text : List ℕ) → IsPlain text → c_string text ≡ text
c_string-IsPlain [] h = refl
c_string-IsPlain (c ∷ text) h =
    c_string-cons c text h.0 ∙ ap (λ t. c ∷ t) (c_string-IsPlain text h.1)

pub take-IsPlain : (n : ℕ) (text : List ℕ) → IsPlain text → IsPlain (take n text)
take-IsPlain zero text h = _
take-IsPlain (suc n) [] h = _
take-IsPlain (suc n) (c ∷ text) h = (h.0, take-IsPlain n text h.1)

pub length-take-le : (n : ℕ) (text : List ℕ) → length (take n text) ≤ length text
length-take-le zero text = omega arith
length-take-le (suc n) [] = omega arith
length-take-le (suc n) (c ∷ text) = omega (arith, length-take-le n text)
