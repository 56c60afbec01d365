-- ===== src/Mbr/Capacity/Printed.antt =====
-- The text that determine_capacity of hdmbr/mbr.c prints, read back as a number.
use mathlib.Core.Path.{ap₂}
use native.Mathlib.Nat.{div-lt_iff_lt-mul, mod-eq-sub-div-mul, mod-lt, div-add-mod', pow-suc}
use c_modules.Base.{
  ==_iff, ne→==, inr, ltb→lt, inl, Bool-cases, ℕ, zero, suc, ◌+◌, ◌-◌, ◌*◌, ◌<◌, ◌≤◌, ◌^◌, ◌%◌, ◌/◌,
  ◌≡◌, Bool, true, false, not, ◌||◌, ◌&&◌, leb, ltb, ◌==◌, if◌then◌else◌, refl, ◌∙◌, ap, arith,
  List, [], ◌∷◌, ◌++◌, Option, none, some, length, ltb→lt, Bool-cases,
}
use c_modules.Base.Decimal.{decimal}
use c_modules.Mbr.Capacity.{
  decimal3, zeros, group_text, print_groups, AtaIdentifyDevice, determine_capacity, get_num_sectors,
}

abbrev pub is_digit : ℕ → Bool
is_digit c = leb 48 c && leb c 57

-- A reader of the text behind the first group: a comma and exactly three digits for each group.
unfoldable pub read_groups : ℕ → List ℕ → Option ℕ
read_groups acc [] = some acc
read_groups acc (c ∷ []) = none
read_groups acc (c ∷ x ∷ []) = none
read_groups acc (c ∷ x ∷ y ∷ []) = none
read_groups acc (c ∷ x ∷ y ∷ z ∷ rest) =
    let more = read_groups (acc * 1000 + ((x - 48) * 100 + (y - 48) * 10 + (z - 48))) rest in
    if (c == 44) && (is_digit x && (is_digit y && is_digit z)) then more else none

-- A reader of the first group, with at most `room` digits to come.
unfoldable pub read_number : (room : ℕ) → ℕ → List ℕ → Option ℕ
unfolding read_groups
read_number zero acc text = read_groups acc text
read_number (suc room) acc [] = some acc
read_number (suc room) acc (c ∷ rest) =
    let more = read_number room (acc * 10 + (c - 48)) rest in
    if is_digit c then more else read_groups acc (c ∷ rest)

-- A reader of a whole number: one to three digits, then the groups.
unfoldable pub read_text : List ℕ → Option ℕ
unfolding read_number
read_text [] = none
read_text (c ∷ rest) = let more = read_number 2 (c - 48) rest in if is_digit c then more else none

-- The weight of the next group when `n` groups are left.
unfoldable power : ℕ → ℕ
power zero = 1
power (suc n) = 1000 ^ n

power-pos : (n : ℕ) → 0 < 1000 ^ n
power-pos zero = omega arith
power-pos (suc n) = omega (arith, power-pos n, pow-suc 1000 n)

power_next : (n : ℕ) → (if not (n == 0) then power (suc n) / 1000 else power (suc n)) ≡ power n
unfolding power
power_next zero = refl
power_next (suc n) = grind (arith, pow-suc 1000 n)

-- One division step.
quotient-lt : (amount n : ℕ) → amount < 1000 ^ suc n → amount / power (suc n) < 1000
unfolding power
quotient-lt amount n lt =
    (div-lt_iff_lt-mul {y = 1000} (power-pos n)).1 (omega (arith, pow-suc 1000 n))

remainder-lt : (amount n : ℕ) → amount - amount / power (suc n) * power (suc n) < 1000 ^ n
unfolding power
remainder-lt amount n =
    omega (arith, mod-eq-sub-div-mul amount (1000 ^ n), mod-lt amount (power-pos n))

regroup :
    (acc q p r amount : ℕ)
    → q * p + r ≡ amount
    → (acc * 1000 + q) * p + r ≡ acc * (p * 1000) + amount
regroup acc q p r amount e = grind arith

-- What was read before, the group and the remainder make up one number.
quotient-split :
    (acc amount n : ℕ)
    → (acc * 1000 + amount / power (suc n)) * 1000 ^ n
        + (amount - amount / power (suc n) * power (suc n))
      ≡ acc * 1000 ^ suc n + amount
unfolding power
quotient-split acc amount n =
    regroup acc (amount / 1000 ^ n) (1000 ^ n) (amount - amount / 1000 ^ n * 1000 ^ n) amount
      (omega (arith, mod-eq-sub-div-mul amount (1000 ^ n), div-add-mod' amount (1000 ^ n)))
    ∙ ap (λ w. acc * w + amount) {x = 1000 ^ n * 1000} {y = 1000 ^ suc n}
        (omega (arith, pow-suc 1000 n))

decimal_one : (f n : ℕ) → n < 10 → decimal (suc f) n ≡ (48 + n) ∷ []
unfolding decimal
decimal_one f n lt = ground arith

decimal_two :
    (f n : ℕ) → 10 ≤ n → n < 100 → decimal (suc (suc f)) n ≡ (48 + n / 10) ∷ (48 + n % 10) ∷ []
unfolding decimal
decimal_two f n le lt = ground (arith, decimal_one f (n / 10) (omega arith))

decimal_three :
    (f n : ℕ)
    → 100 ≤ n
    → n < 1000
    → decimal (suc (suc (suc f))) n ≡ (48 + n / 10 / 10) ∷ (48 + n / 10 % 10) ∷ (48 + n % 10) ∷ []
unfolding decimal
decimal_three f n le lt = ground (arith, decimal_two f (n / 10) (omega arith) (omega arith))

data Digits (d : ℕ) : Type 0 where
  one : d < 10 → decimal 20 d ≡ (48 + d) ∷ [] → Digits d
  two : 10 ≤ d → d < 100 → decimal 20 d ≡ (48 + d / 10) ∷ (48 + d % 10) ∷ [] → Digits d
  three :
      100 ≤ d
      → decimal 20 d ≡ (48 + d / 10 / 10) ∷ (48 + d / 10 % 10) ∷ (48 + d % 10) ∷ []
      → Digits d

decimal-Digits : (d : ℕ) → d < 1000 → Digits d
decimal-Digits d lt = elim (Bool-cases (ltb d 10)) [
  | inl few ↦ one (ltb→lt d 10 few) (decimal_one 19 d (ltb→lt d 10 few))
  | inr more ↦ elim (Bool-cases (ltb d 100)) [
    | inl few ↦
        two (ground arith) (ltb→lt d 100 few) (decimal_two 18 d (ground arith) (ltb→lt d 100 few))
    | inr most ↦ three (ground arith) (decimal_three 17 d (ground arith) lt)
  ]
]

three_chars : (a b c x y z : ℕ) → a ≡ x → b ≡ y → c ≡ z → (a ∷ b ∷ c ∷ []) ≡ (x ∷ y ∷ z ∷ [])
three_chars a b c x y z p q r = cc

decimal3_lem :
    (d : ℕ) → d < 1000 → decimal3 d ≡ (48 + d / 10 / 10) ∷ (48 + d / 10 % 10) ∷ (48 + d % 10) ∷ []
unfolding decimal3
decimal3_lem d lt = elim (decimal-Digits d lt) [
  | one few e ↦
      ap (λ text. zeros (3 - length text) ++ text) e
      ∙ three_chars 48 48 (48 + d) (48 + d / 10 / 10) (48 + d / 10 % 10) (48 + d % 10) (omega arith)
          (omega arith) (omega arith)
  | two more few e ↦
      ap (λ text. zeros (3 - length text) ++ text) e
      ∙ three_chars 48 (48 + d / 10) (48 + d % 10) (48 + d / 10 / 10) (48 + d / 10 % 10)
          (48 + d % 10) (omega arith) (omega arith) (omega arith)
  | three more e ↦ ap (λ text. zeros (3 - length text) ++ text) e
]

digit : (n : ℕ) → n < 10 → is_digit (48 + n) ≡ true
digit n lt = ground arith

read_digit :
    (room acc n : ℕ) (rest : List ℕ)
    → n < 10
    → read_number (suc room) acc ((48 + n) ∷ rest) ≡ read_number room (acc * 10 + n) rest
unfolding read_number
read_digit room acc n rest lt =
    rw (digit n lt)
      (ap (λ m. read_number room (acc * 10 + m) rest) {x = 48 + n - 48} {y = n} (omega arith))

first_digit : (n : ℕ) (rest : List ℕ) → n < 10 → read_text ((48 + n) ∷ rest) ≡ read_number 2 n rest
unfolding read_text
first_digit n rest lt =
    rw (digit n lt) (ap (λ m. read_number 2 m rest) {x = 48 + n - 48} {y = n} (omega arith))

-- Of a text that does not go on with a digit the groups are read.
read_text-decimal :
    (d : ℕ) (rest : List ℕ)
    → d < 1000
    → ((room acc : ℕ) → read_number room acc rest ≡ read_groups acc rest)
    → read_text (decimal 20 d ++ rest) ≡ read_groups d rest
read_text-decimal d rest lt ends = elim (decimal-Digits d lt) [
  | one few e ↦ ap (λ text. read_text (text ++ rest)) e ∙ first_digit d rest few ∙ ends 2 d
  | two more few e ↦
      ap (λ text. read_text (text ++ rest)) e
      ∙ first_digit (d / 10) ((48 + d % 10) ∷ rest) (omega arith)
      ∙ read_digit 1 (d / 10) (d % 10) rest (omega arith)
      ∙ ends 1 _
      ∙ ap (λ n. read_groups n rest) (omega arith)
  | three more e ↦
      ap (λ text. read_text (text ++ rest)) e
      ∙ first_digit (d / 10 / 10) ((48 + d / 10 % 10) ∷ (48 + d % 10) ∷ rest) (omega arith)
      ∙ read_digit 1 (d / 10 / 10) (d / 10 % 10) ((48 + d % 10) ∷ rest) (omega arith)
      ∙ read_digit 0 (d / 10 / 10 * 10 + d / 10 % 10) (d % 10) rest (omega arith)
      ∙ ends 0 _
      ∙ ap (λ n. read_groups n rest) (omega arith)
]

-- A separator and a group of three digits.
read_group :
    (acc d : ℕ) (rest : List ℕ)
    → d < 1000
    → read_groups acc ((44 ∷ decimal3 d) ++ rest) ≡ read_groups (acc * 1000 + d) rest
unfolding read_groups
read_group acc d rest lt =
    ap (λ text. read_groups acc ((44 ∷ text) ++ rest)) (decimal3_lem d lt)
    ∙ rw
        (
          digit (d / 10 / 10) (omega arith),
          digit (d / 10 % 10) (omega arith),
          digit (d % 10) (omega arith),
        )
        refl
    ∙ ap (λ n. read_groups n rest)
        {x = acc * 1000
          + ((48 + d / 10 / 10 - 48) * 100 + (48 + d / 10 % 10 - 48) * 10 + (48 + d % 10 - 48))}
        {y = acc * 1000 + d} (omega arith)

-- The rounds behind the first group.
read_started :
    (n acc amount : ℕ)
    → amount < 1000 ^ n
    → read_groups acc (print_groups n true amount (power n)) ≡ some (acc * 1000 ^ n + amount)
unfolding print_groups group_text read_groups
read_started zero acc amount lt = ap some (omega arith)
read_started (suc n) acc amount lt =
    let d = amount / power (suc n) in
    read_group acc d
      (print_groups n true (amount - d * power (suc n))
        (if not (n == 0) then power (suc n) / 1000 else power (suc n)))
      (quotient-lt amount n lt)
    ∙ ap (λ p. read_groups (acc * 1000 + d) (print_groups n true (amount - d * power (suc n)) p))
        (power_next n)
    ∙ read_started n (acc * 1000 + d) (amount - d * power (suc n)) (remainder-lt amount n)
    ∙ ap some (quotient-split acc amount n)

-- Behind the first group no number goes on.
number_ends :
    (n amount pow room acc : ℕ)
    → read_number room acc (print_groups n true amount pow)
      ≡ read_groups acc (print_groups n true amount pow)
unfolding read_number read_groups print_groups group_text
number_ends n amount pow zero acc = refl
number_ends zero amount pow (suc room) acc = refl
number_ends (suc n) amount pow (suc room) acc = refl

read_first :
    (last : Bool) (d : ℕ) (rest : List ℕ)
    → (not (d == 0) || last) ≡ true
    → d < 1000
    → ((room acc : ℕ) → read_number room acc rest ≡ read_groups acc rest)
    → read_text (group_text false last d ++ rest) ≡ read_groups d rest
unfolding group_text
read_first last d rest first lt ends = rw first (read_text-decimal d rest lt ends)

-- From the round that prints the first digits.
read_begun :
    (n amount : ℕ)
    → amount < 1000 ^ suc n
    → (not (amount / power (suc n) == 0) || (n == 0)) ≡ true
    → read_text (print_groups (suc n) false amount (power (suc n))) ≡ some amount
unfolding print_groups
read_begun n amount lt first =
    let d = amount / power (suc n) in
    let rest = amount - d * power (suc n) in
    ap
      (λ begun. read_text (
        group_text false (n == 0) d
        ++ print_groups n begun rest
            (if not (n == 0) then power (suc n) / 1000 else power (suc n))))
      first
    ∙ ap (λ p. read_text (group_text false (n == 0) d ++ print_groups n true rest p)) (power_next n)
    ∙ read_first (n == 0) d (print_groups n true rest (power n)) first (quotient-lt amount n lt)
        (number_ends n rest (power n))
    ∙ read_started n d rest (remainder-lt amount n)
    ∙ ap (λ q. some (q * 1000 ^ n + rest)) {x = d} {y = 0 * 1000 + d} (omega arith)
    ∙ ap some (quotient-split 0 amount n)
    ∙ ap some (omega arith)

below : (n amount : ℕ) → amount / power (suc (suc n)) ≡ 0 → amount < 1000 ^ suc n
unfolding power
below n amount e =
    grind (arith, e, div-add-mod' amount (1000 ^ suc n), mod-lt amount (power-pos (suc n)))

-- A group of 0 before the first digits prints nothing.
read_skipped :
    (n amount : ℕ)
    → amount / power (suc (suc n)) ≡ 0
    → print_groups (suc (suc n)) false amount (power (suc (suc n)))
      ≡ print_groups (suc n) false amount (power (suc n))
unfolding print_groups group_text
read_skipped n amount none_yet =
    let next = if not (suc n == 0) then power (suc (suc n)) / 1000 else power (suc (suc n)) in
    ap₂
      (λ last d.
        group_text false last d
        ++ print_groups (suc n) (false || (not (d == 0) || last)) (amount - d * power (suc (suc n)))
            next)
      (ne→== (suc n) 0 (λ e. absurd (omega (arith, e)))) none_yet
    ∙ ap₂ (print_groups (suc n) false) {x = amount - 0 * power (suc (suc n))} {y = amount}
        (omega arith) (power_next (suc n))

read_all :
    (n amount : ℕ)
    → amount < 1000 ^ suc n
    → read_text (print_groups (suc n) false amount (power (suc n))) ≡ some amount
read_all zero amount lt = read_begun zero amount lt (ground arith)
read_all (suc n) amount lt = elim (Bool-cases (amount / power (suc (suc n)) == 0)) [
  | inl skip ↦
      let none_yet : amount / power (suc (suc n)) ≡ 0 =
        (==_iff (amount / power (suc (suc n))) 0).0 skip in
      ap (read_text) (read_skipped n amount none_yet) ∙ read_all n amount (below n amount none_yet)
  | inr first ↦ read_begun (suc n) amount lt (rw first refl)
]

-- The printed text is one to three digits and, for each further group, a comma and exactly three digits;
-- read so, it is the number of bytes that determine_capacity returns.
pub determine_capacity-read :
    (drive : AtaIdentifyDevice)
    → read_text (determine_capacity drive).text ≡ some (determine_capacity drive).bytes
unfolding determine_capacity power
determine_capacity-read drive = read_all 6 (get_num_sectors drive * 512 % 2 ^ 64) (omega arith)
