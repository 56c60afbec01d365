-- ===== src/Mbr/Capacity/Sectors.antt =====
-- The sector count of get_num_sectors in hdmbr/mbr.c as arithmetic on the 16-bit words.
use c_modules.Base.{
  ℕ, ◌+◌, ◌*◌, ◌<◌, ◌^◌, ◌%◌, ◌≡◌, ◌/◌, Bool, not, ◌&&◌, ltb, ◌==◌, if◌then◌else◌, bit_and, bit_or,
  ◌∙◌, ap, arith,
}
use mathlib.Core.Path.{ap₂}
use c_modules.Base.Xor.{bit_or_above, bit_and_256}
use c_modules.Base.Bits.{bit_and_pow, bit_and_192}
use c_modules.Mbr.Capacity.{AtaIdentifyDevice, supports_lba48, get_num_sectors}

-- The words are 16 bits wide.
pub record Is16Bit (drive : AtaIdentifyDevice) : Type 0 where
  pub low : (k : ℕ) → drive.words047_079 k < 65536
  pub high : (k : ℕ) → drive.words088_255 k < 65536
  pub command_set : drive.command_set_2 < 65536

-- The number that the words `lo`, `hi` make up.
abbrev pub two_words : (lo hi : ℕ) → ℕ
two_words lo hi = lo + hi * 65536

abbrev pub four_words : (a b c d : ℕ) → ℕ
four_words a b c d = a + b * 65536 + c * 4294967296 + d * 281474976710656

two_words-bits :
    (lo hi : ℕ) → lo < 65536 → hi < 65536 → bit_or (hi * 2 ^ 16 % 2 ^ 32) lo ≡ two_words lo hi
two_words-bits lo hi l h =
    ap (λ t. bit_or t lo) {x = hi * 2 ^ 16 % 2 ^ 32} {y = hi * 2 ^ 16} (omega arith)
    ∙ bit_or_above 16 hi lo (omega arith)
    ∙ omega arith

four_words-bits :
    (a b c d : ℕ)
    → a < 65536
    → b < 65536
    → c < 65536
    → d < 65536
    → bit_or (bit_or (bit_or (d * 2 ^ 48 % 2 ^ 64) (c * 2 ^ 32 % 2 ^ 64)) (b * 2 ^ 16 % 2 ^ 64)) a
      ≡ four_words a b c d
four_words-bits a b c d ha hb hc hd =
    let top : bit_or (d * 2 ^ 48 % 2 ^ 64) (c * 2 ^ 32 % 2 ^ 64) ≡ (d * 65536 + c) * 2 ^ 32 =
      ap₂ bit_or {x = d * 2 ^ 48 % 2 ^ 64} {y = d * 2 ^ 48} {u = c * 2 ^ 32 % 2 ^ 64}
        {v = c * 2 ^ 32} (omega arith) (omega arith)
      ∙ bit_or_above 48 d (c * 2 ^ 32) (omega arith)
      ∙ omega arith in
    let middle : bit_or ((d * 65536 + c) * 2 ^ 32) (b * 2 ^ 16 % 2 ^ 64)
        ≡ ((d * 65536 + c) * 65536 + b) * 2 ^ 16 =
      ap (bit_or ((d * 65536 + c) * 2 ^ 32)) {x = b * 2 ^ 16 % 2 ^ 64} {y = b * 2 ^ 16}
        (omega arith)
      ∙ bit_or_above 32 (d * 65536 + c) (b * 2 ^ 16) (omega arith)
      ∙ omega arith in
    ap (λ t. bit_or (bit_or t (b * 2 ^ 16 % 2 ^ 64)) a) top
    ∙ ap (λ t. bit_or t a) middle
    ∙ bit_or_above 16 ((d * 65536 + c) * 65536 + b) a (omega arith)
    ∙ omega arith

abbrev pub larger : ℕ → ℕ → ℕ
larger a b = if ltb a b then b else a

-- Bit 9 of word 49, and of word 83 bit 10 with the two highest bits 01.
abbrev pub has_lba : AtaIdentifyDevice → Bool
has_lba drive = drive.words047_079 2 / 512 % 2 == 1

abbrev pub has_lba48 : AtaIdentifyDevice → Bool
has_lba48 drive = (drive.command_set_2 / 16384 == 1) && (drive.command_set_2 / 1024 % 2 == 1)

-- The count as the ATA standard defines it: words 60 and 61 for 28-bit addressing, words 100 to 103
-- for 48-bit addressing, the larger of both where both are supported.
unfoldable pub sector_count : AtaIdentifyDevice → ℕ
sector_count drive =
    let lba28 = two_words (drive.words047_079 13) (drive.words047_079 14) in
    let lba48 =
      four_words (drive.words088_255 12) (drive.words088_255 13) (drive.words088_255 14)
        (drive.words088_255 15) in
    if has_lba drive then larger (if has_lba48 drive then lba48 else 0) lba28 else 0

mask_9 : (w : ℕ) → w < 65536 → bit_and w 0x0200 ≡ w / 512 % 2 * 512
mask_9 w lt = omega (arith, bit_and_256 w 2, bit_and_pow 1 (w / 256) (omega arith) (omega arith))

mask_10 : (w : ℕ) → w < 65536 → bit_and w 0x0400 ≡ w / 1024 % 2 * 1024
mask_10 w lt = omega (arith, bit_and_256 w 4, bit_and_pow 2 (w / 256) (omega arith) (omega arith))

mask_14 : (w : ℕ) → w < 65536 → bit_and w 0xc000 ≡ w / 16384 * 16384
mask_14 w lt = omega (arith, bit_and_256 w 192, bit_and_192 (w / 256) (omega arith))

supports_lba48-has_lba48 :
    (drive : AtaIdentifyDevice) → Is16Bit drive → supports_lba48 drive ≡ has_lba48 drive
unfolding supports_lba48
supports_lba48-has_lba48 drive wide =
    ap₂ (λ a b. (a == 0x4000) && not (b == 0)) (mask_14 drive.command_set_2 wide.command_set)
      (mask_10 drive.command_set_2 wide.command_set)
    ∙ ap₂ ◌&&◌ {x = drive.command_set_2 / 16384 * 16384 == 0x4000}
        {y = drive.command_set_2 / 16384 == 1}
        {u = not (drive.command_set_2 / 1024 % 2 * 1024 == 0)}
        {v = drive.command_set_2 / 1024 % 2 == 1} (ground arith) (ground arith)

if_lba :
    (w count : ℕ)
    → w < 65536
    → (if bit_and w 0x0200 == 0 then 0 else count) ≡ (if w / 512 % 2 == 1 then count else 0)
if_lba w count lt = ap (λ b. if b == 0 then 0 else count) (mask_9 w lt) ∙ ground arith

-- For 16-bit words, get_num_sectors gives 0 without bit 9 of word 49, and else the larger of the count
-- of words 60 and 61 and, where word 83 has bit 10 and 01 at its top, that of words 100 to 103, each
-- a sum of words.
pub get_num_sectors-sector_count :
    (drive : AtaIdentifyDevice) → Is16Bit drive → get_num_sectors drive ≡ sector_count drive
unfolding get_num_sectors sector_count
get_num_sectors-sector_count drive wide =
    ap₂
      (λ p q.
        if bit_and (drive.words047_079 2) 0x0200 == 0
        then 0
        else larger (if supports_lba48 drive then p else 0) q)
      (four_words-bits (drive.words088_255 12) (drive.words088_255 13) (drive.words088_255 14)
        (drive.words088_255 15) (wide.high 12) (wide.high 13) (wide.high 14) (wide.high 15))
      (two_words-bits (drive.words047_079 13) (drive.words047_079 14) (wide.low 13) (wide.low 14))
    ∙ if_lba (drive.words047_079 2) _ (wide.low 2)
    ∙ ap
        (λ b.
          if has_lba drive
          then larger
              (if b
                then four_words (drive.words088_255 12) (drive.words088_255 13)
                    (drive.words088_255 14) (drive.words088_255 15)
                else 0)
              (two_words (drive.words047_079 13) (drive.words047_079 14))
          else 0)
        (supports_lba48-has_lba48 drive wide)
