-- ===== src/Eeprom/Decode/Faults.antt =====
-- Strings that ftdi_66eeprom_decode of ftdi-eeprom/eeprom.c cannot read: length bytes below 2 (the
-- pointer stays NULL, and the terminating NUL is stored through it) and ends behind the buffer.
use c_modules.Base.{
  ◌-◌, ℕ, ◌+◌, ◌*◌, ◌/◌, ◌≤◌, ◌<◌, ◌≡◌, ◌⊎◌, inl, inr, refl, zero, suc, Memory, some, none, arith,
  bit_and, le→ltb,
}
use c_modules.Eeprom.Defs.{FtdiHeader, FtdiEeprom}
use c_modules.Eeprom.Strings.{read_chars}
use c_modules.Eeprom.Decode.{fault, decode_string, ftdi_66eeprom_decode}

decode_string-short : (m : Memory) (size la oa : ℕ) → m la < 2 → decode_string m size la oa ≡ none
unfolding decode_string
decode_string-short m size la oa short =
    let half : m la / 2 ≡ 0 = omega arith in rw (half, decode_string) refl

-- Characters whose last lies behind the buffer are not all read.
read_chars-none :
    (n size p : ℕ) (m : Memory) → size ≤ p + 2 * n → read_chars m size (suc n) p ≡ none
unfolding read_chars
read_chars-none zero size p m behind = rw (le→ltb p size (omega arith)) refl
read_chars-none (suc n) size p m behind =
    let rest = read_chars-none n size (p + 2) m (omega arith) in ground arith

decode_string-long :
    (m : Memory) (size la oa : ℕ)
    → 4 ≤ m la
    → size ≤ bit_and (m oa) 0xff + 2 + 2 * (m la / 2 - 2)
    → decode_string m size la oa ≡ none
unfolding decode_string
decode_string-long m size la oa len behind =
    let half : m la / 2 ≡ suc (suc (m la / 2 - 2)) = omega arith in
    rw (half, decode_string)
      (read_chars-none (m la / 2 - 2) size (bit_and (m oa) 0xff + 2) m behind)

-- A string whose length byte is below 2, or whose last character lies behind the buffer.
abbrev pub IsBadString : Memory → (size length_at offset_at : ℕ) → Type 0
IsBadString m size la oa =
    (m la < 2) ⊎ ((4 ≤ m la) × (size ≤ bit_and (m oa) 0xff + 2 + 2 * (m la / 2 - 2)))

decode_string-bad :
    (m : Memory) (size la oa : ℕ) → IsBadString m size la oa → decode_string m size la oa ≡ none
decode_string-bad m size la oa (inl short) = decode_string-short m size la oa short
decode_string-bad m size la oa (inr (len, behind)) = decode_string-long m size la oa len behind

-- If one of the three strings has a length byte below 2, or reaches behind the buffer, the decoder
-- faults: it stores through NULL or reads out of bounds. A blank image of zeros is one such.
pub decode_faults :
    (ftdi : FtdiHeader) (old : FtdiEeprom) (m : Memory) (size : ℕ)
    → IsBadString m size 0x0F 0x0E ⊎ (IsBadString m size 0x11 0x10 ⊎ IsBadString m size 0x13 0x12)
    → ftdi_66eeprom_decode ftdi (some old) m size ≡ fault
unfolding ftdi_66eeprom_decode
decode_faults ftdi old m size (inl bad) = ground (arith, decode_string-bad m size 0x0F 0x0E bad)
decode_faults ftdi old m size (inr (inl bad)) =
    ground (arith, decode_string-bad m size 0x11 0x10 bad)
decode_faults ftdi old m size (inr (inr bad)) =
    ground (arith, decode_string-bad m size 0x13 0x12 bad)
