-- ===== src/Eeprom/Strings.antt =====
-- The string area of an image: what the builders of ftdi-eeprom/eeprom.c write for one string, and
-- what the decoder reads of it.
pub mod Laws
use c_modules.Base.{
  ℕ, zero, suc, ◌+◌, ◌*◌, ◌%◌, bit_and, Option, none, some, List, [], ◌∷◌, ltb, if◌then◌else◌,
  Memory,
}
use mathlib.Core.Option
use c_modules.Eeprom.Defs.{put}

-- The image and the `unsigned char` position in it.
pub record Cursor : Type 0 where
  pub at : ℕ
  pub out : Memory

-- `output[i & eeprom_size_mask] = v, i++;`
unfoldable pub emit : ℕ → ℕ → Cursor → Cursor
emit mask v cur = record { at = (cur.at + 1) % 256; out = put cur.out (bit_and cur.at mask) v }

-- The byte under a `char *`, and the pointer behind it. Behind the list stands the NUL.
abbrev pub head_byte : List ℕ → ℕ
head_byte [] = 0
head_byte (c ∷ cs) = c

abbrev pub tail_bytes : List ℕ → List ℕ
tail_bytes [] = []
tail_bytes (c ∷ cs) = cs

-- The loop over the characters, each followed by a zero byte.
unfoldable pub emit_chars : ℕ → ℕ → List ℕ → Cursor → Cursor
emit_chars mask zero s cur = cur
emit_chars mask (suc n) s cur =
    emit_chars mask n (tail_bytes s) (emit mask 0 (emit mask (head_byte s) cur))

-- A string descriptor: its length, the type 0x03 and the characters.
unfoldable pub emit_string : ℕ → ℕ → List ℕ → Cursor → Cursor
emit_string mask n s cur = emit_chars mask n s (emit mask 3 (emit mask (n * 2 + 2) cur))

-- `for (j = 0; j < n; j++) s[j] = buf[2 * j + i + 2];` where `p` is `i + 2`. A read behind the
-- `size` bytes of the buffer is `none`.
unfoldable pub read_chars : Memory → ℕ → ℕ → ℕ → Option (List ℕ)
read_chars buf size zero p = some []
read_chars buf size (suc n) p =
    if ltb p size then Option.map (λ cs. buf p ∷ cs) (read_chars buf size n (p + 2)) else none
