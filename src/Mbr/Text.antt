-- ===== src/Mbr/Text.antt =====
-- The texts of hdmbr/mbr.c: stringTrimSpace, copyWordEndianString and the readers that join them.
pub mod Buffer
pub mod Cut
pub mod Trim
pub mod Words
use c_modules.Base.{
  ℕ, zero, suc, ◌+◌, ◌-◌, ◌*◌, ◌≡◌, Bool, true, false, not, Option, none, some, List, ◌==◌,
  if◌then◌else◌, Memory, write,
}

-- The locals of the first loop of stringTrimSpace.
pub record Scan : Type 0 where
  pub i : ℕ
  pub position_flag : Bool
  pub front_space_count : ℕ
  pub rear_space_count : ℕ

-- One round, for the character `c`.
unfoldable pub advance : ℕ → Scan → Scan
advance c s =
    if c == 0x20
    then (if s.position_flag
        then record s { i = s.i + 1; rear_space_count = s.rear_space_count + 1 }
        else record s { i = s.i + 1; front_space_count = s.front_space_count + 1 })
    else (record s { i = s.i + 1; position_flag = true; rear_space_count = 0 })

-- `while (buf[i] != 0x00)`; `none` means that the fuel ran out.
unfoldable pub scan : ℕ → Memory → Scan → Option Scan
scan zero buf s = none
scan (suc fuel) buf s =
    let c = buf s.i in let rest = scan fuel buf (advance c s) in if c == 0 then some s else rest

-- `for (j = 0; j < n; j++) buf[j] = buf[j + front];` with `n` rounds left at `j`.
unfoldable pub copy_down : (n j front : ℕ) → Memory → Memory
copy_down zero j front buf = buf
copy_down (suc n) j front buf = copy_down n (j + 1) front (write buf j (buf (j + front)))

-- What follows the first loop.
unfoldable pub cut : Scan → Memory → Memory
cut s buf =
    let buf =
      if not (s.rear_space_count == 0) then write buf (s.i - s.rear_space_count) 0x00 else buf in
    if not (s.front_space_count == 0)
    then write (copy_down (s.i - s.front_space_count) 0 s.front_space_count buf)
        (s.i - s.front_space_count) 0x00
    else buf

abbrev pub scan_start : Scan
scan_start = record { i = 0; position_flag = false; front_space_count = 0; rear_space_count = 0 }

-- stringTrimSpace
unfoldable pub string_trim_space : ℕ → Memory → Option Memory
string_trim_space fuel buf = elim (scan fuel buf scan_start) [
  | none ↦ none
  | some s ↦ some (cut s buf)
]

-- The loop of copyWordEndianString, with `n` words left: the bytes of each word change places.
unfoldable pub copy_words : (n d s : ℕ) → (source dest : Memory) → Memory
copy_words zero d s source dest = dest
copy_words (suc n) d s source dest =
    copy_words n (d + 2) (s + 2) source (write (write dest d (source (s + 1))) (d + 1) (source s))

-- copyWordEndianString
unfoldable pub copy_word_endian_string : (dest source : Memory) → (len : ℕ) → Memory
copy_word_endian_string dest source len = write (copy_words len 0 0 source dest) (2 * len) 0

-- readModeName, readSerialNumber and readFwVer: `words` is the block as bytes, the text starts at
-- word `start`.
unfoldable pub read_text : ℕ → (start len : ℕ) → (name words : Memory) → Option Memory
read_text fuel start len name words =
    string_trim_space fuel (copy_word_endian_string name (λ p. words (2 * start + p)) len)

unfoldable pub read_mode_name : ℕ → (name words : Memory) → Option Memory
unfolding read_text
read_mode_name fuel = read_text fuel 27 20

unfoldable pub read_serial_number : ℕ → (name words : Memory) → Option Memory
unfolding read_text
read_serial_number fuel = read_text fuel 10 10

unfoldable pub read_fw_ver : ℕ → (name words : Memory) → Option Memory
unfolding read_text
read_fw_ver fuel = read_text fuel 23 4
