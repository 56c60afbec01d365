-- ===== src/Mbr/Tool.antt =====
-- hdmbr/main.c: what the program prints of the first disk.
pub mod Fields
pub mod Report
use c_modules.Base.{
  ℕ, zero, suc, ◌+◌, ◌*◌, ◌/◌, ◌^◌, Bool, Option, none, some, List, [], ◌∷◌, ◌++◌, ◌==◌,
  if◌then◌else◌, Memory, codes,
}
use c_modules.Base.Decimal.{decimal}
use c_modules.Mbr.Text.{copy_word_endian_string, string_trim_space}
use c_modules.Mbr.Capacity.{AtaIdentifyDevice, Capacity, determine_capacity}
use c_modules.Mbr.Identify.{DiskDriver, ReadMbr, read_mbr}

-- A 16-bit word of the block, lower byte first.
unfoldable pub word_at_byte : Memory → ℕ → ℕ
word_at_byte block p = block p + 256 * block (p + 1)

-- The 512 bytes of the block as the structure; its fields lie without gaps.
unfoldable pub newdata : Memory → AtaIdentifyDevice
unfolding word_at_byte
newdata block = record {
  serial_no = λ p. block (20 + p);
  fw_rev = λ p. block (46 + p);
  model = λ p. block (54 + p);
  words047_079 = λ i. word_at_byte block (94 + 2 * i);
  command_set_2 = word_at_byte block 166;
  words088_255 = λ i. word_at_byte block (176 + 2 * i);
}

unfoldable pub add_char : ℕ → Option (List ℕ) → Option (List ℕ)
add_char c none = none
add_char c (some text) = some (c ∷ text)

-- `%s`; `none` without a NUL within the fuel.
unfoldable pub printed_string : (fuel : ℕ) → Memory → (at : ℕ) → Option (List ℕ)
unfolding add_char
printed_string zero m at = none
printed_string (suc fuel) m at =
    let rest = printed_string fuel m (at + 1) in if m at == 0 then some [] else add_char (m at) rest

-- What is printed of a text that has been trimmed.
unfoldable pub printed_trimmed : (fuel : ℕ) → Option Memory → Option (List ℕ)
unfolding printed_string
printed_trimmed fuel none = none
printed_trimmed fuel (some name) = printed_string fuel name 0

-- copyWordEndianString, stringTrimSpace and printf of one field, through a buffer.
unfoldable pub show_field : (fuel : ℕ) → (buffer source : Memory) → (len : ℕ) → Option (List ℕ)
unfolding printed_trimmed
show_field fuel buffer source len =
    printed_trimmed fuel (string_trim_space fuel (copy_word_endian_string buffer source len))

unfoldable pub size_text : Capacity → List ℕ
size_text hdsize = decimal 20 (hdsize.bytes / 1000000000) ++ codes "Gbytes"

-- What the program prints: the number that readMBR gives, or the model, the serial number, the
-- firmware and the size. The buffers are not set before.
pub data ToolRun : Type 0 where
  ret : ℕ → ToolRun
  report : (mode_name serial_number fw : Option (List ℕ)) → (size : List ℕ) → ToolRun

unfoldable pub show_disk :
    (fuel : ℕ) → (mode_name serial_number : Memory) → AtaIdentifyDevice → ToolRun
unfolding show_field size_text
show_disk fuel mode_name serial_number drive =
    report (show_field fuel mode_name drive.model 20)
      (show_field fuel serial_number drive.serial_no 10)
      (show_field fuel serial_number drive.fw_rev 4) (size_text (determine_capacity drive))

unfoldable pub after_mbr :
    (fuel : ℕ) → (mode_name serial_number : Memory) → (result : ℕ) → (block : Memory) → ToolRun
unfolding show_disk newdata
after_mbr fuel mode_name serial_number zero block =
    show_disk fuel mode_name serial_number (newdata block)
after_mbr fuel mode_name serial_number (suc result) block = ret (suc result)

-- `main`
unfoldable pub disk_tool :
    {S : Type 0}
    → DiskDriver S
    → (fuel : ℕ) → (mode_name serial_number block : Memory) → S
    → ToolRun
unfolding after_mbr
disk_tool driver fuel mode_name serial_number block s =
    let r = read_mbr driver (codes "/dev/sda") block s in
    after_mbr fuel mode_name serial_number r.result r.block
