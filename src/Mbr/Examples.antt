-- ===== src/Mbr/Examples.antt =====
-- Runs of the disk code, and its theorems at a concrete disk.
use c_modules.Base.{
  ◌%◌, if◌then◌else◌, false, ℕ, ◌+◌, ◌*◌, ◌==◌, ◌≡◌, refl, some, List, [], ◌∷◌, Memory, write,
  arith, codes, Holds, IsCString,
}
use c_modules.Mbr.Text.{string_trim_space, copy_word_endian_string, copy_words}
use c_modules.Mbr.Text.Trim.{IsTrimmed, string_trim_space-IsTrimmed}
use c_modules.Base.Decimal.{decimal}
use c_modules.Mbr.Capacity.{
  AtaIdentifyDevice, get_num_sectors, determine_capacity, print_groups, group_text, decimal3,
}
use c_modules.Mbr.Tool.{newdata, disk_tool}
use c_modules.Mbr.Tool.Fields.{exchanged}
use c_modules.Mbr.Tool.Report.{IsPrintable, Prints, disk_tool-Prints}
use c_modules.Mbr.Identify.{DiskDriver, read_mbr, read_packet, delivered, start_args}
use c_modules.Mbr.Capacity.Printed.{read_text, determine_capacity-read}
use c_modules.Mbr.Capacity.Sectors.{Is16Bit, sector_count, get_num_sectors-sector_count}

-- The text " ab " in a buffer.
abbrev padded : List ℕ
padded = 0x20 ∷ 0x61 ∷ 0x62 ∷ 0x20 ∷ []

abbrev buffer : Memory
buffer = write (write (write (write (λ _. 0) 0 0x20) 1 0x61) 2 0x62) 3 0x20

buffer-Holds : Holds buffer 0 padded
buffer-Holds = (refl, (refl, (refl, (refl, tt))))

padded-IsCString : IsCString padded
padded-IsCString = (
  (omega arith, omega arith),
  ((omega arith, omega arith), ((omega arith, omega arith), ((omega arith, omega arith), tt))),
)

string_trim_space-IsTrimmed_example :
    (after : Memory) × (string_trim_space 5 buffer ≡ some after) × IsTrimmed padded buffer after
string_trim_space-IsTrimmed_example =
    string_trim_space-IsTrimmed buffer padded buffer-Holds padded-IsCString refl 5 (omega arith)

-- A block of words whose firmware text is "1.02    " with the bytes of each word exchanged.
abbrev firmware : List ℕ
firmware = codes "1.02    "

abbrev block : Memory
block =
    write
      (write
        (write
          (write (write (write (write (write (λ _. 0) 46 0x2E) 47 0x31) 48 0x32) 49 0x30) 50 0x20)
          51 0x20)
        52 0x20)
      53 0x20

block-Holds : Holds (copy_word_endian_string (λ _. 0xFF) (λ p. block (2 * 23 + p)) 4) 0 firmware
unfolding copy_word_endian_string copy_words
block-Holds = (refl, (refl, (refl, (refl, (refl, (refl, (refl, (refl, tt))))))))

firmware-IsCString : IsCString firmware
firmware-IsCString = (
  (omega arith, omega arith),
  (
    (omega arith, omega arith),
    (
      (omega arith, omega arith),
      (
        (omega arith, omega arith),
        (
          (omega arith, omega arith),
          (
            (omega arith, omega arith),
            ((omega arith, omega arith), ((omega arith, omega arith), tt)),
          ),
        ),
      ),
    ),
  ),
)

-- A disk with 500118192 sectors in the 48-bit words and the largest count in the 28-bit words.
abbrev words_low : ℕ → ℕ
words_low = write (write (write (λ _. 0) 2 0x0200) 13 0xFFFF) 14 0x0FFF

abbrev words_high : ℕ → ℕ
words_high = write (write (λ _. 0) 12 0x6030) 13 0x1DCF

abbrev disk : AtaIdentifyDevice
disk = record {
  serial_no = λ _. 0x20;
  fw_rev = λ _. 0x20;
  model = λ _. 0x20;
  words047_079 = words_low;
  command_set_2 = 0x4400;
  words088_255 = words_high;
}

disk-Is16Bit : Is16Bit disk
disk-Is16Bit = record {
  low = λ k. ground arith;
  high = λ k. ground arith;
  command_set = omega arith;
}

get_num_sectors-sector_count_example : get_num_sectors disk ≡ sector_count disk
get_num_sectors-sector_count_example = get_num_sectors-sector_count disk disk-Is16Bit

determine_capacity-read_example :
    read_text (determine_capacity disk).text ≡ some (determine_capacity disk).bytes
determine_capacity-read_example = determine_capacity-read disk

disk_sectors : sector_count disk ≡ 500129840
unfolding sector_count
disk_sectors = refl

disk_text : print_groups 7 false 1234567890 (1000000000 * 1000000000) ≡ codes "1,234,567,890"
unfolding print_groups group_text decimal3 decimal
disk_text = refl

-- A kernel whose disk refuses the first command and answers the second.
abbrev kernel : DiskDriver ℕ
kernel = record {
  win_identify = 0xEC;
  win_pidentify = 0xA1;
  open_device = λ s name. (some 3, s);
  drive_cmd = λ s fd args. record { state = s + 1; failed = args 0 == 0xEC; args = λ q. 7 };
  close_device = λ s fd. s + 1;
  errno = λ s. 5;
}

kernel_answer : (read_mbr kernel (codes "/dev/sda") (λ _. 1) 0).block 511 ≡ 7
unfolding read_mbr read_packet delivered start_args
kernel_answer = refl

-- A kernel whose disk answers with words of a space and an A.
abbrev labelled : DiskDriver ℕ
labelled = record {
  win_identify = 0xEC;
  win_pidentify = 0xA1;
  open_device = λ s name. (some 3, s);
  drive_cmd = λ s fd args. record {
    state = s + 1;
    failed = false;
    args = λ q. if q % 2 == 0 then 0x41 else 0x20;
  };
  close_device = λ s fd. s + 1;
  errno = λ s. 5;
}

abbrev labels : Memory
labels = (read_mbr labelled (codes "/dev/sda") (λ _. 0) 0).block

labels-IsPrintable : IsPrintable (newdata labels)
unfolding read_mbr delivered newdata exchanged
labels-IsPrintable = record {
  model = ground arith;
  serial_no = ground arith;
  fw_rev = ground arith;
}

disk_tool-Prints_example :
    Prints (newdata labels) (disk_tool labelled 41 (λ _. 0) (λ _. 0) (λ _. 0) 0)
unfolding read_mbr delivered
disk_tool-Prints_example =
    disk_tool-Prints labelled 41 (λ _. 0) (λ _. 0) (λ _. 0) 0 refl (omega arith) labels-IsPrintable
