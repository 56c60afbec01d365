-- ===== src/Mbr/Capacity.antt =====
-- The capacity of a disk in hdmbr/mbr.c: get_num_sectors and determine_capacity.
pub mod Sectors
pub mod Printed
use c_modules.Base.Decimal.{decimal}
use c_modules.Base.{
  ℕ, zero, suc, ◌+◌, ◌-◌, ◌*◌, ◌/◌, ◌%◌, ◌^◌, bit_and, bit_or, Bool, true, false, not, ◌&&◌, ◌||◌,
  List, [], ◌∷◌, ◌++◌, ltb, ◌==◌, if◌then◌else◌, length, Memory,
}

-- The fields of `struct ata_identify_device` that the file reads; the array fields by their index.
pub record AtaIdentifyDevice : Type 0 where
  pub serial_no : Memory
  pub fw_rev : Memory
  pub model : Memory
  pub words047_079 : ℕ → ℕ
  pub command_set_2 : ℕ
  pub words088_255 : ℕ → ℕ

-- `(command_set_2 & 0xc000) == 0x4000 && (command_set_2 & 0x0400)`
unfoldable pub supports_lba48 : AtaIdentifyDevice → Bool
supports_lba48 drive =
    (bit_and drive.command_set_2 0xc000 == 0x4000) && not (bit_and drive.command_set_2 0x0400 == 0)

-- get_num_sectors
unfoldable pub get_num_sectors : AtaIdentifyDevice → ℕ
unfolding supports_lba48
get_num_sectors drive =
    let capabilities_0 = drive.words047_079 2 in
    let sects_16 = drive.words047_079 13 in
    let sects_32 = drive.words047_079 14 in
    let lba_16 = drive.words088_255 12 in
    let lba_32 = drive.words088_255 13 in
    let lba_48 = drive.words088_255 14 in
    let lba_64 = drive.words088_255 15 in
    if bit_and capabilities_0 0x0200 == 0
    then 0
    else (let lba32 = bit_or (sects_32 * 2 ^ 16 % 2 ^ 32) sects_16 in
        let lba64 =
          if supports_lba48 drive
          then bit_or
              (bit_or (bit_or (lba_64 * 2 ^ 48 % 2 ^ 64) (lba_48 * 2 ^ 32 % 2 ^ 64))
                (lba_32 * 2 ^ 16 % 2 ^ 64))
              lba_16
          else 0 in
        if ltb lba64 lba32 then lba32 else lba64)

abbrev pub zeros : ℕ → List ℕ
zeros zero = []
zeros (suc n) = 48 ∷ zeros n

-- `%03llu`
unfoldable pub decimal3 : ℕ → List ℕ
unfolding decimal
decimal3 n = let text = decimal 20 n in zeros (3 - length text) ++ text

-- What one round prints.
unfoldable pub group_text : (started last : Bool) → ℕ → List ℕ
unfolding decimal3
group_text true last threedigits = 44 ∷ decimal3 threedigits
group_text false last threedigits =
    if not (threedigits == 0) || last then decimal 20 threedigits else []

-- The loop `for (k = 0; k < 7; k++)` with `left` rounds to go; the last is `k == 6`.
unfoldable pub print_groups : (left : ℕ) → (started : Bool) → (capacity power_of_ten : ℕ) → List ℕ
print_groups zero started capacity power_of_ten = []
print_groups (suc left) started capacity power_of_ten =
    let threedigits = capacity / power_of_ten in
    let last = left == 0 in
    group_text started last threedigits
    ++ print_groups left (started || (not (threedigits == 0) || last))
        (capacity - threedigits * power_of_ten)
        (if not last then power_of_ten / 1000 else power_of_ten)

-- determine_capacity: the returned number of bytes and the text.
pub record Capacity : Type 0 where
  pub bytes : ℕ
  pub text : List ℕ

unfoldable pub determine_capacity : AtaIdentifyDevice → Capacity
determine_capacity drive =
    let capacity = get_num_sectors drive * 512 % 2 ^ 64 in
    record { bytes = capacity; text = print_groups 7 false capacity (1000000000 * 1000000000) }
