-- ===== src/Eeprom/Build/Descriptor.antt =====
-- The fixed part of an image, decoded: each field of `decode_fields` over `descriptor`.
use c_modules.Base.Bits.{bit_and-255, bit_and_15, bit_or_nibbles}
use c_modules.Base.{
  ◌/◌, bit_and, none, ◌∙◌, ◌<◌, bit_or, ℕ, ◌+◌, ◌*◌, ◌%◌, ◌≤◌, ◌≡◌, ◌≢◌, refl, ◌⊎◌, Bool, true,
  false, ◌==◌, Memory, arith,
}
use c_modules.Eeprom.Defs.{FtdiHeader, FtdiEeprom}
use c_modules.Eeprom.Build.{check, release_byte, config_byte, chip_byte, descriptor}
use c_modules.Eeprom.Decode.{decode_cbus, decode_chip, flag}

abbrev bit : Bool → ℕ
bit true = 1
bit false = 0

bit-== : (n : ℕ) → n ≤ 1 → bit (n == 1) ≡ n
bit-== n h = ground arith

config_flags :
    (s r : Bool)
    → (flag (config_byte s r % 256) 0x40 ≡ bit s) × (flag (config_byte s r % 256) 0x20 ≡ bit r)
unfolding config_byte
config_flags true true = (refl, refl)
config_flags true false = (refl, refl)
config_flags false true = (refl, refl)
config_flags false false = (refl, refl)

-- Each bit of address 0x0A is one flag.
abbrev ChipFlags : (a b c d e : Bool) → Type 0
ChipFlags a b c d e =
    let j = chip_byte a b c d e % 256 in
    (flag j 0x01 ≡ bit a)
    × (flag j 0x02 ≡ bit b)
    × (flag j 0x04 ≡ bit c)
    × (flag j 0x08 ≡ bit d)
    × (flag j 0x10 ≡ bit e)

chip_flags : (a b c d e : Bool) → ChipFlags a b c d e
unfolding chip_byte
chip_flags true b c d e = ground arith
chip_flags false b c d e = ground arith

-- The chip types that an image can tell apart.
abbrev pub IsKnownChip : FtdiHeader → ℕ → Type 0
IsKnownChip ftdi t =
    (t ≢ ftdi.type_2232c)
    × ((t ≡ ftdi.type_am)
        ⊎ ((t ≡ ftdi.type_bm)
            ⊎ ((t ≡ ftdi.type_r)
                ⊎ ((t ≡ ftdi.type_2232h) ⊎ ((t ≡ ftdi.type_4232h) ⊎ (t ≡ ftdi.type_232h))))))

pub decode_chip-release :
    (ftdi : FtdiHeader) (t : ℕ)
    → IsKnownChip ftdi t
    → decode_chip ftdi ((0 + release_byte ftdi t % 256 * 256) % 65536) ≡ t
unfolding decode_chip release_byte
decode_chip-release ftdi t known = ground arith

-- Of an image for a TYPE_2232C chip, or for a type that the switch does not list, the type is lost.
pub decode_chip_2232c :
    (ftdi : FtdiHeader)
    → ftdi.type_2232c ≢ ftdi.type_am
    → ftdi.type_2232c ≢ ftdi.type_bm
    → decode_chip ftdi ((0 + release_byte ftdi ftdi.type_2232c % 256 * 256) % 65536) ≡ 0
unfolding decode_chip release_byte
decode_chip_2232c ftdi am bm = ground arith

-- What the check of the CBUS functions leaves.
abbrev CbusOk : FtdiHeader → FtdiEeprom → Type 0
CbusOk ftdi e =
    let c = e.cbus_function in
    ((c.cbus0 ≤ 13) × (c.cbus1 ≤ 13) × (c.cbus2 ≤ 13) × (c.cbus3 ≤ 13) × (c.cbus4 ≤ 9))
    × (e.chip_type ≢ ftdi.type_r
        → (c.cbus0 ≡ 0) × (c.cbus1 ≡ 0) × (c.cbus2 ≡ 0) × (c.cbus3 ≡ 0) × (c.cbus4 ≡ 0))

check-CbusOk : (ftdi : FtdiHeader) (e : FtdiEeprom) → check ftdi e ≡ none → CbusOk ftdi e
unfolding check
check-CbusOk ftdi e h = ground arith

module _ (ftdi : FtdiHeader) (e : FtdiEeprom) (ms ps ss : ℕ) (m : Memory) where
  abbrev d : Memory
  d = descriptor ftdi e ms ps ss m

  pub vendor_id_back : e.vendor_id < 65536 → d 0x02 + d 0x03 * 256 ≡ e.vendor_id
  unfolding descriptor
  vendor_id_back h = ground arith

  pub vendor_low : d 0x02 ≡ e.vendor_id % 256
  unfolding descriptor
  vendor_low = ground arith

  pub product_id_back : e.product_id < 65536 → d 0x04 + d 0x05 * 256 ≡ e.product_id
  unfolding descriptor
  product_id_back h = ground arith

  release :
      (d 0x06 + d 0x07 * 256) % 65536 ≡ (0 + release_byte ftdi e.chip_type % 256 * 256) % 65536
  unfolding descriptor
  release = ground arith

  pub chip_type_back :
      IsKnownChip ftdi e.chip_type
      → decode_chip ftdi ((d 0x06 + d 0x07 * 256) % 65536) ≡ e.chip_type
  chip_type_back known = rw release (decode_chip-release ftdi e.chip_type known)

  config : d 0x08 ≡ config_byte (e.self_powered == 1) (e.remote_wakeup == 1) % 256
  unfolding descriptor
  config = ground arith

  pub self_powered_back : e.self_powered ≤ 1 → flag (d 0x08) 0x40 ≡ e.self_powered
  self_powered_back h =
      rw config
        ((config_flags (e.self_powered == 1) (e.remote_wakeup == 1)).0 ∙ bit-== e.self_powered h)

  pub remote_wakeup_back : e.remote_wakeup ≤ 1 → flag (d 0x08) 0x20 ≡ e.remote_wakeup
  remote_wakeup_back h =
      rw config
        ((config_flags (e.self_powered == 1) (e.remote_wakeup == 1)).1 ∙ bit-== e.remote_wakeup h)

  pub max_power_back : e.max_power < 256 → d 0x09 ≡ e.max_power
  unfolding descriptor
  max_power_back h = ground arith

  chip :
      d 0x0A
      ≡ chip_byte
          (e.in_is_isochronous == 1)
          (e.out_is_isochronous == 1)
          (e.suspend_pull_downs == 1)
          (e.use_serial == 1)
          (e.change_usb_version == 1)
        % 256
  unfolding descriptor
  chip = ground arith

  -- The flags of address 0x0A.
  pub record FlagsBack : Type 0 where
    pub in_iso : flag (d 0x0A) 0x01 ≡ e.in_is_isochronous
    pub out_iso : flag (d 0x0A) 0x02 ≡ e.out_is_isochronous
    pub pull_downs : flag (d 0x0A) 0x04 ≡ e.suspend_pull_downs
    pub serial_used : flag (d 0x0A) 0x08 ≡ e.use_serial
    pub change_usb : flag (d 0x0A) 0x10 ≡ e.change_usb_version

  pub flags_back :
      e.in_is_isochronous ≤ 1
      → e.out_is_isochronous ≤ 1
      → e.suspend_pull_downs ≤ 1
      → e.use_serial ≤ 1
      → e.change_usb_version ≤ 1
      → FlagsBack
  flags_back h1 h2 h3 h4 h5 =
      let bits =
        chip_flags (e.in_is_isochronous == 1) (e.out_is_isochronous == 1)
          (e.suspend_pull_downs == 1) (e.use_serial == 1) (e.change_usb_version == 1) in
      record {
        in_iso = rw chip (bits.0 ∙ bit-== e.in_is_isochronous h1);
        out_iso = rw chip (bits.1 ∙ bit-== e.out_is_isochronous h2);
        pull_downs = rw chip (bits.2 ∙ bit-== e.suspend_pull_downs h3);
        serial_used = rw chip (bits.3 ∙ bit-== e.use_serial h4);
        change_usb = rw chip (bits.4 ∙ bit-== e.change_usb_version h5);
      }

  pub invert_back : e.invert < 256 → d 0x0B ≡ e.invert
  unfolding descriptor
  invert_back h = ground (arith, bit_and-255 e.invert h)

  pub usb_version_back :
      e.change_usb_version ≡ 1 → e.usb_version < 65536 → d 0x0C + d 0x0D * 256 ≡ e.usb_version
  unfolding descriptor
  usb_version_back c h = ground arith

  pub length_bytes :
      ms < 127
      → ps < 127
      → ss < 127
      → (d 0x0F ≡ ms * 2 + 2) × (d 0x11 ≡ ps * 2 + 2) × (d 0x13 ≡ ss * 2 + 2)
  unfolding descriptor
  length_bytes a b c = ground arith

  cbus_bytes :
      (d 0x14 ≡ bit_or e.cbus_function.cbus0 (e.cbus_function.cbus1 * 16) % 256)
      × (d 0x15 ≡ bit_or e.cbus_function.cbus2 (e.cbus_function.cbus3 * 16) % 256)
      × (d 0x16 ≡ e.cbus_function.cbus4 % 256)
  unfolding descriptor
  cbus_bytes = ground arith

  nibbles_back :
      (lo hi : ℕ)
      → lo < 16
      → hi < 16
      → (bit_and (bit_or lo (hi * 16) % 256) 0x0f ≡ lo)
        × (bit_and (bit_or lo (hi * 16) % 256 / 16) 0x0f ≡ hi)
  nibbles_back lo hi h k =
      let e = bit_or_nibbles lo hi h k in
      let f = bit_and_15 (lo + hi * 16) (omega arith) in
      let g = bit_and_15 ((lo + hi * 16) / 16) (omega arith) in
      let w : (lo + hi * 16) % 256 ≡ lo + hi * 16 = omega arith in
      (rw (e, w, f) (omega arith), rw (e, w, g) (omega arith))

  pub cbus_back : check ftdi e ≡ none → decode_cbus ftdi e.chip_type d ≡ e.cbus_function
  unfolding decode_cbus
  cbus_back accepted =
      let ok = check-CbusOk ftdi e accepted in
      let c = e.cbus_function in
      rw (cbus_bytes.0, cbus_bytes.1, cbus_bytes.2)
        (ground (
          arith,
          ok,
          nibbles_back c.cbus0 c.cbus1,
          nibbles_back c.cbus2 c.cbus3,
          bit_and_15 c.cbus4,
        ))

  pub descriptor-behind : (q : ℕ) → 256 ≤ q → d q ≡ m q
  unfolding descriptor
  descriptor-behind q behind = ground arith
