-- ===== src/Eeprom/RoundTrip.antt =====
-- Decoding what the builders of ftdi-eeprom/eeprom.c write.
use c_modules.Base.{
  ℕ, suc, ◌+◌, ◌-◌, ◌*◌, ◌/◌, ◌%◌, ◌≤◌, ◌<◌, ◌≡◌, refl, ◌∙◌, ◌⊎◌, none, some, List, Memory, length,
  arith, ◌==◌, if◌then◌else◌, bit_and,
}
use c_modules.Base.Bits.{bit_and-255}
use c_modules.Eeprom.Defs.{FtdiHeader, FtdiEeprom, put}
use c_modules.Eeprom.Checksum.{checksum, checksum-total, checksum-ext}
use c_modules.Eeprom.Strings.{read_chars}
use c_modules.Eeprom.Strings.Laws.{read_chars-ext}
use c_modules.Eeprom.Build.{built, check, text_of, descriptor, string_area, seal}
use c_modules.Eeprom.Build.Area.{Fits, HasStrings, string_area-HasStrings}
use c_modules.Eeprom.Build.Descriptor.{IsKnownChip}
use c_modules.Eeprom.Build.Descriptor
use c_modules.Eeprom.Decode.{
  decode_chip, decoded, decode_fields, decode_string, verify, ftdi_66eeprom_decode, flag,
  decode_cbus,
}

-- The values that the image can hold.
pub record IsEncodable (ftdi : FtdiHeader) (e : FtdiEeprom) : Type 0 where
  pub accepted : check ftdi e ≡ none
  pub vendor_id : e.vendor_id < 65536
  pub product_id : e.product_id < 65536
  pub self_powered : e.self_powered ≤ 1
  pub remote_wakeup : e.remote_wakeup ≤ 1
  pub chip_type : IsKnownChip ftdi e.chip_type
  pub in_is_isochronous : e.in_is_isochronous ≤ 1
  pub out_is_isochronous : e.out_is_isochronous ≤ 1
  pub suspend_pull_downs : e.suspend_pull_downs ≤ 1
  pub use_serial : e.use_serial ≤ 1
  pub change_usb_version : e.change_usb_version ≤ 1
  pub usb_version : e.usb_version < 65536
  pub max_power : e.max_power < 256
  pub invert : e.invert < 256

-- What the decoder reads back, which is not all of the structure: the size is 0, a USB version that is
-- not enabled is 0, a string that was NULL is empty, and high_current, which no builder writes, is
-- the bits of HIGH_CURRENT_DRIVE in the low byte of the vendor id. The other fields are as they were.
unfoldable pub read_back : FtdiHeader → FtdiEeprom → FtdiEeprom
read_back ftdi e = record e {
  usb_version = if e.change_usb_version == 1 then e.usb_version else 0;
  high_current = bit_and (e.vendor_id % 256) ftdi.high_current_drive;
  size = 0;
  manufacturer = some (text_of e.manufacturer);
  product = some (text_of e.product);
  serial = some (text_of e.serial);
}

-- The addresses that `descriptor` fills.
abbrev pub IsFixed : ℕ → Type 0
IsFixed q =
    ((2 ≤ q) × (q < 0x0E)) ⊎ (((0x14 ≤ q) × (q < 0x17)) ⊎ ((q ≡ 0x0F) ⊎ ((q ≡ 0x11) ⊎ (q ≡ 0x13))))

decode_fields-ext :
    (ftdi : FtdiHeader) (m m' : Memory) (man prod ser : List ℕ)
    → ((q : ℕ) → IsFixed q → m q ≡ m' q)
    → decode_fields ftdi m man prod ser ≡ decode_fields ftdi m' man prod ser
unfolding decode_fields decode_cbus
decode_fields-ext ftdi m m' man prod ser same =
    rw
      (
        same 0x02 (omega arith),
        same 0x03 (omega arith),
        same 0x04 (omega arith),
        same 0x05 (omega arith),
        same 0x06 (omega arith),
        same 0x07 (omega arith),
        same 0x08 (omega arith),
        same 0x09 (omega arith),
        same 0x0A (omega arith),
        same 0x0B (omega arith),
        same 0x0C (omega arith),
        same 0x0D (omega arith),
        same 0x14 (omega arith),
        same 0x15 (omega arith),
        same 0x16 (omega arith),
      )
      refl

decode_fields-descriptor :
    (ftdi : FtdiHeader) (e : FtdiEeprom) (ms ps ss : ℕ) (m : Memory)
    → IsEncodable ftdi e
    → decode_fields ftdi
        (descriptor ftdi e ms ps ss m)
        (text_of e.manufacturer)
        (text_of e.product)
        (text_of e.serial)
      ≡ read_back ftdi e
unfolding decode_fields read_back
decode_fields-descriptor ftdi e ms ps ss m ok =
    let d = descriptor ftdi e ms ps ss m in
    let flags =
      Descriptor.flags_back ftdi e ms ps ss m ok.in_is_isochronous ok.out_is_isochronous
        ok.suspend_pull_downs ok.use_serial ok.change_usb_version in
    let chip = Descriptor.chip_type_back ftdi e ms ps ss m ok.chip_type in
    let usb : (if flag (d 0x0A) 0x10 == 1 then d 0x0C + d 0x0D * 256 else 0)
        ≡ (if e.change_usb_version == 1 then e.usb_version else 0) =
      rw flags.change_usb (
        ground (
          arith,
          λ (h : e.change_usb_version ≡ 1).
              Descriptor.usb_version_back ftdi e ms ps ss m h ok.usb_version,
        )) in
    let cbus : decode_cbus ftdi (decode_chip ftdi ((d 0x06 + d 0x07 * 256) % 65536)) d
        ≡ e.cbus_function =
      rw chip (Descriptor.cbus_back ftdi e ms ps ss m ok.accepted) in
    λ i. record {
      vendor_id = Descriptor.vendor_id_back ftdi e ms ps ss m ok.vendor_id i;
      product_id = Descriptor.product_id_back ftdi e ms ps ss m ok.product_id i;
      self_powered = Descriptor.self_powered_back ftdi e ms ps ss m ok.self_powered i;
      remote_wakeup = Descriptor.remote_wakeup_back ftdi e ms ps ss m ok.remote_wakeup i;
      chip_type = chip i;
      in_is_isochronous = flags.in_iso i;
      out_is_isochronous = flags.out_iso i;
      suspend_pull_downs = flags.pull_downs i;
      use_serial = flags.serial_used i;
      change_usb_version = flags.change_usb i;
      usb_version = usb i;
      max_power = Descriptor.max_power_back ftdi e ms ps ss m ok.max_power i;
      high_current = bit_and (Descriptor.vendor_low ftdi e ms ps ss m i) ftdi.high_current_drive;
      invert = Descriptor.invert_back ftdi e ms ps ss m ok.invert i;
      size = 0;
      cbus_function = cbus i;
      manufacturer = some (text_of e.manufacturer);
      product = some (text_of e.product);
      serial = some (text_of e.serial);
    }

decode_string-at :
    (m : Memory) (size la oa n p : ℕ)
    → m la ≡ n * 2 + 2
    → m oa ≡ p
    → p < 256
    → decode_string m size la oa ≡ read_chars m size n (p + 2)
unfolding decode_string
decode_string-at m size la oa n p e o h =
    let half : m la / 2 ≡ suc n = omega arith in
    rw (half, decode_string) (rw (o, bit_and-255 p h) refl)

-- Over the image of three strings, with the lengths that the descriptor holds, the decoder finds
-- them, whatever the last two bytes are.
module _ {man prod ser : List ℕ} {start : ℕ} {before m m' : Memory}
    (h : HasStrings man prod ser start before m) (high : 128 ≤ start)
    (room : start + (6 + 2 * length man + 2 * length prod + 2 * length ser) ≤ 254)
    (same : (q : ℕ) → q < 254 → m' q ≡ m q) where
  text_same : (n p : ℕ) → p + 2 * n ≤ 254 → read_chars m' 256 n p ≡ read_chars m 256 n p
  text_same n p low = read_chars-ext n 256 p m' m (λ q a b. same q (omega arith))

  decode_man : m' 0x0F ≡ length man * 2 + 2 → decode_string m' 256 0x0F 0x0E ≡ some man
  decode_man e =
      decode_string-at m' 256 0x0F 0x0E (length man) start e
        (same 0x0E (omega arith) ∙ h.man_offset) (omega arith)
      ∙ text_same (length man) (start + 2) (omega arith)
      ∙ h.man_text

  decode_prod : m' 0x11 ≡ length prod * 2 + 2 → decode_string m' 256 0x11 0x10 ≡ some prod
  decode_prod e =
      decode_string-at m' 256 0x11 0x10 (length prod) (start + (2 + 2 * length man)) e
        (same 0x10 (omega arith) ∙ h.prod_offset) (omega arith)
      ∙ text_same (length prod) (start + (2 + 2 * length man) + 2) (omega arith)
      ∙ h.prod_text

  decode_ser : m' 0x13 ≡ length ser * 2 + 2 → decode_string m' 256 0x13 0x12 ≡ some ser
  decode_ser e =
      decode_string-at m' 256 0x13 0x12 (length ser)
        (start + (4 + 2 * length man + 2 * length prod)) e (same 0x12 (omega arith) ∙ h.ser_offset)
        (omega arith)
      ∙ text_same (length ser) (start + (4 + 2 * length man + 2 * length prod) + 2) (omega arith)
      ∙ h.ser_text

-- The last two bytes of an image of 256.
abbrev sealed : Memory → ℕ → Memory
sealed m c = put (put m 254 c) 255 (c / 256)

sealed-low : (m : Memory) (c q : ℕ) → q < 254 → sealed m c q ≡ m q
sealed-low m c q h = ground arith

sealed-high : (m : Memory) (c q : ℕ) → 256 ≤ q → sealed m c q ≡ m q
sealed-high m c q h = ground arith

pub seal-sealed :
    (e : FtdiEeprom) (n c : ℕ) (m : Memory)
    → e.size ≡ 256
    → checksum 127 m ≡ some c
    → seal e n m ≡ built n (sealed m c)
unfolding seal
seal-sealed e n c m size sum =
    let words : e.size / 2 - 1 ≡ 127 = omega arith in rw (words, seal) (rw (sum, seal, size) refl)

verify-sealed :
    (e : FtdiEeprom) (c : ℕ) (m : Memory)
    → c < 65536
    → checksum 127 m ≡ some c
    → verify (sealed m c) e ≡ decoded e
unfolding verify
verify-sealed e c m small sum =
    let again : checksum 127 (sealed m c) ≡ some c =
      checksum-ext 127 (sealed m c) m (λ q h. sealed-low m c q (omega arith)) ∙ sum in
    rw (again, verify) (ground arith)

module _ {ftdi : FtdiHeader} {e : FtdiEeprom} {man prod ser : List ℕ} {start : ℕ}
    (fits : Fits e man prod ser start) (ok : IsEncodable ftdi e) (old : FtdiEeprom)
    (header m0 : Memory)
    (filled : (q : ℕ)
      → IsFixed q
      → header q ≡ descriptor ftdi e (length man) (length prod) (length ser) m0 q) where
  abbrev area : Memory
  area = string_area e start header

  area_fixed : (q : ℕ) → IsFixed q → area q ≡ header q
  area_fixed q q_fixed =
      (string_area-HasStrings fits header).same q (omega (arith, fits.high)) (omega arith)
        (omega arith) (omega arith)

  fields : (c : ℕ) → decode_fields ftdi (sealed area c) man prod ser ≡ read_back ftdi e
  fields c =
      let d = descriptor ftdi e (length man) (length prod) (length ser) m0 in
      decode_fields-ext ftdi (sealed area c) d man prod ser
        (λ q q_fixed. sealed-low area c q (omega arith) ∙ area_fixed q q_fixed ∙ filled q q_fixed)
      ∙ rw (← fits.man_is, ← fits.prod_is, ← fits.ser_is)
          (decode_fields-descriptor ftdi e (length (text_of e.manufacturer))
            (length (text_of e.product)) (length (text_of e.serial)) m0 ok)

  sizes :
      (c : ℕ)
      → (sealed area c 0x0F ≡ length man * 2 + 2)
        × (sealed area c 0x11 ≡ length prod * 2 + 2)
        × (sealed area c 0x13 ≡ length ser * 2 + 2)
  sizes c =
      let b =
        Descriptor.length_bytes ftdi e (length man) (length prod) (length ser) m0
          (omega (arith, fits.room, fits.high)) (omega (arith, fits.room, fits.high))
          (omega (arith, fits.room, fits.high)) in
      (
        area_fixed 0x0F (omega arith) ∙ filled 0x0F (omega arith) ∙ b.0,
        area_fixed 0x11 (omega arith) ∙ filled 0x11 (omega arith) ∙ b.1,
        area_fixed 0x13 (omega arith) ∙ filled 0x13 (omega arith) ∙ b.2,
      )

  -- The decoder on the sealed image.
  decode_sealed :
      (c : ℕ)
      → c < 65536
      → checksum 127 area ≡ some c
      → ftdi_66eeprom_decode ftdi (some old) (sealed area c) 256 ≡ decoded (read_back ftdi e)
  unfolding ftdi_66eeprom_decode
  decode_sealed c small sum =
      let h = string_area-HasStrings fits header in
      let low = sealed-low area c in
      let b = sizes c in
      rw (decode_man h fits.high fits.room low b.0, ftdi_66eeprom_decode)
        (rw (decode_prod h fits.high fits.room low b.1, ftdi_66eeprom_decode)
          (rw (decode_ser h fits.high fits.room low b.2, ftdi_66eeprom_decode)
            (rw (fields c) (verify-sealed (read_back ftdi e) c area small sum))))

  sealed_behind : (c q : ℕ) → 256 ≤ q → sealed area c q ≡ header q
  sealed_behind c q behind =
      sealed-high area c q behind
      ∙ (string_area-HasStrings fits header).same q (omega (arith, fits.room)) (omega arith)
          (omega arith) (omega arith)

  -- A structure whose strings fit is sealed into an image that the decoder reads back.
  pub seal-decode :
      (n : ℕ)
      → (image : Memory) × (seal e n (string_area e start header) ≡ built n image)
        × (ftdi_66eeprom_decode ftdi (some old) image 256 ≡ decoded (read_back ftdi e))
        × ((q : ℕ) → 256 ≤ q → image q ≡ header q)
  seal-decode n =
      let t = checksum-total 127 area (omega arith) in
      (
        sealed area t.0,
        seal-sealed e n t.0 area fits.size t.1,
        decode_sealed t.0 t.2 t.1,
        λ q behind. sealed_behind t.0 q behind,
      )
