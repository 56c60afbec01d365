-- ===== src/Eeprom/Images.antt =====
-- The two builders of ftdi-eeprom/eeprom.c against the decoder, for an EEPROM of 256 bytes.
use c_modules.Base.{
  ℕ, ◌+◌, ◌-◌, ◌*◌, ◌≤◌, ◌≡◌, refl, some, Memory, length, IsCString, arith, le→ltb, leb, memset,
  true,
}
use c_modules.Eeprom.Defs.{FtdiHeader, FtdiEeprom, put}
use c_modules.Eeprom.Build.{
  Built, built, text_of, descriptor, seal, image_232h, ftdi_232h_eeprom_build, text_space,
}
use c_modules.Eeprom.Build.Area.{Fits, man_size, prod_size, ser_size}
use c_modules.Eeprom.Build.Descriptor
use c_modules.Eeprom.Build2232h.{header_2232h, body_2232h, ftdi_2232h_eeprom_build}
use c_modules.Eeprom.Decode.{decoded, ftdi_66eeprom_decode}
use c_modules.Eeprom.RoundTrip.{IsEncodable, read_back, seal-decode}

-- An EEPROM of 256 bytes and strings that C can hold.
pub record IsWritable (e : FtdiEeprom) : Type 0 where
  pub size : e.size ≡ 256
  pub man_ok : IsCString (text_of e.manufacturer)
  pub prod_ok : IsCString (text_of e.product)
  pub ser_ok : IsCString (text_of e.serial)

-- The characters of the three strings.
abbrev pub characters : FtdiEeprom → ℕ
characters e =
    length (text_of e.manufacturer) + length (text_of e.product) + length (text_of e.serial)

writable-Fits :
    (e : FtdiEeprom) (start : ℕ)
    → IsWritable e
    → 128 ≤ start
    → start + (6 + 2 * characters e) ≤ 254
    → Fits e (text_of e.manufacturer) (text_of e.product) (text_of e.serial) start
writable-Fits e start w high room = record {
  size = w.size;
  man_is = refl;
  prod_is = refl;
  ser_is = refl;
  man_ok = w.man_ok;
  prod_ok = w.prod_ok;
  ser_ok = w.ser_ok;
  high = high;
  room = omega arith;
}

text_space-characters :
    {e : FtdiEeprom} {start : ℕ}
    → Fits e (text_of e.manufacturer) (text_of e.product) (text_of e.serial) start
    → text_space e ≡ 2 * characters e
text_space-characters f = omega (arith, man_size f, prod_size f, ser_size f)

-- `result` is a normal return of `left` and an image that ftdi_66eeprom_decode accepts and reads as
-- `read_back` says; behind its 256 bytes the memory is as before.
abbrev pub Writes : FtdiHeader → FtdiEeprom → FtdiEeprom → Memory → Built → (left : ℕ) → Type 0
Writes ftdi e old out result left =
    (image : Memory) × (result ≡ built left image)
    × (ftdi_66eeprom_decode ftdi (some old) image 256 ≡ decoded (read_back ftdi e))
    × ((q : ℕ) → 256 ≤ q → image q ≡ out q)

module _ (ftdi : FtdiHeader) (e old : FtdiEeprom) (out : Memory) (ok : IsEncodable ftdi e)
    (w : IsWritable e) where
  start_232h : Memory
  start_232h = put (put (memset out 0 e.size) 0x00 0x10) 0x01 0x00

  image_232h-Writes :
      Fits e (text_of e.manufacturer) (text_of e.product) (text_of e.serial) 0xA0
      → (n : ℕ) → Writes ftdi e old out (seal e n (image_232h ftdi e out)) n
  unfolding image_232h start_232h
  image_232h-Writes f n =
      let d =
        descriptor ftdi e (length (text_of e.manufacturer)) (length (text_of e.product))
          (length (text_of e.serial)) start_232h in
      let s =
        seal-decode f ok old (put (put d 0x1e 0x66) 0x8a 0x48) start_232h (λ q h. ground arith) n in
      rw (man_size f, prod_size f, ser_size f)
        (
          s.0,
          s.1,
          s.2,
          λ q behind.
              let e1 = s.3 q behind in
              let e2 =
                Descriptor.descriptor-behind ftdi e (length (text_of e.manufacturer))
                  (length (text_of e.product)) (length (text_of e.serial)) start_232h q behind in
              ground (arith, w.size),
        )

  -- ftdi_232h_eeprom_build, given encodable values and at most 40 characters, returns the space that
  -- is left and an image that ftdi_66eeprom_decode accepts. It reads from it the structure with size
  -- 0, a USB version of 0 unless it is enabled, empty strings for NULL, and as high_current the bits
  -- of HIGH_CURRENT_DRIVE in the low byte of the vendor id. Behind the 256 bytes nothing is written.
  pub build_232h-decode :
      characters e ≤ 40
      → Writes ftdi e old out (ftdi_232h_eeprom_build ftdi (some e) out) (80 - 2 * characters e)
  unfolding ftdi_232h_eeprom_build
  build_232h-decode short =
      let f = writable-Fits e 0xA0 w (omega arith) (omega arith) in
      let space = text_space-characters f in
      rw (ok.accepted, ftdi_232h_eeprom_build)
        (rw (le→ltb 80 (text_space e) (omega arith), space)
          (image_232h-Writes f (80 - 2 * characters e)))

  start_2232h : Memory
  start_2232h = put (put (memset out 0 e.size) 0x00 0x8) 0x01 0x8

  body_2232h-Writes :
      Fits e (text_of e.manufacturer) (text_of e.product) (text_of e.serial) 0x9A
      → (n : ℕ) → Writes ftdi e old out (body_2232h e n (header_2232h ftdi e out)) n
  unfolding body_2232h header_2232h start_2232h
  body_2232h-Writes f n =
      let d =
        descriptor ftdi e (length (text_of e.manufacturer)) (length (text_of e.product))
          (length (text_of e.serial)) start_2232h in
      let s = seal-decode f ok old (put d 0x18 0x46) start_2232h (λ q h. ground arith) n in
      rw (man_size f, prod_size f, ser_size f)
        (
          s.0,
          s.1,
          s.2,
          λ q behind.
              let e1 = s.3 q behind in
              let e2 =
                Descriptor.descriptor-behind ftdi e (length (text_of e.manufacturer))
                  (length (text_of e.product)) (length (text_of e.serial)) start_2232h q behind in
              ground (arith, w.size),
        )

  -- ftdi_2232h_eeprom_build, given encodable values, an EEPROM of 256 bytes and at most 47 characters,
  -- although it grants 60, returns 120 less twice the characters and an image that
  -- ftdi_66eeprom_decode accepts. It reads from it the structure with size 0, a USB version of 0
  -- unless it is enabled, empty strings for NULL, and as high_current the bits of HIGH_CURRENT_DRIVE
  -- in the low byte of the vendor id. Behind the 256 bytes nothing is written.
  pub build_2232h-decode :
      characters e ≤ 47
      → Writes ftdi e old out (ftdi_2232h_eeprom_build ftdi (some e) out) (120 - 2 * characters e)
  unfolding ftdi_2232h_eeprom_build
  build_2232h-decode short =
      let f = writable-Fits e 0x9A w (omega arith) (omega arith) in
      let space = text_space-characters f in
      let big : leb 256 e.size ≡ true = ground (arith, w.size) in
      rw (ok.accepted, ftdi_2232h_eeprom_build)
        (rw (big, le→ltb 120 (text_space e) (omega arith), space)
          (body_2232h-Writes f (120 - 2 * characters e)))
