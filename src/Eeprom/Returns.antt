-- ===== src/Eeprom/Returns.antt =====
-- When the builders of ftdi-eeprom/eeprom.c return: their checksum loop counts in a byte.
use c_modules.Base.{
  refl, Bool, true, false, ℕ, ◌+◌, ◌-◌, ◌/◌, ◌≤◌, ◌<◌, ◌≡◌, ◌⊎◌, inl, inr, none, some, Memory,
  arith, ltb, leb, Option-cases, le→ltb, if◌then◌else◌,
}
use c_modules.Eeprom.Defs.{FtdiHeader, FtdiEeprom}
use c_modules.Eeprom.Checksum.{checksum_loop, checksum_loop-none, checksum-total, checksum-none}
use c_modules.Eeprom.Build.{
  Built, built, refused, diverges, BuildError, check, seal, ftdi_232h_eeprom_build, text_space,
  string_area,
}
use c_modules.Eeprom.Build2232h.{header_2232h, body_2232h, ftdi_2232h_eeprom_build}

-- A normal return, with an image or with an error.
abbrev pub Returns : Built → Type 0
Returns b =
    ((left : ℕ) × (image : Memory) × (b ≡ built left image))
    ⊎ ((error : BuildError) × (b ≡ refused error))

seal-built :
    (e : FtdiEeprom) (n : ℕ) (m : Memory)
    → 2 ≤ e.size
    → e.size < 514
    → (image : Memory) × (seal e n m ≡ built n image)
unfolding seal
seal-built e n m low high =
    let t = checksum-total (e.size / 2 - 1) m (omega arith) in
    rw (t.1, seal) (rw (le→ltb e.size 2 low) (_, refl))

seal-diverges : (e : FtdiEeprom) (n : ℕ) (m : Memory) → 514 ≤ e.size → seal e n m ≡ diverges
unfolding seal
seal-diverges e n m big = rw (checksum-none (e.size / 2 - 1) m (omega arith), seal)

seal-Returns :
    (e : FtdiEeprom) (n : ℕ) (m : Memory) → 2 ≤ e.size → e.size < 514 → Returns (seal e n m)
seal-Returns e n m low high = let b = seal-built e n m low high in inl (n, b.0, b.1)

if-Returns : (b : Bool) (x y : Built) → Returns x → Returns y → Returns (if b then x else y)
if-Returns true x y p q = p
if-Returns false x y p q = q

refused-Returns : (error : BuildError) → Returns (refused error)
refused-Returns error = inr (error, refl)

module _ (ftdi : FtdiHeader) (e : FtdiEeprom) (out : Memory) where
  build_232h-Returns :
      2 ≤ e.size → e.size < 514 → Returns (ftdi_232h_eeprom_build ftdi (some e) out)
  unfolding ftdi_232h_eeprom_build
  build_232h-Returns low high = elim (Option-cases (check ftdi e)) [
    | inl accepted ↦
        rw (accepted, ftdi_232h_eeprom_build)
          (if-Returns (ltb 80 (text_space e)) _ _ (refused-Returns BuildError.too_large)
            (seal-Returns e _ _ low high))
    | inr (error, found) ↦ rw (found, ftdi_232h_eeprom_build) (refused-Returns error)
  ]

  build_2232h-Returns :
      2 ≤ e.size → e.size < 514 → Returns (ftdi_2232h_eeprom_build ftdi (some e) out)
  unfolding ftdi_2232h_eeprom_build body_2232h
  build_2232h-Returns low high = elim (Option-cases (check ftdi e)) [
    | inl accepted ↦
        rw (accepted, ftdi_2232h_eeprom_build)
          (if-Returns (leb 256 e.size) _ _
            (if-Returns (ltb 120 (text_space e)) _ _ (refused-Returns BuildError.too_large)
              (seal-Returns e _ _ low high))
            (if-Returns (ltb e.size (28 + text_space e)) _ _ (refused-Returns BuildError.too_large)
              (seal-Returns e _ _ low high)))
    | inr (error, found) ↦ rw (found, ftdi_2232h_eeprom_build) (refused-Returns error)
  ]

  -- With a size from 2 to 513 both builders return, with an image or an error.
  pub build-Returns :
      2 ≤ e.size
      → e.size < 514
      → Returns (ftdi_232h_eeprom_build ftdi (some e) out)
        × Returns (ftdi_2232h_eeprom_build ftdi (some e) out)
  build-Returns low high = (build_232h-Returns low high, build_2232h-Returns low high)

  -- With a larger size and nothing else to refuse neither builder returns: over the words of that size
  -- the checksum loop does not end in any number of rounds, whatever the image is, since its counter
  -- wraps before it reaches its bound.
  pub build-diverges :
      (rounds : ℕ) (image : Memory)
      → 514 ≤ e.size
      → check ftdi e ≡ none
      → text_space e ≤ 80
      → (checksum_loop rounds (e.size / 2 - 1) 0 0xAAAA image ≡ none)
        × (ftdi_232h_eeprom_build ftdi (some e) out ≡ diverges)
        × (ftdi_2232h_eeprom_build ftdi (some e) out ≡ diverges)
  unfolding ftdi_232h_eeprom_build ftdi_2232h_eeprom_build body_2232h
  build-diverges rounds image big accepted space = (
    checksum_loop-none rounds (e.size / 2 - 1) 0 0xAAAA image (omega arith) (omega arith),
    rw (accepted, ftdi_232h_eeprom_build)
        (rw (le→ltb 80 (text_space e) space) (seal-diverges e _ _ big)),
    rw (accepted, ftdi_2232h_eeprom_build)
        (ground (
          arith,
          seal-diverges e (120 - text_space e) (string_area e 0x9A (header_2232h ftdi e out)) big,
        )),
  )
