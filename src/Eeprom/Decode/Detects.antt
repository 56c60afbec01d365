-- ===== src/Eeprom/Decode/Detects.antt =====
-- One wrong byte in an image, for ftdi_66eeprom_decode of ftdi-eeprom/eeprom.c.
use c_modules.Base.{
  ap, ℕ, ◌+◌, ◌*◌, ◌/◌, ◌%◌, ◌≤◌, ◌<◌, ◌≡◌, ◌≢◌, refl, ◌∙◌, sym, Memory, some, ltb, arith, ◌==◌,
  ==_iff, Bool-cases, inl, inr,
}
use mathlib.Core.Path.{subst}
use c_modules.Eeprom.Defs.{FtdiHeader, FtdiEeprom}
use c_modules.Eeprom.Checksum.{checksum, word_at, checksum-ext}
use c_modules.Eeprom.Checksum.Detects.{checksum-differs}
use c_modules.Eeprom.Decode.{decoded, verify, ftdi_66eeprom_decode}

abbrev pub IsBytes : Memory → Type 0
IsBytes m = (p : ℕ) → m p < 256

-- What the last two bytes hold.
abbrev stored : Memory → ℕ
stored m = (m 254 + m 255 * 256) % 65536

accepted_verify :
    (m : Memory) (f e : FtdiEeprom) → verify m f ≡ decoded e → checksum 127 m ≡ some (stored m)
unfolding verify
accepted_verify m f e h = ground arith

accepted_sum :
    (ftdi : FtdiHeader) (old : FtdiEeprom) (m : Memory) (e : FtdiEeprom)
    → ftdi_66eeprom_decode ftdi (some old) m 256 ≡ decoded e
    → checksum 127 m ≡ some (stored m)
unfolding ftdi_66eeprom_decode verify
accepted_sum ftdi old m e h = ground arith

module _ (m m' : Memory) (bytes : IsBytes m) (bytes' : IsBytes m') (q : ℕ) (changed : m' q ≢ m q)
    (same : (p : ℕ) → p ≢ q → m' p ≡ m p) where
  word_same : (j : ℕ) → j ≢ q / 2 → word_at m (j * 2) ≡ word_at m' (j * 2)
  unfolding word_at
  word_same j ne = rw (same (j * 2) (omega arith), same (j * 2 + 1) (omega arith)) refl

  word_changed : word_at m (q / 2 * 2) ≢ word_at m' (q / 2 * 2)
  unfolding word_at
  word_changed e = elim (Bool-cases (q == q / 2 * 2)) [
    | inl even ↦
        let at : q ≡ q / 2 * 2 = (==_iff q (q / 2 * 2)).0 even in
        let low = subst (λ t. m' t ≢ m t) at changed in
        absurd (
          omega (
            arith,
            same (q / 2 * 2 + 1) (omega arith),
            bytes (q / 2 * 2),
            bytes' (q / 2 * 2),
            bytes (q / 2 * 2 + 1),
          ))
    | inr odd ↦
        let at : q ≡ q / 2 * 2 + 1 = ground arith in
        let high = subst (λ t. m' t ≢ m t) at changed in
        absurd (
          omega (
            arith,
            same (q / 2 * 2) (omega arith),
            bytes (q / 2 * 2),
            bytes (q / 2 * 2 + 1),
            bytes' (q / 2 * 2 + 1),
          ))
  ]

  sum_changed : q < 254 → checksum 127 m ≢ checksum 127 m'
  sum_changed low =
      checksum-differs m m' 127 (q / 2) (omega arith) (omega arith) (λ j ne lt. word_same j ne)
        word_changed

  sum_kept : 254 ≤ q → checksum 127 m ≡ checksum 127 m'
  sum_kept high = checksum-ext 127 m m' (λ p lt. sym (same p (omega arith)))

  stored_changed : 254 ≤ q → q < 256 → stored m ≢ stored m'
  stored_changed high lt e = elim (Bool-cases (q == 254)) [
    | inl first ↦
        let at : q ≡ 254 = (==_iff q 254).0 first in
        let low = subst (λ t. m' t ≢ m t) at changed in
        absurd (omega (arith, same 255 (omega arith), bytes 254, bytes' 254, bytes 255))
    | inr second ↦
        let at : q ≡ 255 = ground arith in
        let low = subst (λ t. m' t ≢ m t) at changed in
        absurd (omega (arith, same 254 (omega arith), bytes 254, bytes 255, bytes' 255))
  ]

  stored_low : q < 254 → stored m ≡ stored m'
  stored_low low = rw (same 254 (omega arith), same 255 (omega arith)) refl

  -- Of two images that differ in exactly one byte, ftdi_66eeprom_decode accepts at most one: a single
  -- wrong byte anywhere in the 256, the checksum's own two included, is always found.
  pub decode_detects :
      (ftdi : FtdiHeader) (old e e' : FtdiEeprom)
      → q < 256
      → ftdi_66eeprom_decode ftdi (some old) m 256 ≡ decoded e
      → ftdi_66eeprom_decode ftdi (some old) m' 256 ≢ decoded e'
  decode_detects ftdi old e e' lt accepted accepted' =
      let sum = accepted_sum ftdi old m e accepted in
      let sum' = accepted_sum ftdi old m' e' accepted' in
      elim (Bool-cases (ltb q 254)) [
        | inl low ↦
            let l : q < 254 = ground arith in
            sum_changed l (sum ∙ ap some (stored_low l) ∙ sym sum')
        | inr high ↦
            let h : 254 ≤ q = ground arith in
            let both : some (stored m) ≡ some (stored m') = sym sum ∙ sum_kept h ∙ sum' in
            stored_changed h lt (cc)
      ]
