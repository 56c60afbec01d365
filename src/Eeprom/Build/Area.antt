-- ===== src/Eeprom/Build/Area.antt =====
-- The string area of an image of 256 bytes: where the three strings stand, and that nothing else
-- but their offsets is written.
use c_modules.Base.{
  ℕ, ◌+◌, ◌*◌, ◌%◌, ◌≤◌, ◌<◌, bit_or, ◌≡◌, refl, ◌∙◌, ◌≢◌, Option, none, some, List, Memory, length,
  strlen-length, IsCString, arith, ne→==,
}
use c_modules.Base.Bits.{bit_or_128}
use c_modules.Eeprom.Defs.{FtdiEeprom, put, string_size}
use c_modules.Eeprom.Strings.{Cursor, emit_string, read_chars}
use c_modules.Eeprom.Strings.Laws.{Outside, IsWritten, emit_string-IsWritten, read_chars-ext}
use c_modules.Eeprom.Build.{string_area, text_of}

pub string_size-length :
    (s : Option (List ℕ))
    → IsCString (text_of s)
    → length (text_of s) < 256
    → string_size s ≡ length (text_of s)
unfolding string_size
string_size-length none ok small = refl
string_size-length (some s) ok small = omega (arith, strlen-length s ok)

-- `after` is `before` with the strings from `start` on, and their offsets.
pub record HasStrings (man prod ser : List ℕ) (start : ℕ) (before after : Memory) : Type 0 where
  pub man_offset : after 0x0E ≡ start
  pub prod_offset : after 0x10 ≡ start + (2 + 2 * length man)
  pub ser_offset : after 0x12 ≡ start + (4 + 2 * length man + 2 * length prod)
  pub man_text : read_chars after 256 (length man) (start + 2) ≡ some man
  pub prod_text : read_chars after 256 (length prod) (start + (2 + 2 * length man) + 2) ≡ some prod
  pub ser_text :
      read_chars after 256 (length ser) (start + (4 + 2 * length man + 2 * length prod) + 2)
      ≡ some ser
  pub same :
      (q : ℕ)
      → Outside start (6 + 2 * length man + 2 * length prod + 2 * length ser) q
      → q ≢ 0x0E
      → q ≢ 0x10
      → q ≢ 0x12
      → after q ≡ before q

put_self : (m : Memory) (p v : ℕ) → v < 256 → put m p v p ≡ v
put_self m p v h = ground arith

put_ne : (m : Memory) (p v q : ℕ) → q ≢ p → put m p v q ≡ m q
put_ne m p v q ne = rw (ne→== q p ne) refl

-- The three strings are written one behind the other, each after its offset.
module _ {man prod ser : List ℕ} {start : ℕ} (m : Memory) {c1 c2 c3 : Cursor} (high : 128 ≤ start)
    (room : start + (6 + 2 * length man + 2 * length prod + 2 * length ser) ≤ 254)
    (w1 : IsWritten start (2 + 2 * length man) (start + 2) man (put m 0x0E start) c1)
    (w2 : IsWritten c1.at
      (2 + 2 * length prod)
      (c1.at + 2)
      prod
      (put c1.out 0x10 (bit_or c1.at 0x80))
      c2)
    (w3 : IsWritten c2.at
      (2 + 2 * length ser)
      (c2.at + 2)
      ser
      (put c2.out 0x12 (bit_or c2.at 0x80))
      c3) where
  end1 : c1.at ≡ start + (2 + 2 * length man)
  end1 = w1.next

  end2 : c2.at ≡ start + (4 + 2 * length man + 2 * length prod)
  end2 = omega (arith, w1.next, w2.next)

  offset_byte : (p : ℕ) → 128 ≤ p → p < 256 → bit_or p 0x80 % 256 ≡ p
  offset_byte p h k = omega (arith, bit_or_128 p h k)

  same2 : (q : ℕ) → q ≢ 0x12 → Outside c2.at (2 + 2 * length ser) q → c3.out q ≡ c2.out q
  same2 q ne out = w3.same q out ∙ put_ne c2.out 0x12 (bit_or c2.at 0x80) q ne

  same1 : (q : ℕ) → q ≢ 0x10 → Outside c1.at (2 + 2 * length prod) q → c2.out q ≡ c1.out q
  same1 q ne out = w2.same q out ∙ put_ne c1.out 0x10 (bit_or c1.at 0x80) q ne

  pub written-HasStrings : HasStrings man prod ser start m c3.out
  written-HasStrings = record {
    man_offset =
        same2 0x0E (omega arith) (omega (arith, end2))
        ∙ same1 0x0E (omega arith) (omega (arith, end1))
        ∙ w1.same 0x0E (omega arith)
        ∙ put_self m 0x0E start (omega arith);
    prod_offset =
        same2 0x10 (omega arith) (omega (arith, end2))
        ∙ w2.same 0x10 (omega (arith, end1))
        ∙ offset_byte c1.at (omega (arith, end1)) (omega (arith, end1))
        ∙ end1;
    ser_offset =
        w3.same 0x12 (omega (arith, end2))
        ∙ offset_byte c2.at (omega (arith, end2)) (omega (arith, end2))
        ∙ end2;
    man_text =
        read_chars-ext (length man) 256 (start + 2) c3.out c1.out (λ q a b.
          same2 q (omega arith) (omega (arith, end2)) ∙ same1 q (omega arith) (omega (arith, end1)))
        ∙ w1.reads 256 (omega arith);
    prod_text = rw (← end1) (
        read_chars-ext (length prod) 256 (c1.at + 2) c3.out c2.out
          (λ q a b. same2 q (omega (arith, end1)) (omega (arith, w2.next)))
        ∙ w2.reads 256 (omega (arith, end1)));
    ser_text = rw (← end2) (w3.reads 256 (omega (arith, end2)));
    same = λ q out ne1 ne2 ne3.
        same2 q ne3 (omega (arith, end2))
        ∙ same1 q ne2 (omega (arith, end1))
        ∙ w1.same q (omega arith)
        ∙ put_ne m 0x0E start q ne1;
  }

-- The size and the strings of an image of 256 bytes.
pub record Fits (e : FtdiEeprom) (man prod ser : List ℕ) (start : ℕ) : Type 0 where
  pub size : e.size ≡ 256
  pub man_is : text_of e.manufacturer ≡ man
  pub prod_is : text_of e.product ≡ prod
  pub ser_is : text_of e.serial ≡ ser
  pub man_ok : IsCString man
  pub prod_ok : IsCString prod
  pub ser_ok : IsCString ser
  pub high : 128 ≤ start
  pub room : start + (6 + 2 * length man + 2 * length prod + 2 * length ser) ≤ 254

-- The area over what the structure gives.
laid : (mask ms ps ss : ℕ) (man prod ser : List ℕ) (start : ℕ) → Memory → Memory
laid mask ms ps ss man prod ser start m =
    let c1 = emit_string mask ms man (record { at = start; out = put m 0x0E start }) in
    let c2 =
      emit_string mask ps prod (record { at = c1.at; out = put c1.out 0x10 (bit_or c1.at 0x80) }) in
    (emit_string mask ss ser (record { at = c2.at; out = put c2.out 0x12 (bit_or c2.at 0x80) })).out

string_area-laid :
    (e : FtdiEeprom) (start : ℕ) (m : Memory)
    → string_area e start m
      ≡ laid
          ((e.size + 255) % 256)
          (string_size e.manufacturer)
          (string_size e.product)
          (string_size e.serial)
          (text_of e.manufacturer)
          (text_of e.product)
          (text_of e.serial)
          start
          m
unfolding string_area laid
string_area-laid e start m = refl

module _ {e : FtdiEeprom} {man prod ser : List ℕ} {start : ℕ} (f : Fits e man prod ser start) where
  pub man_size : string_size e.manufacturer ≡ length man
  man_size = rw (← f.man_is) (
      string_size-length e.manufacturer (rw f.man_is f.man_ok)
        (rw f.man_is (omega (arith, f.room))))

  pub prod_size : string_size e.product ≡ length prod
  prod_size =
      rw (← f.prod_is) (
        string_size-length e.product (rw f.prod_is f.prod_ok)
          (rw f.prod_is (omega (arith, f.room))))

  pub ser_size : string_size e.serial ≡ length ser
  ser_size =
      rw (← f.ser_is)
        (string_size-length e.serial (rw f.ser_is f.ser_ok) (rw f.ser_is (omega (arith, f.room))))

  laid-HasStrings :
      (m : Memory)
      → HasStrings man prod ser start m
          (laid 255 (length man) (length prod) (length ser) man prod ser start m)
  unfolding laid
  laid-HasStrings m =
      let w1 =
        emit_string-IsWritten man (record { at = start; out = put m 0x0E start }) f.man_ok
          (omega (arith, f.room)) in
      let c1 = emit_string 255 (length man) man (record { at = start; out = put m 0x0E start }) in
      let w2 =
        emit_string-IsWritten prod
          (record { at = c1.at; out = put c1.out 0x10 (bit_or c1.at 0x80) }) f.prod_ok
          (omega (arith, f.room, w1.next)) in
      let c2 =
        emit_string 255 (length prod) prod
          (record { at = c1.at; out = put c1.out 0x10 (bit_or c1.at 0x80) }) in
      let w3 =
        emit_string-IsWritten ser (record { at = c2.at; out = put c2.out 0x12 (bit_or c2.at 0x80) })
          f.ser_ok (omega (arith, f.room, w1.next, w2.next)) in
      written-HasStrings m f.high f.room w1 w2 w3

  -- The strings of a structure that fits stand in its image.
  pub string_area-HasStrings :
      (m : Memory) → HasStrings man prod ser start m (string_area e start m)
  string_area-HasStrings m =
      rw
        (
          string_area-laid e start m,
          f.size,
          man_size,
          prod_size,
          ser_size,
          f.man_is,
          f.prod_is,
          f.ser_is,
        )
        (laid-HasStrings m)
