-- ===== src/Eeprom/Strings/Laws.antt =====
-- One string of an image in an EEPROM of 256 bytes, where the position mask keeps every position.
use c_modules.Base.{
  ℕ, zero, suc, ◌+◌, ◌*◌, ◌%◌, ◌≤◌, ◌<◌, ◌≡◌, refl, ◌∙◌, ◌≢◌, ◌⊎◌, some, List, [], ◌∷◌, Memory,
  length, IsCString, arith, lt→ltb, ne→==,
}
use c_modules.Base.Bits.{bit_and-255}
use c_modules.Eeprom.Strings.{Cursor, emit, emit_chars, emit_string, read_chars}

-- `q` lies outside the `n` bytes from `p` on.
abbrev pub Outside : ℕ → ℕ → ℕ → Type 0
Outside p n q = (q < p) ⊎ (p + n ≤ q)

-- `n` bytes from `p` on are written: the cursor goes on behind them, no other byte changes, and the
-- characters of `s` are read back from `text`.
pub record IsWritten (p n text : ℕ) (s : List ℕ) (m : Memory) (cur : Cursor) : Type 0 where
  pub next : cur.at ≡ p + n
  pub same : (q : ℕ) → Outside p n q → cur.out q ≡ m q
  pub reads : (size : ℕ) → p + n ≤ size → read_chars cur.out size (length s) text ≡ some s

-- One byte at a position that does not wrap.
module _ (v : ℕ) (cur : Cursor) (room : cur.at < 255) where
  emit-at : (emit 255 v cur).at ≡ cur.at + 1
  unfolding emit
  emit-at = omega arith

  emit_self : (emit 255 v cur).out cur.at ≡ v % 256
  unfolding emit
  emit_self = rw (bit_and-255 cur.at (omega arith)) (ground arith)

  emit_ne : (q : ℕ) → q ≢ cur.at → (emit 255 v cur).out q ≡ cur.out q
  unfolding emit
  emit_ne q ne = rw (bit_and-255 cur.at (omega arith), ne→== q cur.at ne) refl

-- Two bytes.
module _ (v w : ℕ) (cur : Cursor) (room : cur.at + 1 < 255) where
  abbrev pair_of : Cursor
  pair_of = emit 255 w (emit 255 v cur)

  pair-at : pair_of.at ≡ cur.at + 2
  pair-at = omega (
    arith,
    emit-at v cur (omega arith),
    emit-at w (emit 255 v cur) (omega (arith, emit-at v cur (omega arith))),
  )

  pair_first : pair_of.out cur.at ≡ v % 256
  pair_first =
      let e = emit-at v cur (omega arith) in
      emit_ne w (emit 255 v cur) (omega arith) cur.at (omega arith) ∙ emit_self v cur (omega arith)

  pair_ne : (q : ℕ) → Outside cur.at 2 q → pair_of.out q ≡ cur.out q
  pair_ne q out =
      let e = emit-at v cur (omega arith) in
      emit_ne w (emit 255 v cur) (omega arith) q (omega arith)
      ∙ emit_ne v cur (omega arith) q (omega arith)

-- Reading depends on the bytes of the string only.
pub read_chars-ext :
    (n size p : ℕ) (m m' : Memory)
    → ((q : ℕ) → p ≤ q → q < p + 2 * n → m q ≡ m' q)
    → read_chars m size n p ≡ read_chars m' size n p
unfolding read_chars
read_chars-ext zero size p m m' same = refl
read_chars-ext (suc n) size p m m' same =
    rw
      (
        same p (omega arith) (omega arith),
        read_chars-ext n size (p + 2) m m' (λ q a b. same q (omega arith) (omega arith)),
      )
      refl

emit_chars-IsWritten :
    (s : List ℕ) (cur : Cursor)
    → IsCString s
    → cur.at + 2 * length s ≤ 255
    → IsWritten cur.at (2 * length s) cur.at s cur.out (emit_chars 255 (length s) s cur)
unfolding emit_chars read_chars
emit_chars-IsWritten [] cur ok room = record {
  next = omega arith;
  same = λ q out. refl;
  reads = λ size h. refl;
}
emit_chars-IsWritten (c ∷ cs) cur ok room =
    let at = pair-at c 0 cur (omega arith) in
    let rest = emit_chars-IsWritten cs (pair_of c 0 cur (omega arith)) ok.1 (omega arith) in
    record {
      next = omega (arith, rest.next);
      same = λ q out. rest.same q (omega arith) ∙ pair_ne c 0 cur (omega arith) q (omega arith);
      reads = λ size h.
          let first : (emit_chars 255 (length cs) cs (pair_of c 0 cur (omega arith))).out cur.at
              ≡ c =
            rest.same cur.at (omega arith) ∙ pair_first c 0 cur (omega arith) ∙ omega arith in
          let back = rest.reads size (omega arith) in
          rw (lt→ltb cur.at size (omega arith), first, ← at, back) refl;
    }

-- A string descriptor at a position where it does not wrap.
pub emit_string-IsWritten :
    (s : List ℕ) (cur : Cursor)
    → IsCString s
    → cur.at + (2 + 2 * length s) ≤ 254
    → IsWritten cur.at (2 + 2 * length s) (cur.at + 2) s cur.out (emit_string 255 (length s) s cur)
unfolding emit_string
emit_string-IsWritten s cur ok room =
    let at = pair-at (length s * 2 + 2) 3 cur (omega arith) in
    let rest =
      emit_chars-IsWritten s (pair_of (length s * 2 + 2) 3 cur (omega arith)) ok (omega arith) in
    record {
      next = omega (arith, rest.next);
      same = λ q out.
          rest.same q (omega arith)
          ∙ pair_ne (length s * 2 + 2) 3 cur (omega arith) q (omega arith);
      reads = λ size h. rw (← at) (rest.reads size (omega arith));
    }
