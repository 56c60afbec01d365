-- ===== src/Mbr/Text/Words.antt =====
-- copyWordEndianString of hdmbr/mbr.c, and the readers that trim what it copies.
use c_modules.Base.{
  ℕ, zero, suc, ◌+◌, ◌*◌, ◌<◌, ◌≤◌, ◌≡◌, ◌⊎◌, refl, ◌∙◌, Memory, write, arith, ap, some, List,
  length, IsCString, Holds,
}
use c_modules.Mbr.Text.{copy_words, copy_word_endian_string, read_text}
use c_modules.Mbr.Text.Trim.{IsTrimmed, string_trim_space-IsTrimmed}

copy_words-outside :
    (n d s : ℕ) (source dest : Memory) (q : ℕ)
    → (q < d) ⊎ (d + 2 * n ≤ q)
    → copy_words n d s source dest q ≡ dest q
unfolding copy_words
copy_words-outside zero d s source dest q out = refl
copy_words-outside (suc n) d s source dest q out =
    copy_words-outside n (d + 2) (s + 2) source
      (write (write dest d (source (s + 1))) (d + 1) (source s)) q (omega arith)
    ∙ ground arith

-- Word `k` of the source stands at `u`, and at `p` in the destination.
copy_words-swapped :
    (n d s : ℕ) (source dest : Memory) (k p u : ℕ)
    → k < n
    → d + 2 * k ≡ p
    → s + 2 * k ≡ u
    → (copy_words n d s source dest p ≡ source (u + 1))
      × (copy_words n d s source dest (p + 1) ≡ source u)
unfolding copy_words
copy_words-swapped zero d s source dest k p u lt at from = absurd (omega arith)
copy_words-swapped (suc n) d s source dest zero p u lt at from =
    let m = write (write dest d (source (s + 1))) (d + 1) (source s) in
    (
      copy_words-outside n (d + 2) (s + 2) source m p (omega arith) ∙ ground arith,
      copy_words-outside n (d + 2) (s + 2) source m (p + 1) (omega arith) ∙ ground arith,
    )
copy_words-swapped (suc n) d s source dest (suc k) p u lt at from =
    copy_words-swapped n (d + 2) (s + 2) source
      (write (write dest d (source (s + 1))) (d + 1) (source s)) k p u (omega arith) (omega arith)
      (omega arith)

-- Each of the `len` words arrives with its two bytes exchanged, a NUL follows them, and no other
-- byte of the destination changes.
pub copy_word_endian_string_lem :
    (dest source : Memory) (len : ℕ)
    → ((k : ℕ)
        → k < len
        → (copy_word_endian_string dest source len (2 * k) ≡ source (2 * k + 1))
          × (copy_word_endian_string dest source len (2 * k + 1) ≡ source (2 * k)))
      × (copy_word_endian_string dest source len (2 * len) ≡ 0)
      × ((q : ℕ) → 2 * len < q → copy_word_endian_string dest source len q ≡ dest q)
unfolding copy_word_endian_string
copy_word_endian_string_lem dest source len = (
  λ k lt.
      let w =
        copy_words-swapped len 0 0 source dest k (2 * k) (2 * k) lt (omega arith) (omega arith) in
      (ground arith, ground arith),
  ground arith,
  λ q lt. let o = copy_words-outside len 0 0 source dest q (omega arith) in ground arith,
)

-- readModeName, readSerialNumber and readFwVer: where the exchanged words hold a C string `s`, the
-- name receives `s` without the spaces around it.
read_text-IsTrimmed :
    (fuel start len : ℕ) (name words : Memory) (s : List ℕ)
    → Holds (copy_word_endian_string name (λ p. words (2 * start + p)) len) 0 s
    → IsCString s
    → length s ≡ 2 * len
    → 2 * len < fuel
    → (after : Memory) × (read_text fuel start len name words ≡ some after)
      × IsTrimmed s (copy_word_endian_string name (λ p. words (2 * start + p)) len) after
unfolding read_text
read_text-IsTrimmed fuel start len name words s h ok size enough =
    let copied = copy_word_endian_string name (λ p. words (2 * start + p)) len in
    string_trim_space-IsTrimmed copied s h ok
      (ap copied size ∙ (copy_word_endian_string_lem name (λ p. words (2 * start + p)) len).1) fuel
      (omega arith)
