-- ===== src/Mbr/Tool/Fields.antt =====
-- The texts that hdmbr/main.c prints of the fields of the identify block.
use c_modules.Base.{
  ℕ, zero, suc, ◌+◌, ◌*◌, ◌<◌, ◌≤◌, ◌≡◌, refl, ap, ◌∙◌, sym, arith, some, List, [], ◌∷◌, ◌++◌,
  length, length-append, Memory, Holds, IsCString, All, IsPlain, ne→==, eq→==,
}
use mathlib.Core.Path.{subst}
use c_modules.Mbr.Text.{copy_word_endian_string}
use c_modules.Mbr.Text.Trim.{spaces, IsTrimOf, string_trim_space-IsTrimmed}
use c_modules.Mbr.Text.Words.{copy_word_endian_string_lem}
use c_modules.Mbr.Tool.{printed_string, printed_trimmed, show_field}

-- The characters of `len` words: the second byte of each stands first.
unfoldable pub exchanged : (source : Memory) → (at len : ℕ) → List ℕ
exchanged source at zero = []
exchanged source at (suc len) = source (at + 1) ∷ source at ∷ exchanged source (at + 2) len

length-exchanged : (source : Memory) (at len : ℕ) → length (exchanged source at len) ≡ 2 * len
unfolding exchanged
length-exchanged source at zero = refl
length-exchanged source at (suc len) = omega (arith, length-exchanged source (at + 2) len)

-- A memory that has the words exchanged holds these characters.
Holds-exchanged :
    (m source : Memory) (at len : ℕ)
    → ((k : ℕ)
        → k < len
        → (m (at + 2 * k) ≡ source (at + 2 * k + 1)) × (m (at + 2 * k + 1) ≡ source (at + 2 * k)))
    → Holds m at (exchanged source at len)
unfolding exchanged
Holds-exchanged m source at zero words = _
Holds-exchanged m source at (suc len) words =
    let a : at + 2 * 0 ≡ at = omega arith in
    let (low, high) = words 0 (omega arith) in
    (
      ap m (sym a) ∙ low ∙ ap (λ q. source (q + 1)) a,
      (
        ap (λ q. m (q + 1)) (sym a) ∙ high ∙ ap source a,
        subst (λ q. Holds m q (exchanged source (at + 2) len)) {x = at + 2} {y = at + 1 + 1}
            (omega arith)
            (Holds-exchanged m source (at + 2) len (λ k lt.
              let b : at + 2 * suc k ≡ at + 2 + 2 * k = omega arith in
              let (low', high') = words (suc k) (omega arith) in
              (
                ap m (sym b) ∙ low' ∙ ap (λ q. source (q + 1)) b,
                ap (λ q. m (q + 1)) (sym b) ∙ high' ∙ ap source b,
              ))),
      ),
    )

-- A text with a NUL behind it is printed.
printed_string-Holds :
    (fuel : ℕ) (m : Memory) (at : ℕ) (text : List ℕ)
    → IsPlain text
    → Holds m at text
    → m (at + length text) ≡ 0
    → length text < fuel
    → printed_string fuel m at ≡ some text
unfolding printed_string
printed_string-Holds zero m at text plain h nul enough = absurd (omega arith)
printed_string-Holds (suc fuel) m at [] plain h nul enough =
    let e : at ≡ at + 0 = omega arith in rw (eq→== (m at) 0 (ap m e ∙ nul)) refl
printed_string-Holds (suc fuel) m at (c ∷ text) plain h nul enough =
    let e : at + 1 + length text ≡ at + suc (length text) = omega arith in
    let rest = printed_string-Holds fuel m (at + 1) text plain.1 h.1 (ap m e ∙ nul) (omega arith) in
    rw (ne→== (m at) 0 (λ z. plain.0 (sym h.0 ∙ z)), rest) (ap (λ b. some (b ∷ text)) h.0)

module _ (P : ℕ → Type 0) where
  All-left : (xs ys : List ℕ) → All P (xs ++ ys) → All P xs
  All-left [] ys h = _
  All-left (x ∷ xs) ys h = (h.0, All-left xs ys h.1)

  All-right : (xs ys : List ℕ) → All P (xs ++ ys) → All P ys
  All-right [] ys h = h
  All-right (x ∷ xs) ys h = All-right xs ys h.1

abbrev IsByte : ℕ → Type 0
IsByte c = (0 < c) × (c < 256)

IsCString-IsPlain : (s : List ℕ) → IsCString s → IsPlain s
IsCString-IsPlain [] h = _
IsCString-IsPlain (c ∷ s) h = (omega (arith, h.0.0), IsCString-IsPlain s h.1)

trim-IsPlain : (s mid : List ℕ) → IsCString s → IsTrimOf s mid → IsPlain mid
trim-IsPlain s mid h t = IsCString-IsPlain mid (
    All-left IsByte mid (spaces t.rear)
      (All-right IsByte (spaces t.front) (mid ++ spaces t.rear) (subst IsCString t.split h)))

length-trim : (s mid : List ℕ) → IsTrimOf s mid → length mid ≤ length s
length-trim s mid t = omega (
  arith,
  ap length t.split,
  length-append (spaces t.front) (mid ++ spaces t.rear),
  length-append mid (spaces t.rear),
)

-- A field whose characters are not NUL is printed without the spaces around them.
pub show_field-IsTrimOf :
    (fuel : ℕ) (buffer source : Memory) (len : ℕ)
    → IsCString (exchanged source 0 len)
    → 2 * len < fuel
    → (mid : List ℕ) × (show_field fuel buffer source len ≡ some mid)
      × IsTrimOf (exchanged source 0 len) mid
unfolding show_field printed_trimmed
show_field-IsTrimOf fuel buffer source len ok enough =
    let s = exchanged source 0 len in
    let copied = copy_word_endian_string buffer source len in
    let (words, nul, behind) = copy_word_endian_string_lem buffer source len in
    let size = length-exchanged source 0 len in
    let holds = Holds-exchanged copied source 0 len (λ k lt.
      subst (λ q. (copied q ≡ source (q + 1)) × (copied (q + 1) ≡ source q)) {x = 2 * k}
        {y = 0 + 2 * k} (omega arith) (words k lt)) in
    let (after, e, t) =
      string_trim_space-IsTrimmed copied s holds ok (ap copied size ∙ nul) fuel
        (omega (arith, size)) in
    (
      t.mid,
      ap (printed_trimmed fuel) e
          ∙ printed_string-Holds fuel after 0 t.mid (trim-IsPlain s t.mid ok t.trim) t.text
              (let z : 0 + length t.mid ≡ length t.mid = omega arith in ap after z ∙ t.nul)
              (omega (arith, length-trim s t.mid t.trim, size)),
      t.trim,
    )
