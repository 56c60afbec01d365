-- ===== src/Tokens/Array.antt =====
-- The array of enStrTok in token/token.c holds every piece.
use c_modules.Base.{
  ◌++◌, All, le→ltb, inr, inl, ℕ, suc, ◌==◌, Bool-cases, ◌+◌, ◌≤◌, ◌≢◌, Bool, true, false, List, [],
  ◌∷◌, length, c_string, refl, arith, if◌then◌else◌, defined, ◌≡◌, length-map,
}
use c_modules.Tokens.Words.{IsWord, joined, pieces, strtok-joined}
use c_modules.Tokens.{strtok, is_delimiter, occurrences, en_str_tok, Pieces}

strtok-room :
    (d : ℕ) (inside : Bool) (text : List ℕ)
    → length (strtok (d ∷ []) inside text).starts
      ≤ occurrences d (c_string text) + (if inside then 0 else 1)
unfolding strtok occurrences is_delimiter
strtok-room d inside [] = ground arith
strtok-room d true (c ∷ cs) =
    let between = strtok-room d false cs in
    let within = strtok-room d true cs in
    elim (Bool-cases (c == 0)) [
      | inl ends ↦ rw ends (ground arith)
      | inr goes ↦ elim (Bool-cases (c == d)) [
        | inl cut ↦ rw (goes, cut, length-map suc (strtok (d ∷ []) false cs).starts) (ground arith)
        | inr more ↦ rw (goes, more, length-map suc (strtok (d ∷ []) true cs).starts) (ground arith)
      ]
    ]
strtok-room d false (c ∷ cs) =
    let between = strtok-room d false cs in
    let within = strtok-room d true cs in
    elim (Bool-cases (c == 0)) [
      | inl ends ↦ rw ends (ground arith)
      | inr goes ↦ elim (Bool-cases (c == d)) [
        | inl cut ↦ rw (goes, cut, length-map suc (strtok (d ∷ []) false cs).starts) (ground arith)
        | inr more ↦ rw (goes, more, length-map suc (strtok (d ∷ []) true cs).starts) (ground arith)
      ]
    ]

module _ (string : List ℕ) (d : ℕ) where
  array_size : ℕ
  array_size = suc (occurrences d (c_string string))

  array_room : length (strtok (d ∷ []) false string).starts ≤ array_size
  unfolding array_size
  array_room = omega (arith, strtok-room d false string)

  en_str_tok-defined :
      en_str_tok string (d ∷ [])
      ≡ defined (record { size = array_size; tokens = strtok (d ∷ []) false string })
  unfolding en_str_tok array_size
  en_str_tok-defined =
      rw (le→ltb array_size (length (strtok (d ∷ []) false string).starts) array_room) refl

-- With one delimiter, whatever the text, enStrTok returns and its pieces fit into the array.
pub en_str_tok-fits :
    (string : List ℕ) (d : ℕ)
    → (p : Pieces) × (en_str_tok string (d ∷ []) ≡ defined p) × (length p.tokens.starts ≤ p.size)
en_str_tok-fits string d = (
  record { size = array_size string d; tokens = strtok (d ∷ []) false string },
  en_str_tok-defined string d,
  array_room string d,
)

-- Words with one delimiter between them, none empty or with the delimiter or a NUL in it, enStrTok
-- cuts into these words, whatever stands behind the NUL.
pub en_str_tok-joined :
    (d : ℕ) (w : List ℕ) (ws : List (List ℕ)) (rest : List ℕ)
    → d ≢ 0
    → IsWord d w
    → All (IsWord d) ws
    → (p : Pieces) × (en_str_tok (joined d (w ∷ ws) ++ (0 ∷ rest)) (d ∷ []) ≡ defined p)
      × (pieces p.tokens ≡ w ∷ ws)
en_str_tok-joined d w ws rest pos h hs =
    let string = joined d (w ∷ ws) ++ (0 ∷ rest) in
    (
      record { size = array_size string d; tokens = strtok (d ∷ []) false string },
      en_str_tok-defined string d,
      strtok-joined d w ws rest pos h hs,
    )
