-- ===== src/Tokens/Words.antt =====
-- The pieces that strtok cuts out of words with a delimiter between them.
use c_modules.Base.{
  c_string-cons, eq→==, ℕ, zero, suc, ◌≢◌, ◌++◌, Bool, true, false, List, [], ◌∷◌, map, All,
  c_string, if◌then◌else◌, ◌≡◌, refl, ap, ◌∙◌, map_fuse, ne→==,
}
use mathlib.Core.List.{append_assoc}
use c_modules.Tokens.{Tokens, strtok, is_delimiter, string_at}

unfoldable pub pieces : Tokens → List (List ℕ)
pieces t = map (string_at t.text) t.starts

-- A word that is not empty and has neither the delimiter nor a NUL.
abbrev pub IsWord : ℕ → List ℕ → Type 0
IsWord d [] = ⊥
IsWord d (c ∷ w) = All (λ b. (b ≢ 0) × (b ≢ d)) (c ∷ w)

abbrev pub joined : ℕ → List (List ℕ) → List ℕ
joined d [] = []
joined d (w ∷ []) = w
joined d (w ∷ v ∷ ws) = w ++ (d ∷ joined d (v ∷ ws))

-- What a scan of `text` from inside a word `w` leaves.
record Scanned (d : ℕ) (text w : List ℕ) (ws : List (List ℕ)) : Type 0 where
  word : c_string (strtok (d ∷ []) true text).text ≡ w
  others : pieces (strtok (d ∷ []) true text) ≡ ws

module _ (d c : ℕ) (text : List ℕ) where
  strtok_byte :
      (inside : Bool)
      → (c ≢ 0) × (c ≢ d)
      → strtok (d ∷ []) inside (c ∷ text) ≡ record {
        starts =
            let rest = map suc (strtok (d ∷ []) true text).starts in
            if inside then rest else zero ∷ rest;
        text = c ∷ (strtok (d ∷ []) true text).text;
      }
  unfolding strtok is_delimiter
  strtok_byte inside h = rw (ne→== c 0 h.0, ne→== c d h.1) refl

  strtok_delimiter :
      c ≢ 0
      → c ≡ d
      → strtok (d ∷ []) true (c ∷ text) ≡ record {
        starts = map suc (strtok (d ∷ []) false text).starts;
        text = 0 ∷ (strtok (d ∷ []) false text).text;
      }
  unfolding strtok is_delimiter
  strtok_delimiter pos e = rw (ne→== c 0 pos, eq→== c d e) refl

-- One byte in front moves the pieces.
pieces_shift :
    (c : ℕ) (t : Tokens)
    → pieces (record { starts = map suc t.starts; text = c ∷ t.text }) ≡ pieces t
unfolding pieces string_at
pieces_shift c t = map_fuse suc (string_at (c ∷ t.text)) t.starts

scan_step :
    (d c : ℕ) (text w : List ℕ) (ws : List (List ℕ))
    → (c ≢ 0) × (c ≢ d)
    → Scanned d text w ws
    → Scanned d (c ∷ text) (c ∷ w) ws
scan_step d c text w ws h s =
    let step = strtok_byte d c text true h in
    record {
      word =
          ap (λ t. c_string t.text) step
          ∙ c_string-cons c (strtok (d ∷ []) true text).text h.0
          ∙ ap (λ x. c ∷ x) s.word;
      others = ap pieces step ∙ pieces_shift c (strtok (d ∷ []) true text) ∙ s.others;
    }

scan_word :
    (d : ℕ) (w text : List ℕ) (ws : List (List ℕ))
    → All (λ b. (b ≢ 0) × (b ≢ d)) w
    → Scanned d text [] ws
    → Scanned d (w ++ text) w ws
scan_word d [] text ws h s = s
scan_word d (c ∷ w) text ws h s = scan_step d c (w ++ text) w ws h.0 (scan_word d w text ws h.1 s)

scan_end : (d : ℕ) (rest : List ℕ) → Scanned d (0 ∷ rest) [] []
unfolding strtok pieces
scan_end d rest = record { word = refl; others = refl }

scan_cut :
    (d : ℕ) (text : List ℕ) (ws : List (List ℕ))
    → d ≢ 0
    → pieces (strtok (d ∷ []) false text) ≡ ws
    → Scanned d (d ∷ text) [] ws
scan_cut d text ws pos h =
    let step = strtok_delimiter d d text pos refl in
    record {
      word = ap (λ t. c_string t.text) step;
      others = ap pieces step ∙ pieces_shift 0 (strtok (d ∷ []) false text) ∙ h;
    }

-- Between two words: the next word starts here.
start_word :
    (d : ℕ) (w text : List ℕ) (ws : List (List ℕ))
    → IsWord d w
    → Scanned d text [] ws
    → pieces (strtok (d ∷ []) false (w ++ text)) ≡ w ∷ ws
unfolding pieces string_at
start_word d [] text ws h s = absurd h
start_word d (c ∷ w) text ws h s =
    let after = scan_word d w text ws h.1 s in
    let t = strtok (d ∷ []) true (w ++ text) in
    ap pieces (strtok_byte d c (w ++ text) false h.0)
    ∙ ap (λ x. x ∷ pieces (record { starts = map suc t.starts; text = c ∷ t.text }))
        (c_string-cons c t.text h.0.0 ∙ ap (λ x. c ∷ x) after.word)
    ∙ ap (λ x. (c ∷ w) ∷ x) (pieces_shift c t ∙ after.others)

-- strtok cuts words with a delimiter between them into these words.
pub strtok-joined :
    (d : ℕ) (w : List ℕ) (ws : List (List ℕ)) (rest : List ℕ)
    → d ≢ 0
    → IsWord d w
    → All (IsWord d) ws
    → pieces (strtok (d ∷ []) false (joined d (w ∷ ws) ++ (0 ∷ rest))) ≡ w ∷ ws
strtok-joined d w [] rest pos h hs = start_word d w (0 ∷ rest) [] h (scan_end d rest)
strtok-joined d w (v ∷ ws) rest pos h hs = rw (append_assoc w (d ∷ joined d (v ∷ ws)) (0 ∷ rest)) (
    start_word d w _ (v ∷ ws) h
      (scan_cut d _ (v ∷ ws) pos (strtok-joined d v ws rest pos hs.0 hs.1)))
