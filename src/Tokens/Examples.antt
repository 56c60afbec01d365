-- ===== src/Tokens/Examples.antt =====
-- The text of main in token/token.c, and others.
use c_modules.Base.{◌≡◌, ◌≤◌, ◌++◌, [], ◌∷◌, refl, arith, length, codes, defined, undefined}
use c_modules.Tokens.{en_str_tok, Pieces}
use c_modules.Tokens.Words.{pieces}
use c_modules.Tokens.Array.{en_str_tok-fits, en_str_tok-joined}

-- Empty pieces leave no entry.
en_str_tok-fits_example :
    (p : Pieces) × (en_str_tok (codes "play,1,,1," ++ (0 ∷ [])) (44 ∷ []) ≡ defined p)
    × (length p.tokens.starts ≤ p.size)
en_str_tok-fits_example = en_str_tok-fits (codes "play,1,,1," ++ (0 ∷ [])) 44

en_str_tok-joined_example :
    (p : Pieces) × (en_str_tok (codes "play,1,12" ++ (0 ∷ 7 ∷ 44 ∷ [])) (44 ∷ []) ≡ defined p)
    × (pieces p.tokens ≡ codes "play" ∷ codes "1" ∷ codes "12" ∷ [])
en_str_tok-joined_example =
    en_str_tok-joined 44 (codes "play") (codes "1" ∷ codes "12" ∷ []) (7 ∷ 44 ∷ []) (omega arith)
      (ground arith) (ground arith)

-- Of two delimiters only the first is counted.
two_delimiters : en_str_tok (codes "a;b;c" ++ (0 ∷ [])) (codes ",;") ≡ undefined
unfolding en_str_tok
two_delimiters = refl
