-- ===== src/Tokens.antt =====
-- token/token.c: a text cut at delimiters by strtok, and the array of its pieces.
pub mod Words
pub mod Array
mod Examples
use c_modules.Base.{
  ℕ, zero, suc, Bool, true, false, not, List, [], ◌∷◌, ◌==◌, ltb, if◌then◌else◌, length, map,
  get_or, drop, c_string, Behaviour, defined, undefined,
}

unfoldable pub is_delimiter : (word : List ℕ) → ℕ → Bool
is_delimiter [] c = false
is_delimiter (d ∷ word) c = let rest = is_delimiter word c in if c == d then true else rest

-- A buffer behind all calls of strtok, and where the pieces start in it.
pub record Tokens : Type 0 where
  pub starts : List ℕ
  pub text : List ℕ

-- strtok until it gives NULL, from inside a piece or between two: it stops at the NUL, and a
-- delimiter that ends a piece becomes one.
unfoldable pub strtok : (word : List ℕ) → (inside : Bool) → List ℕ → Tokens
unfolding is_delimiter
strtok word inside [] = record { starts = []; text = [] }
strtok word inside (c ∷ cs) =
    let rest = strtok word (not (is_delimiter word c)) cs in
    if c == 0
    then record { starts = []; text = c ∷ cs }
    else if is_delimiter word c
    then record { starts = map suc rest.starts; text = (if inside then 0 else c) ∷ rest.text }
    else record {
      starts = if inside then map suc rest.starts else zero ∷ map suc rest.starts;
      text = c ∷ rest.text;
    }

-- The C string at an offset of a buffer.
unfoldable pub string_at : List ℕ → ℕ → List ℕ
string_at buffer start = c_string (drop start buffer)

unfoldable pub occurrences : ℕ → List ℕ → ℕ
occurrences d [] = 0
occurrences d (c ∷ cs) = let rest = occurrences d cs in if c == d then suc rest else rest

-- What enStrTok leaves: the size of the array, its pieces as offsets, and the text they point into.
pub record Pieces : Type 0 where
  pub size : ℕ
  pub tokens : Tokens

-- enStrTok; `undefined` where the pieces run over the array.
unfoldable pub en_str_tok : (string word : List ℕ) → Behaviour Pieces
unfolding occurrences strtok
en_str_tok string word =
    let size = suc (occurrences (get_or word 0 0) (c_string string)) in
    let tokens = strtok word false string in
    if ltb size (length tokens.starts)
    then undefined
    else defined (record { size = size; tokens = tokens })
