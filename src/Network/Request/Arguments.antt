-- ===== src/Network/Request/Arguments.antt =====
-- The words of a request of network-module/kvmnetwork.c, as strArgv has them.
use c_modules.Base.{
  ℕ, zero, suc, ◌+◌, ◌≤◌, ◌<◌, ◌⊎◌, c_string-cons, List, [], ◌∷◌, ◌++◌, ◌≡◌, refl, ap, ◌∙◌, sym,
  arith, Bool, true, false, Bool-cases, inl, inr, Option, none, some, length, drop, c_string, map,
  get_or, All, IsPlain, length-append, length-map, ltb, ◌==◌, if◌then◌else◌, le→ltb, ne→==, defined,
  undefined,
}
use mathlib.Core.List.{append_assoc}
use c_modules.Tokens.{Tokens, strtok, string_at}
use c_modules.Tokens.Words.{IsWord, joined, pieces, strtok-joined}
use c_modules.Network.Uart.Lines.{overwrite_lem}
use c_modules.Network.Request.{
  receive, add_arguments, string_of, argument, is_prefix, compare_at, comma,
}

receive_lem :
    (text buf : List ℕ)
    → length text < length buf
    → receive text buf ≡ text ++ (0 ∷ drop (length (text ++ (0 ∷ []))) buf)
unfolding receive
receive_lem text buf lt =
    overwrite_lem buf (text ++ (0 ∷ [])) (omega (arith, length-append text (0 ∷ [])))
    ∙ append_assoc text (0 ∷ []) (drop (length (text ++ (0 ∷ []))) buf)

-- The words, with commas between them, as a text that buf has room for.
module _ (w : List ℕ) (ws : List (List ℕ)) (buf : List ℕ) (h : IsWord 44 w)
    (hs : All (IsWord 44) ws) (lt : length (joined 44 (w ∷ ws)) < length buf) where
  abbrev pub tokens_of : Tokens
  tokens_of = strtok comma false (receive (joined 44 (w ∷ ws)) buf)

  pub tokens_pieces : pieces tokens_of ≡ w ∷ ws
  unfolding comma
  tokens_pieces =
      let text = joined 44 (w ∷ ws) in
      ap (λ t. pieces (strtok comma false t)) (receive_lem text buf lt)
      ∙ strtok-joined 44 w ws (drop (length (text ++ (0 ∷ []))) buf) (omega arith) h hs

argument_at :
    (buf starts : List ℕ) (i : ℕ)
    → string_of buf (get_or (map some starts ++ (none ∷ [])) i none)
      ≡ get_or (map some (map (string_at buf) starts)) i none
unfolding string_of
argument_at buf [] zero = refl
argument_at buf [] (suc i) = refl
argument_at buf (s ∷ starts) zero = refl
argument_at buf (s ∷ starts) (suc i) = argument_at buf starts i

-- The places stored stand for the words, and NULL stands behind them.
pub argument-word :
    (t : Tokens) (i : ℕ)
    → argument t.text (map some t.starts ++ (none ∷ [])) i ≡ get_or (map some (pieces t)) i none
unfolding argument pieces
argument-word t i = argument_at t.text t.starts i

add_some :
    (starts : List ℕ) (n : ℕ) (argv : List (Option ℕ))
    → length starts ≡ suc n
    → add_arguments starts argv ≡ argv ++ (map some starts ++ (none ∷ []))
unfolding add_arguments
add_some [] n argv l = absurd (omega arith)
add_some (s ∷ starts) n argv l = refl

starts_count :
    (t : Tokens) (w : List ℕ) (ws : List (List ℕ))
    → pieces t ≡ w ∷ ws
    → length t.starts ≡ suc (length ws)
unfolding pieces
starts_count t w ws e = sym (length-map (string_at t.text) t.starts) ∙ ap length e

pub add_arguments-pieces :
    (t : Tokens) (w : List ℕ) (ws : List (List ℕ)) (argv : List (Option ℕ))
    → pieces t ≡ w ∷ ws
    → add_arguments t.starts argv ≡ argv ++ (map some t.starts ++ (none ∷ []))
add_arguments-pieces t w ws argv e = add_some t.starts (length ws) argv (starts_count t w ws e)

first_at :
    (buf starts w : List ℕ) (ws : List (List ℕ))
    → map (string_at buf) starts ≡ w ∷ ws
    → (start : ℕ) × (get_or (map some starts ++ (none ∷ [])) 0 none ≡ some start)
      × (string_at buf start ≡ w)
first_at buf [] w ws e = let l = ap length e in absurd (omega arith)
first_at buf (s ∷ starts) w ws e = (s, refl, ap (λ xs. get_or xs 0 []) e)

pub first_argument :
    (t : Tokens) (w : List ℕ) (ws : List (List ℕ))
    → pieces t ≡ w ∷ ws
    → (start : ℕ) × (get_or (map some t.starts ++ (none ∷ [])) 0 none ≡ some start)
      × (string_at t.text start ≡ w)
unfolding pieces
first_argument t w ws e = first_at t.text t.starts w ws e

pub length-arguments :
    (t : Tokens) (w : List ℕ) (ws : List (List ℕ)) (argv : List (Option ℕ))
    → pieces t ≡ w ∷ ws
    → length (add_arguments t.starts argv) ≡ length argv + (2 + length ws)
length-arguments t w ws argv e =
    let n = starts_count t w ws e in
    let stored = map some t.starts in
    ap length (add_arguments-pieces t w ws argv e)
    ∙ omega (
      arith,
      n,
      length-append argv (stored ++ (none ∷ [])),
      length-append stored (none ∷ []),
      length-map some t.starts,
    )

is_prefix-string :
    (word text : List ℕ) → IsPlain word → is_prefix word (c_string text) ≡ is_prefix word text
unfolding is_prefix
is_prefix-string [] text h = refl
is_prefix-string (c ∷ word) [] h = refl
is_prefix-string (c ∷ word) (zero ∷ text) h = rw (ne→== c 0 h.0) refl
is_prefix-string (c ∷ word) (suc b ∷ text) h =
    ap (is_prefix (c ∷ word)) (c_string-cons (suc b) text (omega arith))
    ∙ ap (λ r. if c == suc b then r else false) (is_prefix-string word text h.1)

if_true : (a b : Bool) → (if a then b else false) ≡ true → b ≡ true
if_true true b e = e
if_true false b e = ground arith

length-is_prefix : (word text : List ℕ) → is_prefix word text ≡ true → length word ≤ length text
unfolding is_prefix
length-is_prefix [] text e = omega arith
length-is_prefix (c ∷ word) [] e = ground arith
length-is_prefix (c ∷ word) (b ∷ text) e =
    omega (arith, length-is_prefix word text (if_true (c == b) (is_prefix word text) e))

-- A comparison with a word that the string at this place starts with, or not.
pub compare_at-true :
    (buf word : List ℕ) (start : ℕ)
    → IsPlain word
    → is_prefix word (string_at buf start) ≡ true
    → compare_at buf (some start) word ≡ defined true
unfolding compare_at string_at
compare_at-true buf word start h e =
    let e' = sym (is_prefix-string word (drop start buf) h) ∙ e in
    rw
      (
        le→ltb (length (drop start buf)) (length word) (length-is_prefix word (drop start buf) e'),
        e',
      )
      refl

pub compare_at-false :
    (buf word : List ℕ) (start : ℕ)
    → IsPlain word
    → is_prefix word (string_at buf start) ≡ false
    → (compare_at buf (some start) word ≡ defined false)
      ⊎ (compare_at buf (some start) word ≡ undefined)
unfolding compare_at string_at
compare_at-false buf word start h e =
    let e' = sym (is_prefix-string word (drop start buf) h) ∙ e in
    elim (Bool-cases (ltb (length (drop start buf)) (length word))) [
      | inl past ↦ inr (rw past refl)
      | inr inside ↦ inl (rw (inside, e') refl)
    ]
