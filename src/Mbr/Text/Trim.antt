-- ===== src/Mbr/Text/Trim.antt =====
-- stringTrimSpace of hdmbr/mbr.c against what trimming means.
use mathlib.Core.Path.{ap₂, subst}
use c_modules.Mbr.Text.Cut.{cut_lem}
use mathlib.Core.List.{append_assoc, append-nil}
use c_modules.Base.{
  ℕ, zero, suc, ◌+◌, ◌<◌, ◌≡◌, ◌≢◌, refl, ◌∙◌, ap, sym, Bool, true, false, some, List, [], ◌∷◌,
  ◌++◌, Memory, Holds, length, length-append, arith, ◌==◌, IsCString, inl, inr, Bool-cases, ==_iff,
}
use c_modules.Mbr.Text.{Scan, advance, scan, cut, scan_start, string_trim_space}
use c_modules.Mbr.Text.Buffer.{Holds-moved, Holds-append}

abbrev pub spaces : ℕ → List ℕ
spaces zero = []
spaces (suc n) = 0x20 ∷ spaces n

abbrev last_or : ℕ → List ℕ → ℕ
last_or d [] = d
last_or d (c ∷ cs) = last_or c cs

-- No space at either end.
abbrev pub IsTight : List ℕ → Type 0
IsTight [] = Unit {0}
IsTight (c ∷ cs) = (c ≢ 0x20) × (last_or c cs ≢ 0x20)

-- `mid` is `s` without the spaces around it.
pub record IsTrimOf (s mid : List ℕ) : Type 0 where
  pub front : ℕ
  pub rear : ℕ
  pub split : s ≡ spaces front ++ (mid ++ spaces rear)
  pub tight : IsTight mid

length-spaces : (n : ℕ) → length (spaces n) ≡ n
length-spaces zero = refl
length-spaces (suc n) = ap suc (length-spaces n)

spaces-snoc : (k : ℕ) (r : List ℕ) → spaces k ++ (0x20 ∷ r) ≡ spaces (suc k) ++ r
spaces-snoc zero r = refl
spaces-snoc (suc k) r = ap (λ t. 0x20 ∷ t) (spaces-snoc k r)

last_or-append : (d c : ℕ) (xs ys : List ℕ) → last_or d (xs ++ (c ∷ ys)) ≡ last_or c ys
last_or-append d c [] ys = refl
last_or-append d c (x ∷ xs) ys = last_or-append x c xs ys

-- The first loop as a fold over the text.
run : List ℕ → Scan → Scan
run [] s = s
run (c ∷ cs) s = run cs (advance c s)

scan-run :
    (fuel : ℕ) (buf : Memory) (r : List ℕ) (s : Scan)
    → Holds buf s.i r
    → IsCString r
    → buf (s.i + length r) ≡ 0
    → length r < fuel
    → scan fuel buf s ≡ some (run r s)
unfolding scan run
scan-run zero buf r s h ok end enough = absurd (omega arith)
scan-run (suc fuel) buf [] s h ok end enough =
    let here : buf s.i ≡ 0 = ap buf {x = s.i} {y = s.i + 0} (omega arith) ∙ end in rw here refl
scan-run (suc fuel) buf (c ∷ cs) s h ok end enough =
    let e = advance-i c s in
    let not_end : (c == 0) ≡ false = ground arith in
    rw (h.0, not_end)
      (scan-run fuel buf cs (advance c s) (rw e h.1) ok.1
        (ap buf {x = (advance c s).i + length cs} {y = s.i + suc (length cs)} (omega arith) ∙ end)
        (omega arith))
  where
    advance-i : (x : ℕ) (t : Scan) → (advance x t).i ≡ t.i + 1
    advance-i x t = unfold advance in ground arith

abbrev state : ℕ → Bool → ℕ → ℕ → Scan
state i flag front rear = record {
  i = i;
  position_flag = flag;
  front_space_count = front;
  rear_space_count = rear;
}

advance-blank :
    (i front k : ℕ) → advance 0x20 (state i true front k) ≡ state (i + 1) true front (suc k)
unfolding advance
advance-blank i front k = ap (λ n. state (i + 1) true front n) (omega arith)

advance_front :
    (i front : ℕ) → advance 0x20 (state i false front 0) ≡ state (i + 1) false (suc front) 0
unfolding advance
advance_front i front = ap (λ n. state (i + 1) false n 0) (omega arith)

advance_solid :
    (c i front k : ℕ) (flag : Bool)
    → (c == 0x20) ≡ false
    → advance c (state i flag front k) ≡ state (i + 1) true front 0
unfolding advance
advance_solid c i front k flag solid = rw solid refl

at_end :
    (i n : ℕ) (flag : Bool) (front rear : ℕ)
    → state (i + 1 + n) flag front rear ≡ state (i + suc n) flag front rear
at_end i n flag front rear = ap (λ t. state t flag front rear) (omega arith)

-- Behind a character that is no space: with `k` spaces pending, the rest splits into a body that
-- ends in no space, and the spaces that are counted.
record Tail (k : ℕ) (r : List ℕ) (i front : ℕ) : Type 0 where
  body : List ℕ
  rear : ℕ
  split : spaces k ++ r ≡ body ++ spaces rear
  ends : (d : ℕ) → d ≢ 0x20 → last_or d body ≢ 0x20
  final : run r (state i true front k) ≡ state (i + length r) true front rear

scan-Tail : (r : List ℕ) (k i front : ℕ) → Tail k r i front
unfolding run
scan-Tail [] k i front = record {
  body = [];
  rear = k;
  split = append-nil (spaces k);
  ends = λ d ne. ne;
  final = ap (λ n. state n true front k) {x = i} {y = i + 0} (omega arith);
}
scan-Tail (c ∷ cs) k i front = elim (Bool-cases (c == 0x20)) [
  | inl blank ↦
      let t = scan-Tail cs (suc k) (i + 1) front in
      let is : c ≡ 0x20 = (==_iff c 0x20).0 blank in
      record {
        body = t.body;
        rear = t.rear;
        split = rw is (spaces-snoc k cs ∙ t.split);
        ends = t.ends;
        final = rw (is, advance-blank i front k) (t.final ∙ at_end i (length cs) true front t.rear);
      }
  | inr solid ↦
      let t = scan-Tail cs 0 (i + 1) front in
      let ne : c ≢ 0x20 = ground arith in
      record {
        body = spaces k ++ (c ∷ t.body);
        rear = t.rear;
        split =
            ap (λ u. spaces k ++ (c ∷ u)) t.split
            ∙ sym (append_assoc (spaces k) (c ∷ t.body) (spaces t.rear));
        ends = λ d _. rw (last_or-append d c (spaces k) t.body) (t.ends c ne);
        final =
            rw (advance_solid c i front k true solid)
              (t.final ∙ at_end i (length cs) true front t.rear);
      }
]

-- From the start: the leading spaces, then a tight text, then the counted spaces.
record Parts (r : List ℕ) (i front : ℕ) : Type 0 where
  blanks : ℕ
  mid : List ℕ
  rear : ℕ
  flag : Bool
  split : r ≡ spaces blanks ++ (mid ++ spaces rear)
  tight : IsTight mid
  final : run r (state i false front 0) ≡ state (i + length r) flag (blanks + front) rear

parts_of : (r : List ℕ) (i front : ℕ) → Parts r i front
unfolding run
parts_of [] i front = record {
  blanks = 0;
  mid = [];
  rear = 0;
  flag = false;
  split = refl;
  tight = tt;
  final =
      ap₂ (λ n f. state n false f 0) {x = i} {y = i + 0} {u = front} {v = 0 + front} (omega arith)
        (omega arith);
}
parts_of (c ∷ cs) i front = elim (Bool-cases (c == 0x20)) [
  | inl blank ↦
      let t = parts_of cs (i + 1) (suc front) in
      let is : c ≡ 0x20 = (==_iff c 0x20).0 blank in
      record {
        blanks = suc t.blanks;
        mid = t.mid;
        rear = t.rear;
        flag = t.flag;
        split = rw is (ap (λ u. 0x20 ∷ u) t.split);
        tight = t.tight;
        final =
            rw (is, advance_front i front)
              (t.final
                ∙ ap₂ (λ n f. state n t.flag f t.rear) {x = i + 1 + length cs}
                    {y = i + suc (length cs)} {u = t.blanks + suc front} {v = suc t.blanks + front}
                    (omega arith) (omega arith));
      }
  | inr solid ↦
      let t = scan-Tail cs 0 (i + 1) front in
      record {
        blanks = 0;
        mid = c ∷ t.body;
        rear = t.rear;
        flag = true;
        split = ap (λ u. c ∷ u) t.split;
        tight = (ground arith, t.ends c (ground arith));
        final = rw (advance_solid c i front 0 false solid) (
            t.final
            ∙ ap₂ (λ n f. state n true f t.rear) {x = i + 1 + length cs} {y = i + suc (length cs)}
                {u = front} {v = 0 + front} (omega arith) (omega arith));
      }
]

Parts-length :
    {r : List ℕ} {i front : ℕ} (p : Parts r i front) → length r ≡ p.blanks + length p.mid + p.rear
Parts-length p =
    ap length p.split
    ∙ omega (
      arith,
      length-append (spaces p.blanks) (p.mid ++ spaces p.rear),
      length-append p.mid (spaces p.rear),
      length-spaces p.blanks,
      length-spaces p.rear,
    )

-- `after` holds the trimmed text and a NUL behind it; behind the old NUL it is `before`.
pub record IsTrimmed (s : List ℕ) (before after : Memory) : Type 0 where
  pub mid : List ℕ
  pub trim : IsTrimOf s mid
  pub text : Holds after 0 mid
  pub nul : after (length mid) ≡ 0
  pub behind : (q : ℕ) → length s < q → after q ≡ before q

module _ (buf : Memory) (s : List ℕ) (h : Holds buf 0 s) (ok : IsCString s)
    (nul : buf (length s) ≡ 0) where
  abbrev parts : Parts s 0 0
  parts = parts_of s 0 0

  abbrev end_state : Scan
  end_state =
      state (parts.blanks + length parts.mid + parts.rear) parts.flag parts.blanks parts.rear

  ends_so : run s scan_start ≡ end_state
  ends_so =
      parts.final
      ∙ ap₂ (λ n f. state n parts.flag f parts.rear) {x = 0 + length s}
          {y = parts.blanks + length parts.mid + parts.rear} {u = parts.blanks + 0}
          {v = parts.blanks} (omega (arith, Parts-length parts)) (omega arith)

  cut-IsTrimmed : IsTrimmed s buf (cut end_state buf)
  cut-IsTrimmed =
      let size = Parts-length parts in
      let c = cut_lem parts.blanks (length parts.mid) parts.rear parts.flag buf (
        ap buf {x = parts.blanks + length parts.mid + parts.rear} {y = length s} (omega arith)
        ∙ nul) in
      let all : Holds buf 0 (spaces parts.blanks ++ (parts.mid ++ spaces parts.rear)) =
        subst (Holds buf 0) parts.split h in
      let from_mid =
        (Holds-append buf 0 (spaces parts.blanks) (parts.mid ++ spaces parts.rear) all).1 in
      let mid_there =
        (Holds-append buf (0 + length (spaces parts.blanks)) parts.mid (spaces parts.rear)
          from_mid).0 in
      record {
        mid = parts.mid;
        trim = record {
          front = parts.blanks;
          rear = parts.rear;
          split = parts.split;
          tight = parts.tight;
        };
        text =
            Holds-moved buf (cut end_state buf) (0 + length (spaces parts.blanks)) 0 parts.mid
              (λ q lt.
                ap (cut end_state buf) {x = 0 + q} {y = q} (omega arith)
                ∙ c.0 q lt
                ∙ ap buf {x = parts.blanks + q} {y = 0 + length (spaces parts.blanks) + q}
                    (omega (arith, length-spaces parts.blanks)))
              mid_there;
        nul = c.1;
        behind = λ q lt. c.2 q (omega arith);
      }

  -- Over a C string and with enough fuel, stringTrimSpace ends, leaves the text without the spaces
  -- around it, NUL-terminated, and changes no byte behind the old end.
  pub string_trim_space-IsTrimmed :
      (fuel : ℕ)
      → length s < fuel
      → (after : Memory) × (string_trim_space fuel buf ≡ some after) × IsTrimmed s buf after
  unfolding string_trim_space
  string_trim_space-IsTrimmed fuel enough =
      let e : scan fuel buf scan_start ≡ some end_state =
        scan-run fuel buf s scan_start h ok
          (ap buf {x = 0 + length s} {y = length s} (omega arith) ∙ nul) enough
        ∙ ap some ends_so in
      (cut end_state buf, rw (e, string_trim_space) refl, cut-IsTrimmed)
