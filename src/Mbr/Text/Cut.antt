-- ===== src/Mbr/Text/Cut.antt =====
-- The two stores and the second loop of stringTrimSpace in hdmbr/mbr.c.
use c_modules.Base.{
  ne→==, ◌≢◌, true, false, ℕ, zero, suc, ◌+◌, ◌-◌, ◌<◌, ◌≤◌, ◌≡◌, ◌⊎◌, refl, ◌∙◌, ap, Bool, Memory,
  write, arith, ◌==◌, if◌then◌else◌, not, inl, inr, Bool-cases, ==_iff,
}
use c_modules.Mbr.Text.{Scan, copy_down, cut}

copy_down-outside :
    (n j front : ℕ) (m : Memory) (q : ℕ) → (q < j) ⊎ (j + n ≤ q) → copy_down n j front m q ≡ m q
unfolding copy_down
copy_down-outside zero j front m q out = refl
copy_down-outside (suc n) j front m q out =
    copy_down-outside n (j + 1) front (write m j (m (j + front))) q (omega arith) ∙ ground arith

-- The copy runs upwards, so a source byte is read before it is overwritten.
copy_down-inside :
    (n j front : ℕ) (m : Memory) (q : ℕ)
    → 0 < front
    → j ≤ q
    → q < j + n
    → copy_down n j front m q ≡ m (q + front)
unfolding copy_down
copy_down-inside zero j front m q pos lo hi = absurd (omega arith)
copy_down-inside (suc n) j front m q pos lo hi = elim (Bool-cases (q == j)) [
  | inl first ↦
      let at : q ≡ j = (==_iff q j).0 first in
      copy_down-outside n (j + 1) front (write m j (m (j + front))) q (omega arith)
      ∙ rw first (ap m (omega arith))
  | inr later ↦
      let ne : (q + front == j) ≡ false = ground arith in
      copy_down-inside n (j + 1) front (write m j (m (j + front))) q pos (ground arith)
        (omega arith)
      ∙ rw ne refl
]

write_ne : (m : Memory) (p q : ℕ) → q ≢ p → write m p 0 q ≡ m q
write_ne m p q ne = rw (ne→== q p ne) refl

-- `front` and `rear` spaces round `n` characters, and the NUL behind them.
module _ (front n rear : ℕ) (flag : Bool) (buf : Memory) (nul : buf (front + n + rear) ≡ 0) where
  abbrev found : Scan
  found = record {
    i = front + n + rear;
    position_flag = flag;
    front_space_count = front;
    rear_space_count = rear;
  }

  shortened : Memory
  shortened = if not (rear == 0) then write buf (front + n + rear - rear) 0x00 else buf

  shortened_kept : (q : ℕ) → q < front + n → shortened q ≡ buf q
  unfolding shortened
  shortened_kept q lt = ground arith

  shortened_nul : shortened (front + n) ≡ 0
  unfolding shortened
  shortened_nul = elim (Bool-cases (rear == 0)) [
    | inl none ↦ rw none (ap buf (ground arith) ∙ nul)
    | inr some ↦ rw some (ground arith)
  ]

  shortened_behind : (q : ℕ) → front + n + rear < q → shortened q ≡ buf q
  unfolding shortened
  shortened_behind q lt = ground arith

  cut_plain : (front == 0) ≡ true → cut found buf ≡ shortened
  unfolding cut shortened
  cut_plain e = rw e refl

  moved : Memory
  moved = copy_down (n + rear) 0 front shortened

  cut-moved : (front == 0) ≡ false → cut found buf ≡ write moved (n + rear) 0x00
  unfolding cut shortened moved
  cut-moved e = let left : front + n + rear - front ≡ n + rear = omega arith in rw (e, left) refl

  moved_inside : (front == 0) ≡ false → (q : ℕ) → q < n + rear → moved q ≡ shortened (q + front)
  unfolding moved
  moved_inside e q lt =
      copy_down-inside (n + rear) 0 front shortened q (ground arith) (omega arith) (omega arith)

  moved_outside : (q : ℕ) → n + rear ≤ q → moved q ≡ shortened q
  unfolding moved
  moved_outside q ge = copy_down-outside (n + rear) 0 front shortened q (omega arith)

  cut_text : (q : ℕ) → q < n → cut found buf q ≡ buf (front + q)
  cut_text q lt = elim (Bool-cases (front == 0)) [
    | inl none ↦ rw (cut_plain none) (shortened_kept q (omega arith) ∙ ap buf (ground arith))
    | inr some ↦ rw (cut-moved some) (
        write_ne moved (n + rear) q (omega arith)
        ∙ moved_inside some q (omega arith)
        ∙ shortened_kept (q + front) (omega arith)
        ∙ ap buf (omega arith))
  ]

  cut_nul : cut found buf n ≡ 0
  cut_nul = elim (Bool-cases (front == 0)) [
    | inl none ↦
        rw (cut_plain none) (ap shortened {x = n} {y = front + n} (ground arith) ∙ shortened_nul)
    | inr some ↦ rw (cut-moved some) (elim (Bool-cases (n == n + rear)) [
      | inl last ↦ rw last refl
      | inr before ↦ rw before (
          moved_inside some n (ground arith)
          ∙ ap shortened {x = n + front} {y = front + n} (omega arith)
          ∙ shortened_nul)
    ])
  ]

  cut_behind : (q : ℕ) → front + n + rear < q → cut found buf q ≡ buf q
  cut_behind q lt = elim (Bool-cases (front == 0)) [
    | inl none ↦ rw (cut_plain none) (shortened_behind q lt)
    | inr some ↦ rw (cut-moved some) (
        write_ne moved (n + rear) q (omega arith)
        ∙ moved_outside q (omega arith)
        ∙ shortened_behind q lt)
  ]

  -- The characters move to the front, a NUL follows them, and nothing behind the old NUL changes.
  pub cut_lem :
      ((q : ℕ) → q < n → cut found buf q ≡ buf (front + q))
      × (cut found buf n ≡ 0)
      × ((q : ℕ) → front + n + rear < q → cut found buf q ≡ buf q)
  cut_lem = (cut_text, cut_nul, cut_behind)
