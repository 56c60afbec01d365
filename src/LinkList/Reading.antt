-- ===== src/LinkList/Reading.antt =====
-- What linklist/linklist.c shows of a list to a reader that follows `next`.
use mathlib.Core.Path.{subst}
use c_modules.Base.{
  ◌||◌, ==_iff, ℕ, zero, suc, ◌<◌, ◌≡◌, inl, inr, refl, ◌∙◌, ap, sym, arith, Bool, true, false,
  Option, none, some, List, [], ◌∷◌, length, ◌==◌, Bool-cases,
}
use c_modules.LinkList.Heap.{Lists, done, malloc, store, set_index, set_next, set_previous, deref}
use c_modules.LinkList.Nodes.{add_first, add_last, find_from, find_node}

-- From the pointer `p`, `next` leads through nodes with the indices `xs` to NULL.
unfoldable pub Chain : Lists → Option ℕ → List ℕ → Type 0
Chain s p [] = p ≡ none
Chain s p (x ∷ xs) =
    (a : ℕ) × (p ≡ some a)
    × (s.live a ≡ true)
    × (a < s.fresh)
    × ((s.nodes a).index ≡ x)
    × Chain s (s.nodes a).next xs

-- The list that the globals show.
abbrev pub Shows : Lists → List ℕ → Type 0
Shows s xs = Chain s s.head_node xs

-- Below the old `fresh`, nothing changed.
pub record Frame (s t : Lists) : Type 0 where
  pub more : s.fresh < t.fresh
  pub live : (a : ℕ) → a < s.fresh → t.live a ≡ s.live a
  pub nodes : (a : ℕ) → a < s.fresh → t.nodes a ≡ s.nodes a

pub Chain-Frame :
    (s t : Lists) → Frame s t → (p : Option ℕ) (xs : List ℕ) → Chain s p xs → Chain t p xs
unfolding Chain
Chain-Frame s t f p [] c = c
Chain-Frame s t f p (x ∷ xs) (a, at, live, old, index, rest) =
    let same = f.nodes a old in
    (
      a,
      at,
      f.live a old ∙ live,
      omega (arith, f.more),
      ap (λ n. n.index) same ∙ index,
      subst (λ q. Chain t q xs) (sym (ap (λ n. n.next) same))
          (Chain-Frame s t f (s.nodes a).next xs rest),
    )

add_first-Frame : (index : ℕ) (s : Lists) → Frame s (add_first index s)
unfolding add_first malloc set_index set_next set_previous store
add_first-Frame index s = record {
  more = ground arith;
  live = λ a lt. ground arith;
  nodes = λ a lt. ground arith;
}

add_last-Frame : (index : ℕ) (s : Lists) → Frame s (add_last index s)
unfolding add_last malloc set_index set_next set_previous store
add_last-Frame index s = record {
  more = ground arith;
  live = λ a lt. ground arith;
  nodes = λ a lt. ground arith;
}

-- The node that add_first makes.
record IsFirst (index : ℕ) (s t : Lists) : Type 0 where
  head : t.head_node ≡ some s.fresh
  live : t.live s.fresh ≡ true
  index_stored : (t.nodes s.fresh).index ≡ index
  next : (t.nodes s.fresh).next ≡ s.head_node

add_first-IsFirst : (index : ℕ) (s : Lists) → IsFirst index s (add_first index s)
unfolding add_first malloc set_index set_next set_previous store
add_first-IsFirst index s = record {
  head = ground arith;
  live = ground arith;
  index_stored = ground arith;
  next = ground arith;
}

-- add_first puts the index before the list that the globals show.
pub add_first-Shows :
    (index : ℕ) (s : Lists) (xs : List ℕ) → Shows s xs → Shows (add_first index s) (index ∷ xs)
unfolding Chain
add_first-Shows index s xs c =
    let t = add_first index s in
    let f = add_first-IsFirst index s in
    let kept = add_first-Frame index s in
    (
      s.fresh,
      f.head,
      f.live,
      kept.more,
      f.index_stored,
      subst (λ q. Chain t q xs) (sym f.next) (Chain-Frame s t kept s.head_node xs c),
    )

add_last-head :
    (index : ℕ) (s : Lists) (last : ℕ)
    → s.last_node ≡ some last
    → (add_last index s).head_node ≡ s.head_node
unfolding add_last malloc set_index set_next set_previous store
add_last-head index s last e = ground arith

-- Where head and last both point somewhere, add_last leaves the list that the globals show as it was:
-- the new node is not linked from the old last one.
add_last-Shows :
    (index : ℕ) (s : Lists) (xs : List ℕ) (last : ℕ)
    → s.last_node ≡ some last
    → Shows s xs
    → Shows (add_last index s) xs
add_last-Shows index s xs last e c =
    let t = add_last index s in
    let same_head : t.head_node ≡ s.head_node = add_last-head index s last e in
    subst (λ q. Chain t q xs) (sym same_head)
      (Chain-Frame s t (add_last-Frame index s) s.head_node xs c)

unfoldable pub contains : ℕ → List ℕ → Bool
contains index [] = false
contains index (x ∷ xs) = (x == index) || contains index xs

-- A live node with the index where the list holds it, or NULL where no node has it.
pub data Finds (s : Lists) (index : ℕ) (xs : List ℕ) : Option ℕ → Type 0 where
  found :
      (a : ℕ)
      → s.live a ≡ true
      → (s.nodes a).index ≡ index
      → contains index xs ≡ true
      → Finds s index xs (some a)
  missing : contains index xs ≡ false → Finds s index xs none

Finds-later :
    (s : Lists) (index x : ℕ) (xs : List ℕ) (r : Option ℕ)
    → (x == index) ≡ false
    → Finds s index xs r
    → Finds s index (x ∷ xs) r
unfolding contains
Finds-later s index x xs (some b) other (found a live at holds) = found b live at (ground arith)
Finds-later s index x xs none other (missing absent) = missing (rw (other, absent) refl)

find_from-Finds :
    (fuel : ℕ) (s : Lists) (p : Option ℕ) (index : ℕ) (xs : List ℕ)
    → Chain s p xs
    → length xs < fuel
    → (r : Option ℕ) × (find_from fuel p index s ≡ done r) × Finds s index xs r
unfolding Chain find_from deref contains
find_from-Finds zero s p index xs c enough = absurd (omega arith)
find_from-Finds (suc fuel) s p index [] c enough = rw c (none, refl, missing refl)
find_from-Finds (suc fuel) s p index (x ∷ xs) (a, at, live, old, stored, rest) enough =
    elim (Bool-cases (x == index)) [
      | inl here ↦
          rw (at, live, stored, here)
            (some a, refl, found a live (stored ∙ (==_iff x index).0 here) (rw here refl))
      | inr there ↦
          let (r, e, finds) = find_from-Finds fuel s (s.nodes a).next index xs rest (omega arith) in
          rw (at, live, stored, there) (r, e, Finds-later s index x xs r there finds)
    ]

-- Over a list that the globals show, and with fuel above its length, find_node ends without a fault;
-- it returns a node with the index if the list holds it, and NULL if not, whatever its argument.
pub find_node-Finds :
    (fuel : ℕ) (s : Lists) (head : Option ℕ) (index : ℕ) (xs : List ℕ)
    → Shows s xs
    → length xs < fuel
    → (r : Option ℕ) × (find_node fuel head index s ≡ done r) × Finds s index xs r
unfolding find_node
find_node-Finds fuel s head index xs c enough = find_from-Finds fuel s s.head_node index xs c enough
