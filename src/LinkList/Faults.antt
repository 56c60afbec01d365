-- ===== src/LinkList/Faults.antt =====
-- Where the functions of linklist/linklist.c follow a NULL pointer or lose the list.
use mathlib.Core.Path.{subst}
use c_modules.Base.{
  ℕ, zero, suc, ◌<◌, ◌≡◌, refl, ◌∙◌, ap, arith, Bool, true, false, ◌||◌, Option, none, some, List,
  [], ◌∷◌, ◌++◌, length, ◌==◌, ==_iff,
}
use c_modules.LinkList.Heap.{Lists, done, fault, malloc, store, set_next, deref, free}
use c_modules.LinkList.Nodes.{
  seek, link_after, insert_from, inserted, insert_with, insert_after, removed, remove_from,
  remove_node,
}
use c_modules.LinkList.Reading.{Chain, Shows, Frame, Chain-Frame, contains}

-- What the loop finds where the last node is the first with the index.
record IsLastAt (s : Lists) (a : ℕ) : Type 0 where
  ends : (s.nodes a).next ≡ none

Chain-some :
    (s : Lists) (p : Option ℕ) (ys : List ℕ) (z : ℕ)
    → Chain s p (ys ++ (z ∷ []))
    → (a : ℕ) × (p ≡ some a)
unfolding Chain
Chain-some s p [] z (a, at, _, _, _, _) = (a, at)
Chain-some s p (y ∷ ys) z (a, at, _, _, _, _) = (a, at)

both_false : (a b : Bool) → (a || b) ≡ false → (a ≡ false) × (b ≡ false)
both_false a b e = ground arith

seek-IsLastAt :
    (fuel : ℕ) (s : Lists) (p : Option ℕ) (ys : List ℕ) (location : ℕ)
    → Chain s p (ys ++ (location ∷ []))
    → contains location ys ≡ false
    → length ys < fuel
    → (a : ℕ) × (seek fuel p location s ≡ done (some a)) × IsLastAt s a
unfolding Chain seek deref contains
seek-IsLastAt zero s p ys location c only enough = absurd (omega arith)
seek-IsLastAt (suc fuel) s p [] location (a, at, live, old, stored, rest) only enough =
    rw (at, live, stored, (==_iff location location).1 refl) (a, refl, record { ends = rest })
seek-IsLastAt (suc fuel) s p (y ∷ ys) location (a, at, live, old, stored, rest) only enough =
    let (other, later) = both_false (y == location) (contains location ys) only in
    let (b, e, last) = seek-IsLastAt fuel s (s.nodes a).next ys location rest later (omega arith) in
    let (n, there) = Chain-some s (s.nodes a).next ys location rest in
    rw (at, live, stored, other, there) (b, e, last)

-- What insert_after and insert_before do before they search.
abbrev prepared : Lists → Lists
prepared s = set_next s.fresh none (malloc s)

prepared-Frame : (s : Lists) → Frame s (prepared s)
unfolding malloc set_next store
prepared-Frame s = record {
  more = ground arith;
  live = λ a lt. ground arith;
  nodes = λ a lt. ground arith;
}

link_after-fault : (new_node a : ℕ) (s : Lists) → IsLastAt s a → link_after new_node a s ≡ fault
unfolding link_after deref
link_after-fault new_node a s last = rw last.ends refl

-- Where the first node with the index `location` is the last one, insert_after follows a NULL pointer.
insert_after-fault :
    (fuel index location : ℕ) (s : Lists) (ys : List ℕ)
    → Shows s (ys ++ (location ∷ []))
    → contains location ys ≡ false
    → length ys < fuel
    → insert_after fuel index location s ≡ fault
unfolding insert_after insert_with insert_from inserted malloc set_next store
insert_after-fault fuel index location s ys c only enough =
    let t = prepared s in
    let (h, head) = Chain-some s s.head_node ys location c in
    let there =
      subst (λ q. Chain t q (ys ++ (location ∷ []))) head
        (Chain-Frame s t (prepared-Frame s) s.head_node (ys ++ (location ∷ [])) c) in
    let (a, e, last) = seek-IsLastAt fuel t (some h) ys location there only enough in
    ap (insert_from link_after fuel location s.fresh t) head
    ∙ ap (inserted link_after s.fresh t) e
    ∙ link_after-fault s.fresh a t last

seek_head :
    (fuel index : ℕ) (s : Lists) (a : ℕ)
    → s.live a ≡ true
    → (s.nodes a).index ≡ index
    → seek (suc fuel) (some a) index s ≡ done (some a)
unfolding seek deref
seek_head fuel index s a live stored = rw (live, stored, (==_iff index index).1 refl) refl

-- Where the first node has the index, remove_node empties the whole list.
remove_node-empties :
    (fuel index : ℕ) (s : Lists) (xs : List ℕ)
    → Shows s (index ∷ xs)
    → 0 < fuel
    → (after : Lists) × (remove_node fuel index s ≡ done after) × Shows after []
unfolding remove_node remove_from removed Chain free
remove_node-empties zero index s xs c enough = absurd (omega arith)
remove_node-empties (suc fuel) index s xs (a, at, live, old, stored, rest) enough = (
  free a (record s { head_node = none; last_node = none }),
  ap (remove_from (suc fuel) index s) at
      ∙ ap (removed a s) (seek_head fuel index s a live stored)
      ∙ rw ((==_iff a a).1 refl) refl,
  refl,
)
