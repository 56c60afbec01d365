-- ===== src/LinkList/Nodes.antt =====
-- The functions of linklist/linklist.c.
use c_modules.Base.{ℕ, zero, suc, Bool, true, false, Option, none, some, ◌==◌, if◌then◌else◌}
use c_modules.LinkList.Heap.{
  Lists, Outcome, done, fault, diverges, malloc, free, set_index, set_next, set_previous, deref,
}

-- add_first
unfoldable pub add_first : ℕ → Lists → Lists
unfolding malloc set_index set_next set_previous
add_first index s =
    let new_node = s.fresh in
    let s = set_previous new_node none (set_index new_node index (malloc s)) in
    elim s.head_node [
      | none ↦ record (set_next new_node none s) {
        head_node = some new_node;
        last_node = some new_node;
      }
      | some head ↦ record (set_next new_node (some head) s) { head_node = some new_node }
    ]

-- add_last
unfoldable pub add_last : ℕ → Lists → Lists
unfolding malloc set_index set_next set_previous
add_last index s =
    let new_node = s.fresh in
    let s = set_next new_node none (set_index new_node index (malloc s)) in
    elim s.last_node [
      | none ↦ record (set_previous new_node none s) {
        head_node = some new_node;
        last_node = some new_node;
      }
      | some last ↦ record (set_previous new_node (some last) s) { last_node = some new_node }
    ]

-- The loop `while (temp->index != location)`: the node that it finds, or `none` behind the last.
unfoldable pub seek : ℕ → (temp : Option ℕ) → (location : ℕ) → Lists → Outcome (Option ℕ)
unfolding deref
seek zero temp location s = diverges
seek (suc fuel) temp location s = deref temp s (λ a.
    let rest = seek fuel (s.nodes a).next location s in
    if (s.nodes a).index == location
    then done (some a)
    else elim (s.nodes a).next [ none ↦ done none | some _ ↦ rest ])

-- What insert_after does at the node `temp1`.
unfoldable pub link_after : (new_node temp1 : ℕ) → Lists → Outcome Lists
unfolding set_next set_previous deref
link_after new_node temp1 s =
    let temp2 = (s.nodes temp1).next in
    let s = set_previous new_node (some temp1) (set_next temp1 (some new_node) s) in
    let s = set_next new_node temp2 s in
    deref temp2 s (λ a. done (set_previous a (some new_node) s))

-- What insert_before does at the node `temp1`.
unfoldable pub link_before : (new_node temp1 : ℕ) → Lists → Outcome Lists
unfolding set_next set_previous deref
link_before new_node temp1 s =
    let temp2 = (s.nodes temp1).previous in
    let s = set_next new_node (some temp1) (set_previous temp1 (some new_node) s) in
    let s = set_previous new_node temp2 s in
    deref temp2 s (λ a. done (set_next a (some new_node) s))

-- What follows the search of insert_after and insert_before, which share all but the last steps.
unfoldable pub inserted :
    ((new_node temp1 : ℕ) → Lists → Outcome Lists)
    → (new_node : ℕ) → Lists
    → Outcome (Option ℕ)
    → Outcome Lists
inserted link new_node s (done none) = done s
inserted link new_node s (done (some temp1)) = link new_node temp1 s
inserted link new_node s fault = fault
inserted link new_node s diverges = diverges

-- The two branches on `head_node`.
unfoldable pub insert_from :
    ((new_node temp1 : ℕ) → Lists → Outcome Lists)
    → ℕ
    → (location new_node : ℕ) → Lists
    → Option ℕ
    → Outcome Lists
unfolding inserted set_previous
insert_from link fuel location new_node s none =
    done (record (set_previous new_node none s) {
      head_node = some new_node;
      last_node = some new_node;
    })
insert_from link fuel location new_node s (some head) =
    inserted link new_node s (seek fuel (some head) location s)

-- Both functions; `index` is not stored.
unfoldable pub insert_with :
    ((new_node temp1 : ℕ) → Lists → Outcome Lists) → ℕ → (location : ℕ) → Lists → Outcome Lists
unfolding malloc set_next insert_from
insert_with link fuel location s =
    let new_node = s.fresh in
    let s = set_next new_node none (malloc s) in
    insert_from link fuel location new_node s s.head_node

-- insert_after
unfoldable pub insert_after : ℕ → (index location : ℕ) → Lists → Outcome Lists
unfolding insert_with link_after
insert_after fuel index location s = insert_with link_after fuel location s

-- insert_before
unfoldable pub insert_before : ℕ → (index location : ℕ) → Lists → Outcome Lists
unfolding insert_with link_before
insert_before fuel index location s = insert_with link_before fuel location s

-- `p == q` on pointers.
unfoldable pub same_pointer : (p q : Option ℕ) → Bool
same_pointer none none = true
same_pointer none (some b) = false
same_pointer (some a) none = false
same_pointer (some a) (some b) = a == b

-- remove_first
unfoldable pub remove_first : Lists → Outcome Lists
unfolding deref same_pointer set_previous free
remove_first s = elim s.head_node [
  | none ↦ done s
  | some head ↦ deref (some head) s (λ temp.
      if same_pointer (s.nodes temp).previous (s.nodes temp).next
      then done (free temp (record s { head_node = none; last_node = none }))
      else (deref (s.nodes temp).next s
          (λ a. done (free temp (set_previous a none (record s { head_node = some a }))))))
]

-- remove_last
unfoldable pub remove_last : Lists → Outcome Lists
unfolding deref same_pointer set_next free
remove_last s = elim s.last_node [
  | none ↦ done s
  | some last ↦ deref (some last) s (λ temp.
      if same_pointer (s.nodes temp).previous (s.nodes temp).next
      then done (free temp (record s { head_node = none; last_node = none }))
      else (deref (s.nodes temp).previous s
          (λ a. done (free temp (set_next a none (record s { last_node = some a }))))))
]

-- What follows the search of remove_node.
unfoldable pub removed : (head : ℕ) → Lists → Outcome (Option ℕ) → Outcome Lists
unfolding deref set_next free
removed head s (done none) = done s
removed head s (done (some temp)) =
    if temp == head
    then done (free temp (record s { head_node = none; last_node = none }))
    else (deref (s.nodes temp).previous s
        (λ a. done (free temp (set_next a (s.nodes temp).next s))))
removed head s fault = fault
removed head s diverges = diverges

-- The two branches on `head_node`.
unfoldable pub remove_from : ℕ → (index : ℕ) → Lists → Option ℕ → Outcome Lists
unfolding removed
remove_from fuel index s none = done s
remove_from fuel index s (some head) = removed head s (seek fuel (some head) index s)

-- remove_node
unfoldable pub remove_node : ℕ → (index : ℕ) → Lists → Outcome Lists
unfolding remove_from
remove_node fuel index s = remove_from fuel index s s.head_node

-- The loop of find_node.
unfoldable pub find_from : ℕ → (ptr : Option ℕ) → (index : ℕ) → Lists → Outcome (Option ℕ)
unfolding deref
find_from zero ptr index s = diverges
find_from (suc fuel) none index s = done none
find_from (suc fuel) (some p) index s = deref (some p) s (λ a.
    let rest = find_from fuel (s.nodes a).next index s in
    if (s.nodes a).index == index then done (some a) else rest)

-- find_node; its argument `head` is not used.
unfoldable pub find_node : ℕ → (head : Option ℕ) → (index : ℕ) → Lists → Outcome (Option ℕ)
unfolding find_from
find_node fuel head index s = find_from fuel s.head_node index s
