-- ===== src/Connections/Nodes.antt =====
-- The nodes and functions of linklist/testlink.c. The two mirrored branches of insert_con_node and
-- find_con_node are one function of a direction: `forward` follows `next` to rising CIDs.
use c_modules.Base.{ℕ, zero, suc, Bool, ◌&&◌, Option, none, some, ltb, ◌==◌, if◌then◌else◌}
use c_modules.LinkList.Heap.{Outcome, done, fault, diverges}
use c_modules.LinkList.Nodes.{same_pointer}

-- `struct CON_list`; of `connection_info`, whose type is not in the repository, the CID.
pub record ConList : Type 0 where
  pub cid : ℕ
  pub next : Option ℕ
  pub previous : Option ℕ

-- The nodes at their addresses and the three globals; a pointer of `none` is NULL.
pub record Table : Type 0 where
  pub nodes : ℕ → ConList
  pub con_head_node : Option ℕ
  pub con_last_node : Option ℕ
  pub con_current_node : Option ℕ

pub data Direction : Type 0 where
  forward backward : Direction

abbrev pub opposite : Direction → Direction
opposite forward = backward
opposite backward = forward

-- The pointer of a node in a direction.
abbrev pub far : Direction → ConList → Option ℕ
far forward n = n.next
far backward n = n.previous

-- `a > b` forward, `a < b` backward.
abbrev pub beyond : Direction → (a b : ℕ) → Bool
beyond forward a b = ltb b a
beyond backward a b = ltb a b

-- con_last_node forward, con_head_node backward.
abbrev pub end_of : Direction → Table → Option ℕ
end_of forward s = s.con_last_node
end_of backward s = s.con_head_node

abbrev pub set_end : Direction → Option ℕ → Table → Table
set_end forward p s = record s { con_last_node = p }
set_end backward p s = record s { con_head_node = p }

abbrev pub set_current : Option ℕ → Table → Table
set_current p s = record s { con_current_node = p }

abbrev pub with_far : Direction → Option ℕ → ConList → ConList
with_far forward q n = record n { next = q }
with_far backward q n = record n { previous = q }

-- `p->next = q` forward, `p->previous = q` backward.
unfoldable pub set_far : Direction → (p : ℕ) → Option ℕ → Table → Table
set_far dir p q s = record s {
  nodes = λ a. if a == p then with_far dir q (s.nodes p) else s.nodes a;
}

-- What follows a dereference.
abbrev pub deref : {A : Type 0} → Option ℕ → (ℕ → Outcome A) → Outcome A
deref none k = fault
deref (some a) k = k a

-- `do { if (tmp->next == NULL) break; tmp = tmp->next; } while (CID > tmp->CID);`
unfoldable pub seek : ℕ → Direction → (cid tmp : ℕ) → Table → Outcome ℕ
seek zero dir cid tmp s = diverges
seek (suc fuel) dir cid tmp s = elim (far dir (s.nodes tmp)) [
  | none ↦ done tmp
  | some n ↦
      let rest = seek fuel dir cid n s in if beyond dir cid (s.nodes n).cid then rest else done n
]

-- The new node behind the end.
unfoldable pub link_end : Direction → (node tmp : ℕ) → Table → Table
unfolding set_far
link_end dir node tmp s =
    let s = set_far dir tmp (some node) s in
    let s = set_far (opposite dir) node (some tmp) s in
    let s = set_far dir node none s in set_current (some node) (set_end dir (some node) s)

-- The new node between `tmp1` and `tmp`.
unfoldable pub link_between : Direction → (node tmp1 tmp : ℕ) → Table → Table
unfolding set_far
link_between dir node tmp1 tmp s =
    let s = set_far (opposite dir) node (some tmp1) s in
    let s = set_far dir node (some tmp) s in
    let s = set_far (opposite dir) tmp (some node) s in
    let s = set_far dir tmp1 (some node) s in set_current (some node) s

-- What follows the loop.
unfoldable pub link : Direction → (node tmp : ℕ) → Table → Outcome Table
unfolding link_end link_between
link dir node tmp s =
    if same_pointer (some tmp) (end_of dir s) && beyond dir (s.nodes node).cid (s.nodes tmp).cid
    then done (link_end dir node tmp s)
    else deref (far (opposite dir) (s.nodes tmp)) (λ tmp1. done (link_between dir node tmp1 tmp s))

unfoldable pub after_seek : Direction → (node : ℕ) → Table → Outcome ℕ → Outcome Table
after_seek dir node s (done tmp) = link dir node tmp s
after_seek dir node s fault = fault
after_seek dir node s diverges = diverges

-- One of the two branches on the CIDs.
unfoldable pub insert_towards : ℕ → Direction → (node tmp : ℕ) → Table → Outcome Table
unfolding after_seek
insert_towards fuel dir node tmp s = after_seek dir node s (seek fuel dir (s.nodes node).cid tmp s)

-- The first node of a list.
unfoldable pub link_only : (node : ℕ) → Table → Table
unfolding set_far
link_only node s = record (set_far backward node none (set_far forward node none s)) {
  con_head_node = some node;
  con_last_node = some node;
  con_current_node = some node;
}

-- The branches on the CID of the current node.
unfoldable pub insert_at : ℕ → (node tmp : ℕ) → Table → Outcome Table
unfolding insert_towards
insert_at fuel node tmp s =
    if beyond forward (s.nodes node).cid (s.nodes tmp).cid
    then insert_towards fuel forward node tmp s
    else if beyond backward (s.nodes node).cid (s.nodes tmp).cid
    then insert_towards fuel backward node tmp s
    else done s

-- The branches on con_head_node, with what con_current_node holds.
unfoldable pub insert_into : ℕ → (node : ℕ) → Table → (head current : Option ℕ) → Outcome Table
unfolding link_only insert_at
insert_into fuel node s none current = done (link_only node s)
insert_into fuel node s (some head) current = deref current (λ tmp. insert_at fuel node tmp s)

-- insert_con_node
unfoldable pub insert_con_node : ℕ → (node : ℕ) → Table → Outcome Table
unfolding insert_into
insert_con_node fuel node s = insert_into fuel node s s.con_head_node s.con_current_node

-- `do { if (tmp->next == NULL) goto MISMATCH_CID; tmp = tmp->next; } while (CID != tmp->CID);`
unfoldable pub search : ℕ → Direction → (cid tmp : ℕ) → Table → Outcome (Option ℕ)
search zero dir cid tmp s = diverges
search (suc fuel) dir cid tmp s = elim (far dir (s.nodes tmp)) [
  | none ↦ done none
  | some n ↦
      let rest = search fuel dir cid n s in if cid == (s.nodes n).cid then done (some n) else rest
]

-- Where find_con_node looks.
unfoldable pub search_from : ℕ → (cid tmp : ℕ) → Table → Outcome (Option ℕ)
unfolding search
search_from fuel cid tmp s =
    if beyond forward cid (s.nodes tmp).cid
    then search fuel forward cid tmp s
    else if beyond backward cid (s.nodes tmp).cid
    then search fuel backward cid tmp s
    else done (some tmp)

-- What a call of find_con_node or remove_con_node returns, with the table after it.
pub record Found : Type 0 where
  pub result : Option ℕ
  pub table : Table

unfoldable pub found_at : Table → Outcome (Option ℕ) → Outcome Found
found_at s (done none) = done (record { result = none; table = s })
found_at s (done (some tmp)) = done (record { result = some tmp; table = set_current (some tmp) s })
found_at s fault = fault
found_at s diverges = diverges

-- find_con_node
unfoldable pub find_con_node : ℕ → (cid : ℕ) → Table → Outcome Found
unfolding found_at search_from
find_con_node fuel cid s = deref s.con_current_node (λ tmp. found_at s (search_from fuel cid tmp s))
