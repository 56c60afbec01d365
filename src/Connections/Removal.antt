-- ===== src/Connections/Removal.antt =====
-- remove_and_relink_node and remove_con_node of linklist/testlink.c.
use c_modules.Base.{ℕ, ◌&&◌, Option, none, some, ◌==◌, if◌then◌else◌}
use c_modules.LinkList.Heap.{Outcome, done, fault, diverges}
use c_modules.LinkList.Nodes.{same_pointer}
use c_modules.Connections.Nodes.{
  Table, forward, backward, beyond, deref, set_far, set_current, search, Found,
}

-- A removal returns the node.
unfoldable pub removed : (node : ℕ) → Table → Found
removed node s = record { result = some node; table = s }

-- remove_and_relink_node, and `con_current_node` set to what it returns.
unfoldable pub relink : (node : ℕ) → Table → Outcome Found
unfolding set_far removed
relink node s =
    let next = (s.nodes node).next in
    let previous = (s.nodes node).previous in
    deref next (λ tmp1.
      let s = set_far backward tmp1 previous s in
      deref previous (λ tmp2.
        done (removed node (set_current (some tmp1) (set_far forward tmp2 (some tmp1) s)))))

-- `con_last_node = con_current_node = con_last_node->previous; con_last_node->next = NULL;`
unfoldable pub drop_last : (node : ℕ) → Table → Outcome Found
unfolding set_far removed
drop_last node s = deref s.con_last_node (λ last.
    let previous = (s.nodes last).previous in
    let s = record s { con_last_node = previous; con_current_node = previous } in
    deref previous (λ p. done (removed node (set_far forward p none s))))

-- `con_head_node = con_current_node = con_head_node->next;`
unfoldable pub advance_head : (head : ℕ) → Table → Table
advance_head head s = record s {
  con_head_node = (s.nodes head).next;
  con_current_node = (s.nodes head).next;
}

-- The same with `con_head_node->previous = NULL;`
unfoldable pub drop_head : (node : ℕ) → Table → Outcome Found
unfolding set_far removed advance_head
drop_head node s = deref s.con_head_node (λ head.
    let s = advance_head head s in
    deref s.con_head_node (λ p. done (removed node (set_far backward p none s))))

-- The same with `con_last_node->previous = NULL;`
unfoldable pub drop_head_behind : (node : ℕ) → Table → Outcome Found
unfolding set_far removed advance_head
drop_head_behind node s = deref s.con_head_node (λ head.
    let s = advance_head head s in
    deref s.con_last_node (λ last. done (removed node (set_far backward last none s))))

-- The branch where the current node has the CID, by what its two pointers and the two ends hold.
unfoldable pub remove_case :
    (tmp : ℕ) → Table → (next previous head last : Option ℕ) → Outcome Found
unfolding relink drop_last drop_head removed
remove_case tmp s next previous head last =
    if same_pointer next none && same_pointer previous none
    then done (
        removed tmp
          (record s { con_current_node = none; con_head_node = none; con_last_node = none }))
    else if same_pointer (some tmp) head
    then drop_head tmp s
    else if same_pointer (some tmp) last
    then drop_last tmp s
    else relink tmp s

unfoldable pub remove_current : (tmp : ℕ) → Table → Outcome Found
unfolding remove_case
remove_current tmp s =
    remove_case tmp s (s.nodes tmp).next (s.nodes tmp).previous s.con_head_node s.con_last_node

-- What follows the loop of the branch for a greater CID.
unfoldable pub remove_above : Table → Outcome (Option ℕ) → Outcome Found
unfolding relink drop_last
remove_above s (done none) = done (record { result = none; table = s })
remove_above s (done (some tmp)) =
    if same_pointer (some tmp) s.con_last_node then drop_last tmp s else relink tmp s
remove_above s fault = fault
remove_above s diverges = diverges

-- What follows the loop of the branch for a smaller CID.
unfoldable pub remove_below : Table → Outcome (Option ℕ) → Outcome Found
unfolding relink drop_head_behind
remove_below s (done none) = done (record { result = none; table = s })
remove_below s (done (some tmp)) =
    if same_pointer (some tmp) s.con_head_node then drop_head_behind tmp s else relink tmp s
remove_below s fault = fault
remove_below s diverges = diverges

-- The branches on the CID of the current node.
unfoldable pub remove_at : ℕ → (cid tmp : ℕ) → Table → Outcome Found
unfolding search remove_current remove_above remove_below
remove_at fuel cid tmp s =
    if cid == (s.nodes tmp).cid
    then remove_current tmp s
    else if beyond forward cid (s.nodes tmp).cid
    then remove_above s (search fuel forward cid tmp s)
    else remove_below s (search fuel backward cid tmp s)

-- remove_con_node
unfoldable pub remove_con_node : ℕ → (cid : ℕ) → Table → Outcome Found
unfolding remove_at
remove_con_node fuel cid s = deref s.con_current_node (λ tmp. remove_at fuel cid tmp s)
