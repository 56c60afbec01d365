-- ===== src/LinkList/Heap.antt =====
-- The heap of linklist/linklist.c: nodes at addresses, and the two globals. Memory that malloc returns
-- holds whatever the heap has there; malloc succeeds.
use c_modules.Base.{ℕ, ◌+◌, Bool, true, false, Option, none, some, ◌==◌, if◌then◌else◌}

-- `struct Node`; a pointer of `none` is NULL.
pub record Node : Type 0 where
  pub index : ℕ
  pub next : Option ℕ
  pub previous : Option ℕ

pub record Lists : Type 0 where
  pub nodes : ℕ → Node
  pub live : ℕ → Bool
  pub fresh : ℕ
  pub head_node : Option ℕ
  pub last_node : Option ℕ

-- How a function ends: with a result, at a pointer that is NULL or points to no node, or not within
-- the fuel.
pub data Outcome (A : Type 0) : Type 0 where
  done : A → Outcome A
  fault : Outcome A
  diverges : Outcome A

-- `malloc(sizeof(struct Node))`; the address is the old `fresh`. An address that was freed is not given
-- again, so a pointer to it stays without a node.
unfoldable pub malloc : Lists → Lists
malloc s = record s { live = λ a. if a == s.fresh then true else s.live a; fresh = s.fresh + 1 }

unfoldable pub free : ℕ → Lists → Lists
free p s = record s { live = λ a. if a == p then false else s.live a }

-- A store to a node.
unfoldable pub store : ℕ → Node → Lists → Lists
store p node s = record s { nodes = λ a. if a == p then node else s.nodes a }

-- `p->next = value;` and the others, for a node that is there.
unfoldable pub set_index : (p value : ℕ) → Lists → Lists
unfolding store
set_index p value s = store p (record (s.nodes p) { index = value }) s

unfoldable pub set_next : (p : ℕ) → (value : Option ℕ) → Lists → Lists
unfolding store
set_next p value s = store p (record (s.nodes p) { next = value }) s

unfoldable pub set_previous : (p : ℕ) → (value : Option ℕ) → Lists → Lists
unfolding store
set_previous p value s = store p (record (s.nodes p) { previous = value }) s

-- What follows a dereference of `p`.
unfoldable pub deref : {A : Type 0} → (p : Option ℕ) → Lists → (ℕ → Outcome A) → Outcome A
deref none s k = fault
deref (some a) s k = if s.live a then k a else fault
