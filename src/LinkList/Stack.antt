-- ===== src/LinkList/Stack.antt =====
-- linklist/linklist.c used at its head only: the calls of add_first, remove_first and find_node, and
-- the stack of indices that they are.
pub mod Invariant
pub mod Refines
use c_modules.Base.{
  ℕ, Bool, true, false, Option, none, some, List, [], ◌∷◌, ◌++◌, ◌==◌, if◌then◌else◌,
}
use c_modules.LinkList.Heap.{Lists, Outcome, done, fault, diverges}
use c_modules.LinkList.Nodes.{add_first, remove_first, find_node}
use c_modules.LinkList.Reading.{contains}

pub data HeadCall : Type 0 where
  push : ℕ → HeadCall
  pop : HeadCall
  find : ℕ → HeadCall

-- What a caller sees, whether find_node gives a node, and what is left.
pub record Seen (A : Type 0) : Type 0 where
  pub answers : List Bool
  pub left : A

unfoldable pub is_node : Option ℕ → Bool
is_node none = false
is_node (some a) = true

unfoldable pub and_then : {A B : Type 0} → Outcome A → (A → Outcome B) → Outcome B
and_then (done a) f = f a
and_then fault f = fault
and_then diverges f = diverges

unfoldable pub heap_call : (fuel : ℕ) → HeadCall → Lists → Outcome (Seen Lists)
unfolding is_node and_then
heap_call fuel (push index) s = done (record { answers = []; left = add_first index s })
heap_call fuel pop s = and_then (remove_first s) (λ t. done (record { answers = []; left = t }))
heap_call fuel (find index) s =
    and_then (find_node fuel s.head_node index s)
      (λ p. done (record { answers = is_node p ∷ []; left = s }))

-- The same on a stack.
unfoldable pub stack_call : HeadCall → List ℕ → Seen (List ℕ)
stack_call (push index) xs = record { answers = []; left = index ∷ xs }
stack_call pop [] = record { answers = []; left = [] }
stack_call pop (x ∷ xs) = record { answers = []; left = xs }
stack_call (find index) xs = record { answers = contains index xs ∷ []; left = xs }

-- One call after the other.
unfoldable pub heap_calls : (fuel : ℕ) → List HeadCall → Lists → Outcome (Seen Lists)
unfolding heap_call and_then
heap_calls fuel [] s = done (record { answers = []; left = s })
heap_calls fuel (c ∷ cs) s = and_then (heap_call fuel c s) (λ one.
    and_then (heap_calls fuel cs one.left)
      (λ more. done (record { answers = one.answers ++ more.answers; left = more.left })))

unfoldable pub stack_calls : List HeadCall → List ℕ → Seen (List ℕ)
unfolding stack_call
stack_calls [] xs = record { answers = []; left = xs }
stack_calls (c ∷ cs) xs =
    let one = stack_call c xs in
    let more = stack_calls cs one.left in
    record { answers = one.answers ++ more.answers; left = more.left }
