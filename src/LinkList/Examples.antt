-- ===== src/LinkList/Examples.antt =====
-- Runs of the linked list, and its theorems at a list of two nodes.
use c_modules.Base.{◌≡◌, List, true, refl, false, none, some, [], ◌∷◌, arith}
use c_modules.LinkList.Stack.{HeadCall, push, pop, find, heap_calls, stack_calls}
use c_modules.LinkList.Stack.Invariant.{IsStack, Falling}
use c_modules.LinkList.Stack.Refines.{Shown, heap_calls-stack_calls}
use c_modules.LinkList.Heap.{Lists, malloc, store, set_index, set_next, set_previous}
use c_modules.LinkList.Nodes.{add_first}
use c_modules.LinkList.Reading.{Chain, Shows, contains, add_first-Shows}

abbrev empty : Lists
empty = record {
  nodes = λ a. record { index = 0; next = none; previous = none };
  live = λ a. false;
  fresh = 1;
  head_node = none;
  last_node = none;
}

empty-Shows : Shows empty []
unfolding Chain
empty-Shows = refl

abbrev single : Lists
single = add_first 5 empty

single-Shows : Shows single (5 ∷ [])
single-Shows = add_first-Shows 5 empty [] empty-Shows

single_last : single.last_node ≡ some 1
unfolding add_first malloc set_index set_next set_previous store
single_last = refl

abbrev pair : Lists
pair = add_first 7 single

pair-Shows : Shows pair (7 ∷ 5 ∷ [])
pair-Shows = add_first-Shows 7 single (5 ∷ []) single-Shows

empty-IsStack : IsStack empty []
unfolding Falling
empty-IsStack = record { falling = (refl, λ b lt. refl); unused = λ b le. refl }

-- A node is found before it is removed, and no more behind that.
abbrev head_calls : List HeadCall
head_calls = push 5 ∷ push 7 ∷ find 7 ∷ pop ∷ find 7 ∷ find 5 ∷ pop ∷ pop ∷ []

heap_calls-stack_calls_example : Shown (heap_calls 9 head_calls empty) (stack_calls head_calls [])
heap_calls-stack_calls_example =
    heap_calls-stack_calls 9 head_calls empty [] empty-IsStack (omega arith)

head_answers : (stack_calls head_calls []).answers ≡ true ∷ false ∷ true ∷ []
unfolding stack_calls contains
head_answers = refl
