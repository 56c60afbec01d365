-- ===== src/LinkList/Stack/Refines.antt =====
-- The head of the list of linklist/linklist.c is a stack.
use c_modules.Base.{
  sym, ℕ, suc, ◌+◌, ◌<◌, ◌≤◌, ◌≡◌, refl, ◌∙◌, ap, arith, Option, none, some, List, [], ◌∷◌, ◌++◌,
  length,
}
use c_modules.LinkList.Heap.{Lists, Outcome, done}
use c_modules.LinkList.Nodes.{add_first}
use c_modules.LinkList.Reading.{contains, Finds, found, missing, find_node-Finds}
use c_modules.LinkList.Stack.{
  HeadCall, push, pop, find, Seen, is_node, and_then, heap_call, stack_call, heap_calls,
  stack_calls,
}
use c_modules.LinkList.Stack.Invariant.{
  IsStack, Falling-Chain, add_first-IsStack, remove_first-empty, remove_first-IsStack,
}

-- An outcome that shows `seen` and leaves a heap for its stack.
abbrev pub Shown : Outcome (Seen Lists) → Seen (List ℕ) → Type 0
Shown o seen =
    (t : Lists) × (o ≡ done (record { answers = seen.answers; left = t })) × IsStack t seen.left

is_node-contains :
    (s : Lists) (index : ℕ) (xs : List ℕ) (p : Option ℕ)
    → Finds s index xs p
    → is_node p ≡ contains index xs
unfolding is_node
is_node-contains s index xs (some a) (found b live at holds) = sym holds
is_node-contains s index xs none (missing absent) = sym absent

call-Shown :
    (fuel : ℕ) (c : HeadCall) (s : Lists) (xs : List ℕ)
    → IsStack s xs
    → length xs < fuel
    → Shown (heap_call fuel c s) (stack_call c xs)
unfolding heap_call stack_call and_then
call-Shown fuel (push index) s xs h enough =
    (add_first index s, refl, add_first-IsStack index s xs h)
call-Shown fuel pop s [] h enough = (
  s,
  ap (λ o. and_then o (λ t. done (record { answers = []; left = t }))) (remove_first-empty s h),
  h,
)
call-Shown fuel pop s (x ∷ xs) h enough =
    let (t, e, k) = remove_first-IsStack s x xs h in
    (t, ap (λ o. and_then o (λ t. done (record { answers = []; left = t }))) e, k)
call-Shown fuel (find index) s xs h enough =
    let (p, e, finds) =
      find_node-Finds fuel s s.head_node index xs
        (Falling-Chain s s.head_node s.fresh xs (omega arith) h.falling) enough in
    (
      s,
      ap (λ o. and_then o (λ p. done (record { answers = is_node p ∷ []; left = s }))) e
          ∙ ap (λ b. done (record { answers = b ∷ []; left = s }))
              (is_node-contains s index xs p finds),
      h,
    )

length-stack_call : (c : HeadCall) (xs : List ℕ) → length (stack_call c xs).left ≤ suc (length xs)
unfolding stack_call
length-stack_call (push index) xs = omega arith
length-stack_call pop [] = omega arith
length-stack_call pop (x ∷ xs) = omega arith
length-stack_call (find index) xs = omega arith

-- Any calls of add_first, remove_first and find_node, on a heap that stands for a stack and with fuel
-- above its size and the number of calls, end without a fault. find_node finds a node exactly when the
-- stack holds the index; the heap then stands for what is left of the stack, and no other node is live.
pub heap_calls-stack_calls :
    (fuel : ℕ) (cs : List HeadCall) (s : Lists) (xs : List ℕ)
    → IsStack s xs
    → length xs + length cs < fuel
    → Shown (heap_calls fuel cs s) (stack_calls cs xs)
unfolding heap_calls stack_calls
heap_calls-stack_calls fuel [] s xs h enough = (s, refl, h)
heap_calls-stack_calls fuel (c ∷ cs) s xs h enough =
    let one = stack_call c xs in
    let (t, e, k) = call-Shown fuel c s xs h (omega arith) in
    let (u, e', k') =
      heap_calls-stack_calls fuel cs t one.left k (omega (arith, length-stack_call c xs)) in
    (
      u,
      ap
            (λ o. and_then o (λ one.
              and_then (heap_calls fuel cs one.left) (λ more.
                done (record { answers = one.answers ++ more.answers; left = more.left }))))
            e
          ∙ ap
              (λ o.
                and_then o (λ more.
                  done (record { answers = one.answers ++ more.answers; left = more.left })))
              e',
      k',
    )
