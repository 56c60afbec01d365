-- ===== src/LinkList/Stack/Invariant.antt =====
-- The heap of linklist/linklist.c that a stack of indices stands for.
use c_modules.Base.{
  ltb→lt, ltb, inr, ==_iff, inl, Bool-cases, ◌≢◌, ℕ, ◌+◌, ◌<◌, ◌≤◌, ◌≡◌, refl, ◌∙◌, ap, sym, arith,
  true, false, Option, none, some, List, [], ◌∷◌, ◌==◌,
}
use mathlib.Core.Path.{subst}
use mathlib.Core.Option.{some-injective}
use c_modules.LinkList.Heap.{
  Lists, done, malloc, free, store, set_index, set_next, set_previous, deref,
}
use c_modules.LinkList.Nodes.{add_first, remove_first, same_pointer}
use c_modules.LinkList.Reading.{Chain}

-- From `p`, `next` leads down through live nodes with the indices `xs`, without a way back; of the
-- addresses below `bound` no other is live.
unfoldable pub Falling : Lists → Option ℕ → (bound : ℕ) → List ℕ → Type 0
Falling s p bound [] = (p ≡ none) × ((b : ℕ) → b < bound → s.live b ≡ false)
Falling s p bound (x ∷ xs) =
    (a : ℕ) × (p ≡ some a)
    × (a < bound)
    × (s.live a ≡ true)
    × ((s.nodes a).index ≡ x)
    × ((s.nodes a).previous ≡ none)
    × ((b : ℕ) → a < b → b < bound → s.live b ≡ false)
    × Falling s (s.nodes a).next a xs

-- The list holds the indices of the stack, and no node is live but its own.
pub record IsStack (s : Lists) (xs : List ℕ) : Type 0 where
  pub falling : Falling s s.head_node s.fresh xs
  pub unused : (b : ℕ) → s.fresh ≤ b → s.live b ≡ false

Falling-frame :
    (s t : Lists) (p : Option ℕ) (bound : ℕ) (xs : List ℕ)
    → ((b : ℕ) → b < bound → t.live b ≡ s.live b)
    → ((b : ℕ) → b < bound → t.nodes b ≡ s.nodes b)
    → Falling s p bound xs
    → Falling t p bound xs
unfolding Falling
Falling-frame s t p bound [] live nodes (at, gone) = (at, λ b lt. live b lt ∙ gone b lt)
Falling-frame s t p bound (x ∷ xs) live nodes (a, at, lt, alive, index, first, gone, rest) =
    let same = nodes a lt in
    (
      a,
      at,
      lt,
      live a lt ∙ alive,
      ap (λ n. n.index) same ∙ index,
      ap (λ n. n.previous) same ∙ first,
      (λ b above below. live b below ∙ gone b above below),
      subst (λ q. Falling t q a xs) (sym (ap (λ n. n.next) same))
          (Falling-frame s t (s.nodes a).next a xs (λ b below. live b (omega arith))
            (λ b below. nodes b (omega arith)) rest),
    )

pub Falling-Chain :
    (s : Lists) (p : Option ℕ) (bound : ℕ) (xs : List ℕ)
    → bound ≤ s.fresh
    → Falling s p bound xs
    → Chain s p xs
unfolding Falling Chain
Falling-Chain s p bound [] le (at, gone) = at
Falling-Chain s p bound (x ∷ xs) le (a, at, lt, alive, index, first, gone, rest) =
    (a, at, alive, omega arith, index, Falling-Chain s (s.nodes a).next a xs (omega arith) rest)

-- What add_first makes of the heap.
record IsPushed (index : ℕ) (s t : Lists) : Type 0 where
  head : t.head_node ≡ some s.fresh
  fresh : t.fresh ≡ s.fresh + 1
  node : t.nodes s.fresh ≡ record { index = index; next = s.head_node; previous = none }
  live : t.live s.fresh ≡ true
  live_else : (b : ℕ) → b ≢ s.fresh → t.live b ≡ s.live b
  nodes : (b : ℕ) → b ≢ s.fresh → t.nodes b ≡ s.nodes b

add_first-IsPushed : (index : ℕ) (s : Lists) → IsPushed index s (add_first index s)
unfolding add_first malloc set_index set_next set_previous store
add_first-IsPushed index s = record {
  head = ground arith;
  fresh = ground arith;
  node = ground arith;
  live = ground arith;
  live_else = λ b ne. ground arith;
  nodes = λ b ne. ground arith;
}

pub add_first-IsStack :
    (index : ℕ) (s : Lists) (xs : List ℕ) → IsStack s xs → IsStack (add_first index s) (index ∷ xs)
unfolding Falling
add_first-IsStack index s xs h =
    let t = add_first index s in
    let f = add_first-IsPushed index s in
    record {
      falling = (
        s.fresh,
        f.head,
        omega (arith, f.fresh),
        f.live,
        ap (λ n. n.index) f.node,
        ap (λ n. n.previous) f.node,
        (λ b above below. absurd (omega (arith, f.fresh))),
        subst (λ q. Falling t q s.fresh xs) (sym (ap (λ n. n.next) f.node))
            (Falling-frame s t s.head_node s.fresh xs (λ b lt. f.live_else b (omega arith))
              (λ b lt. f.nodes b (omega arith)) h.falling),
      );
      unused = λ b le. f.live_else b (omega (arith, f.fresh)) ∙ h.unused b (omega (arith, f.fresh));
    }

pub remove_first-empty : (s : Lists) → IsStack s [] → remove_first s ≡ done s
unfolding Falling remove_first
remove_first-empty s h = rw h.falling.0 refl

-- What remove_first leaves of a heap whose only node is `a`.
abbrev emptied : ℕ → Lists → Lists
emptied a s = free a (record s { head_node = none; last_node = none })

emptied-IsStack :
    (s : Lists) (a x : ℕ) → IsStack s (x ∷ []) → s.head_node ≡ some a → IsStack (emptied a s) []
unfolding Falling free
emptied-IsStack s a x h at =
    let (b, at', lt, alive, index, first, gone, (ends, below)) = h.falling in
    let same : a ≡ b = some-injective a b (sym at ∙ at') in
    record {
      falling = (refl, λ c lt. ground (arith, gone c, below c));
      unused = λ c le. ground (arith, h.unused c);
    }

-- What it leaves where `b` follows `a`.
abbrev advanced : (a b : ℕ) → Lists → Lists
advanced a b s = free a (set_previous b none (record s { head_node = some b }))

record IsAdvanced (a b : ℕ) (s t : Lists) : Type 0 where
  head : t.head_node ≡ some b
  fresh : t.fresh ≡ s.fresh
  freed : t.live a ≡ false
  live : (c : ℕ) → c ≢ a → t.live c ≡ s.live c
  index : (t.nodes b).index ≡ (s.nodes b).index
  next : (t.nodes b).next ≡ (s.nodes b).next
  first : (t.nodes b).previous ≡ none
  nodes : (c : ℕ) → c ≢ b → t.nodes c ≡ s.nodes c

advanced-IsAdvanced : (a b : ℕ) (s : Lists) → IsAdvanced a b s (advanced a b s)
unfolding free set_previous store
advanced-IsAdvanced a b s = record {
  head = refl;
  fresh = refl;
  freed = ground arith;
  live = λ c ne. ground arith;
  index = ground arith;
  next = ground arith;
  first = ground arith;
  nodes = λ c ne. ground arith;
}

-- One node is left out of a longer list.
pub remove_first-IsStack :
    (s : Lists) (x : ℕ) (xs : List ℕ)
    → IsStack s (x ∷ xs)
    → (t : Lists) × (remove_first s ≡ done t) × IsStack t xs
unfolding Falling remove_first deref same_pointer
remove_first-IsStack s x [] h =
    let (a, at, lt, alive, index, first, gone, (ends, below)) = h.falling in
    (emptied a s, rw (at, alive, first, ends) refl, emptied-IsStack s a x h at)
remove_first-IsStack s x (y ∷ ys) h =
    let (a, at, lt, alive, index, first, gone, (b, at', lt', alive', index', first', gone', rest)) =
      h.falling in
    let t = advanced a b s in
    let v = advanced-IsAdvanced a b s in
    (
      t,
      rw (at, alive, first, at', alive') refl,
      record {
        falling = (
          b,
          v.head,
          omega (arith, v.fresh),
          v.live b (omega arith) ∙ alive',
          v.index ∙ index',
          v.first,
          (λ c above below. elim (Bool-cases (c == a)) [
            | inl is ↦ let e : c ≡ a = (==_iff c a).0 is in ap t.live e ∙ v.freed
            | inr other ↦
                let ne : c ≢ a = ground arith in
                v.live c ne ∙ elim (Bool-cases (ltb c a)) [
                  | inl before ↦ gone' c above (ltb→lt c a before)
                  | inr behind ↦ gone c (ground arith) (omega (arith, v.fresh))
                ]
          ]),
          subst (λ q. Falling t q b ys) (sym v.next)
              (Falling-frame s t (s.nodes b).next b ys (λ c lt. v.live c (omega arith))
                (λ c lt. v.nodes c (omega arith)) rest),
        );
        unused = λ c le. v.live c (omega (arith, v.fresh)) ∙ h.unused c (omega (arith, v.fresh));
      },
    )
