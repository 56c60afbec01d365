-- ===== src/Connections/Focus/RemoveCurrent.antt =====
-- remove_con_node of linklist/testlink.c where the current node has the CID.
use mathlib.Core.Path.{subst, ap₂}
use c_modules.Base.{
  ℕ, ◌≡◌, refl, ◌∙◌, ap, sym, true, Option, none, some, List, [], ◌∷◌, arith, ==_iff, ne→==,
}
use c_modules.LinkList.Heap.{Outcome, done}
use c_modules.LinkList.Nodes.{same_pointer}
use c_modules.Connections.Nodes.{
  Table, forward, backward, beyond, deref, Found, set_far, set_current,
}
use c_modules.Connections.Removal.{
  removed, relink, drop_last, drop_head, advance_head, remove_case, remove_current, remove_at,
  remove_con_node,
}
use c_modules.Connections.Order.{Beyond-trans}
use c_modules.Connections.Focus.{Out, last_of, Focus, Out-frame}
use c_modules.Connections.Focus.Insert.{ne_of_next, ne_of_beyond}
use c_modules.Connections.Focus.Remove.{Out-last}

-- A removal of `p` from the table `s` returns it and leaves `t`, with the CIDs as they were.
abbrev pub Leaves : ℕ → (s t : Table) → Outcome Found → Type 0
Leaves p s t o =
    (o ≡ done (record { result = some p; table = t }))
    × ((a : ℕ) → (t.nodes a).cid ≡ (s.nodes a).cid)

-- What a removal of the current node `p` leaves, which had `ls` behind it and `rs` ahead: nothing; or,
-- of the last node, its previous one as the current one; or else its next one as the current one.
unfoldable pub Removes : ℕ → Table → (ls rs : List ℕ) → Outcome Found → Type 0
Removes p s [] [] o =
    (t : Table) × Leaves p s t o
    × (t.con_head_node ≡ none)
    × (t.con_last_node ≡ none)
    × (t.con_current_node ≡ none)
Removes p s (l ∷ ls) [] o =
    (t : Table) × Leaves p s t o × Focus forward t l ls [] × (t.con_current_node ≡ some l)
Removes p s ls (r ∷ rs) o =
    (t : Table) × Leaves p s t o × Focus forward t r ls rs × (t.con_current_node ≡ some r)

remove_current-case :
    (s : Table) (p : ℕ) (n m h l : Option ℕ)
    → (s.nodes p).next ≡ n
    → (s.nodes p).previous ≡ m
    → s.con_head_node ≡ h
    → s.con_last_node ≡ l
    → remove_current p s ≡ remove_case p s n m h l
unfolding remove_current
remove_current-case s p n m h l a b c d =
    ap (λ x. remove_case p s x (s.nodes p).previous s.con_head_node s.con_last_node) a
    ∙ ap (λ x. remove_case p s n x s.con_head_node s.con_last_node) b
    ∙ ap (λ x. remove_case p s n m x s.con_last_node) c
    ∙ ap (remove_case p s n m h) d

-- The three ways in which a node leaves the list.
drop_head_lem :
    (s : Table) (p r : ℕ)
    → s.con_head_node ≡ some p
    → (s.nodes p).next ≡ some r
    → drop_head p s
      ≡ done (
          removed p (
            set_far backward r none
              (record s { con_head_node = some r; con_current_node = some r })))
unfolding drop_head advance_head
drop_head_lem s p r e k =
    ap
      (λ h. deref h (λ a. deref (s.nodes a).next (λ q. done (
        removed p (
          set_far backward q none (record s {
            con_head_node = (s.nodes a).next;
            con_current_node = (s.nodes a).next;
          }))))))
      e
    ∙ ap
        (λ x. deref x (λ q. done (
          removed p
            (set_far backward q none (record s { con_head_node = x; con_current_node = x })))))
        k

drop_last_lem :
    (s : Table) (p l : ℕ)
    → s.con_last_node ≡ some p
    → (s.nodes p).previous ≡ some l
    → drop_last p s
      ≡ done (
          removed p (
            set_far forward l none
              (record s { con_last_node = some l; con_current_node = some l })))
unfolding drop_last
drop_last_lem s p l e k =
    ap
      (λ h. deref h (λ a. deref (s.nodes a).previous (λ q. done (
        removed p (
          set_far forward q none (record s {
            con_last_node = (s.nodes a).previous;
            con_current_node = (s.nodes a).previous;
          }))))))
      e
    ∙ ap
        (λ x. deref x (λ q. done (
          removed p
            (set_far forward q none (record s { con_last_node = x; con_current_node = x })))))
        k

relink_lem :
    (s : Table) (p l r : ℕ)
    → (s.nodes p).next ≡ some r
    → (s.nodes p).previous ≡ some l
    → relink p s
      ≡ done (
          removed p
            (set_current (some r) (set_far forward l (some r) (set_far backward r (some l) s))))
unfolding relink
relink_lem s p l r e k =
    ap
      (λ x. deref x (λ a. deref (s.nodes p).previous (λ b. done (
        removed p (
          set_current (some a)
            (set_far forward b (some a) (set_far backward a (s.nodes p).previous s)))))))
      e
    ∙ ap
        (λ y. deref y (λ b.
          done (
            removed p
              (set_current (some r) (set_far forward b (some r) (set_far backward r y s))))))
        k

-- The node goes; what stays is the sorted list of the others.
remove_current-Removes :
    (s : Table) (p : ℕ) (ls rs : List ℕ)
    → Focus forward s p ls rs
    → Removes p s ls rs (remove_current p s)
unfolding Out remove_case same_pointer set_far removed Removes
remove_current-Removes s p [] [] f = (
  record s { con_current_node = none; con_head_node = none; con_last_node = none },
  (remove_current-case s p none none (some p) (some p) f.ahead f.behind f.start f.stop, λ a. refl),
  refl,
  refl,
  refl,
)
remove_current-Removes s p [] (r ∷ rs) f =
    let t =
      set_far backward r none (record s { con_head_node = some r; con_current_node = some r }) in
    (
      t,
      (
        remove_current-case s p (some r) none (some p) (some (last_of r rs)) f.ahead.0 f.behind
              f.start f.stop
            ∙ rw ((==_iff p p).1 refl) (drop_head_lem s p r f.start f.ahead.0),
        λ a. ground arith,
      ),
      (record {
        behind = ground arith;
        ahead =
            Out-frame forward s.nodes t.nodes r rs (ground arith) (ground arith)
              (λ a b. let ne = ne_of_next forward s a r b in ground arith) f.ahead.3;
        start = refl;
        stop = f.stop;
      }),
      refl,
    )
remove_current-Removes s p (l ∷ ls) [] f =
    let t =
      set_far forward l none (record s { con_last_node = some l; con_current_node = some l }) in
    let first = ne_of_next backward s (last_of l ls) p (Out-last backward s p l ls f.behind) in
    (
      t,
      (
        remove_current-case s p none (some l) (some (last_of l ls)) (some p) f.ahead f.behind.0
              f.start f.stop
            ∙ rw (ne→== p (last_of l ls) (λ e. first (sym e)), (==_iff p p).1 refl)
                (drop_last_lem s p l f.stop f.behind.0),
        λ a. ground arith,
      ),
      (record {
        behind =
            Out-frame backward s.nodes t.nodes l ls (ground arith) (ground arith)
              (λ a b. let ne = ne_of_next backward s a l b in ground arith) f.behind.3;
        ahead = ground arith;
        start = f.start;
        stop = refl;
      }),
      refl,
    )
remove_current-Removes s p (l ∷ ls) (r ∷ rs) f =
    let t = set_current (some r) (set_far forward l (some r) (set_far backward r (some l) s)) in
    let first = ne_of_next backward s (last_of l ls) p (Out-last backward s p l ls f.behind) in
    let last = ne_of_next forward s (last_of r rs) p (Out-last forward s p r rs f.ahead) in
    let order : beyond forward (s.nodes r).cid (s.nodes l).cid ≡ true =
      Beyond-trans forward (s.nodes r).cid (s.nodes p).cid (s.nodes l).cid f.ahead.2 f.behind.2 in
    let apart = ne_of_next forward s r l order in
    let cids : (a : ℕ) → (t.nodes a).cid ≡ (s.nodes a).cid = λ a. ground arith in
    (
      t,
      (
        remove_current-case s p (some r) (some l) (some (last_of l ls)) (some (last_of r rs))
              f.ahead.0 f.behind.0 f.start f.stop
            ∙ rw
                (
                  ne→== p (last_of l ls) (λ e. first (sym e)),
                  ne→== p (last_of r rs) (λ e. last (sym e)),
                )
                (relink_lem s p l r f.ahead.0 f.behind.0),
        cids,
      ),
      (record {
        behind = (
          ground arith,
          ground arith,
          ap₂ (beyond backward) (cids l) (cids r) ∙ order,
          Out-frame backward s.nodes t.nodes l ls (ground arith) (cids l)
              (λ a b.
                let ne = ne_of_next backward s a l b in
                let ne' = ne_of_beyond backward s a l r b order in ground arith)
              f.behind.3,
        );
        ahead =
            Out-frame forward s.nodes t.nodes r rs (ground arith) (cids r)
              (λ a b.
                let ne = ne_of_next forward s a r b in
                let ne' = ne_of_beyond forward s a r l b order in ground arith)
              f.ahead.3;
        start = f.start;
        stop = f.stop;
      }),
      refl,
    )

-- On a sorted list, remove_con_node of the current node's CID returns the node; the others stay a
-- sorted list with their CIDs, in which the next node is current, or the previous one where there is no
-- next, or the list is empty.
pub remove_con_node-Removes :
    (fuel : ℕ) (s : Table) (p : ℕ) (ls rs : List ℕ)
    → s.con_current_node ≡ some p
    → Focus forward s p ls rs
    → Removes p s ls rs (remove_con_node fuel (s.nodes p).cid s)
unfolding remove_con_node remove_at
remove_con_node-Removes fuel s p ls rs at f =
    subst (λ c. Removes p s ls rs (deref c (λ tmp. remove_at fuel (s.nodes p).cid tmp s))) (sym at)
      (rw ((==_iff (s.nodes p).cid (s.nodes p).cid).1 refl) (remove_current-Removes s p ls rs f))
