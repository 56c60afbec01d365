-- ===== src/Connections/Focus/Remove.antt =====
-- remove_con_node of linklist/testlink.c on a sorted list.
use c_modules.Base.{
  ℕ, zero, suc, ◌+◌, ◌<◌, ◌≡◌, ◌≢◌, refl, ◌∙◌, ap, true, none, some, List, [], ◌∷◌, if◌then◌else◌,
  arith, length, ==_iff, ne→==, le→ltb, ltb→lt,
}
use c_modules.LinkList.Heap.{Outcome, done}
use c_modules.LinkList.Nodes.{same_pointer}
use c_modules.Connections.Nodes.{
  Table, Direction, forward, backward, beyond, deref, search, Found, set_far,
}
use c_modules.Connections.Removal.{
  removed, relink, advance_head, drop_head_behind, remove_below, remove_at, remove_con_node,
}
use c_modules.Connections.Order.{beyond-ne, Beyond-trans}
use c_modules.Connections.Focus.{Out, last_of, Focus}

pub Out-last :
    (dir : Direction) (s : Table) (p y : ℕ) (ys : List ℕ)
    → Out dir s.nodes p (y ∷ ys)
    → beyond dir (s.nodes (last_of y ys)).cid (s.nodes p).cid ≡ true
unfolding Out
Out-last dir s p y [] o = o.2
Out-last dir s p y (z ∷ ys) o =
    Beyond-trans dir (s.nodes (last_of z ys)).cid (s.nodes y).cid (s.nodes p).cid
      (Out-last dir s y z ys o.3) o.2

-- The search for the CID of the last node in a direction finds it.
search-last :
    (fuel : ℕ) (dir : Direction) (s : Table) (p y : ℕ) (ys : List ℕ)
    → Out dir s.nodes p (y ∷ ys)
    → length ys + 1 < fuel
    → search fuel dir (s.nodes (last_of y ys)).cid p s ≡ done (some (last_of y ys))
unfolding search Out
search-last zero dir s p y ys o enough = absurd (omega arith)
search-last (suc fuel) dir s p y [] o enough =
    rw (o.0, search, (==_iff (s.nodes y).cid (s.nodes y).cid).1 refl) refl
search-last (suc fuel) dir s p y (z ∷ ys) o enough =
    rw
      (
        o.0,
        search,
        ne→== (s.nodes (last_of z ys)).cid (s.nodes y).cid (
            beyond-ne dir (s.nodes (last_of z ys)).cid (s.nodes y).cid (Out-last dir s y z ys o.3)),
      )
      (search-last fuel dir s y z ys o.3 (omega arith))

-- What removing the first node from behind it does.
pub record LosesBack (head last : ℕ) (s : Table) (o : Outcome Found) : Type 0 where
  pub table : Table
  pub ends : o ≡ done (record { result = some head; table = table })
  pub new_head : table.con_head_node ≡ (s.nodes head).next
  pub cut : (table.nodes last).previous ≡ none
  pub others : (a : ℕ) → a ≢ last → table.nodes a ≡ s.nodes a

remove_at-below :
    (fuel : ℕ) (s : Table) (cid p : ℕ)
    → cid < (s.nodes p).cid
    → remove_at fuel cid p s ≡ remove_below s (search fuel backward cid p s)
unfolding remove_at
remove_at-below fuel s cid p lt =
    rw
      (
        ne→== cid (s.nodes p).cid (λ e. absurd (omega (arith, e))),
        le→ltb (s.nodes p).cid cid (omega arith),
      )
      refl

drop_head_behind_lem :
    (s : Table) (head last : ℕ)
    → s.con_head_node ≡ some head
    → s.con_last_node ≡ some last
    → drop_head_behind head s
      ≡ done (removed head (set_far backward last none (advance_head head s)))
unfolding drop_head_behind advance_head
drop_head_behind_lem s head last e k =
    ap
      (λ h. deref h (λ a.
        deref s.con_last_node
          (λ z. done (removed head (set_far backward z none (advance_head a s))))))
      e
    ∙ ap (λ z. deref z (λ z'. done (removed head (set_far backward z' none (advance_head head s)))))
        k

remove_below-head :
    (s : Table) (head last : ℕ)
    → s.con_head_node ≡ some head
    → s.con_last_node ≡ some last
    → remove_below s (done (some head))
      ≡ done (removed head (set_far backward last none (advance_head head s)))
unfolding remove_below same_pointer
remove_below-head s head last e k =
    ap (λ h. if same_pointer (some head) h then drop_head_behind head s else relink head s) e
    ∙ rw ((==_iff head head).1 refl) (drop_head_behind_lem s head last e k)

-- On a sorted list whose current node is not the first, remove_con_node of the first node's CID moves
-- the head on, sets the last node's previous pointer to NULL and changes no other node: the new first
-- node still points back to the removed one, unless it is the last.
pub remove_con_node-LosesBack :
    (fuel : ℕ) (s : Table) (p l : ℕ) (ls rs : List ℕ)
    → s.con_current_node ≡ some p
    → Focus forward s p (l ∷ ls) rs
    → length ls + 1 < fuel
    → LosesBack
        (last_of l ls)
        (last_of p rs)
        s
        (remove_con_node fuel (s.nodes (last_of l ls)).cid s)
unfolding remove_con_node removed advance_head set_far
remove_con_node-LosesBack fuel s p l ls rs at f enough =
    let head = last_of l ls in
    let last = last_of p rs in
    let order = Out-last backward s p l ls f.behind in
    record {
      table = set_far backward last none (advance_head head s);
      ends =
          ap (λ c. deref c (λ tmp. remove_at fuel (s.nodes head).cid tmp s)) at
          ∙ remove_at-below fuel s (s.nodes head).cid p
              (ltb→lt (s.nodes head).cid (s.nodes p).cid order)
          ∙ ap (remove_below s) (search-last fuel backward s p l ls f.behind enough)
          ∙ remove_below-head s head last f.start f.stop;
      new_head = refl;
      cut = ground arith;
      others = λ a ne. ground arith;
    }
