-- ===== src/Connections/Focus/Insert.antt =====
-- insert_con_node of linklist/testlink.c keeps the sorted list.
use mathlib.Core.Path.{ap₂, subst}
use c_modules.Base.{
  ℕ, ◌+◌, ◌<◌, ◌≡◌, ◌≢◌, inl, inr, refl, ◌∙◌, ap, sym, Bool, true, false, ◌&&◌, some, List, [], ◌∷◌,
  ◌++◌, if◌then◌else◌, arith, length, Bool-cases, All, ==_iff,
}
use c_modules.LinkList.Heap.{Outcome, done}
use c_modules.LinkList.Nodes.{same_pointer}
use c_modules.Connections.Nodes.{
  Table, Direction, forward, backward, opposite, far, beyond, end_of, deref, link, link_end,
  link_between, after_seek, insert_towards, insert_at, insert_into, insert_con_node,
}
use c_modules.Connections.Order.{
  beyond-ne, beyond-total, beyond-opposite, Beyond-trans, LinkedEnd, link_end-LinkedEnd,
  LinkedBetween, link_between-LinkedBetween,
}
use c_modules.Connections.Focus.{Out, Focus, Focus-turn, Out-frame}
use c_modules.Connections.Focus.Walk.{zip, Stops, at_end, between, seek-Sought}

-- The table after an insertion: the node is current, in its place in the list of the others.
pub record Inserted (dir : Direction) (node : ℕ) (s : Table) (others : List ℕ) (o : Outcome Table)
    : Type 0 where
  pub table : Table
  pub ls : List ℕ
  pub rs : List ℕ
  pub ends : o ≡ done table
  pub focus : Focus dir table node ls rs
  pub whole : zip ls rs ≡ others
  pub current : table.con_current_node ≡ some node
  pub cids : (a : ℕ) → (table.nodes a).cid ≡ (s.nodes a).cid

and_false : (b : Bool) → (b && false) ≡ false
and_false true = refl
and_false false = refl

ne_of_cid : (s : Table) (a b : ℕ) → (s.nodes a).cid ≢ (s.nodes b).cid → a ≢ b
ne_of_cid s a b ne e = ne (ap (λ x. (s.nodes x).cid) e)

pub opposite_twice : (dir : Direction) → opposite (opposite dir) ≡ dir
opposite_twice forward = refl
opposite_twice backward = refl

-- A node beyond one that is beyond or at `b` in CID is not `c` there.
pub ne_of_beyond :
    (dir : Direction) (s : Table) (a b c : ℕ)
    → beyond dir (s.nodes a).cid (s.nodes b).cid ≡ true
    → beyond dir (s.nodes b).cid (s.nodes c).cid ≡ true
    → a ≢ c
ne_of_beyond dir s a b c h k = ne_of_cid s a c (
    beyond-ne dir (s.nodes a).cid (s.nodes c).cid
      (Beyond-trans dir (s.nodes a).cid (s.nodes b).cid (s.nodes c).cid h k))

pub ne_of_next :
    (dir : Direction) (s : Table) (a b : ℕ)
    → beyond dir (s.nodes a).cid (s.nodes b).cid ≡ true
    → a ≢ b
ne_of_next dir s a b h = ne_of_cid s a b (beyond-ne dir (s.nodes a).cid (s.nodes b).cid h)

pub turned :
    (dir : Direction) (s : Table) (a b : ℕ)
    → beyond dir (s.nodes a).cid (s.nodes b).cid ≡ true
    → beyond (opposite dir) (s.nodes b).cid (s.nodes a).cid ≡ true
turned dir s a b h = beyond-opposite dir (s.nodes b).cid (s.nodes a).cid ∙ h

pub All-zip : (P : ℕ → Type 0) (ls xs : List ℕ) → All P (zip ls xs) → All P xs
All-zip P [] xs h = h
All-zip P (l ∷ ls) xs h = (All-zip P ls (l ∷ xs) h).1

module _ (dir : Direction) (node : ℕ) (s : Table) where
  Focus-end :
      (tmp : ℕ) (ls : List ℕ) (t : Table)
      → LinkedEnd dir node tmp s t
      → Focus dir s tmp ls []
      → beyond dir (s.nodes node).cid (s.nodes tmp).cid ≡ true
      → Focus dir t node (tmp ∷ ls) []
  unfolding Out
  Focus-end tmp ls t l f above =
      let below = turned dir s node tmp above in
      record {
        behind = (
          l.node_near,
          ap (λ e. far e (t.nodes tmp)) (opposite_twice dir) ∙ l.tmp_far,
          ap₂ (beyond (opposite dir)) (l.cids tmp) (l.cids node) ∙ below,
          Out-frame (opposite dir) s.nodes t.nodes tmp ls l.tmp_near (l.cids tmp)
              (λ a b.
                l.others a (ne_of_beyond (opposite dir) s a tmp node b below)
                  (ne_of_next (opposite dir) s a tmp b))
              f.behind,
        );
        ahead = l.node_far;
        start = l.start ∙ f.start;
        stop = l.stop;
      }

  Focus-between :
      (q tmp : ℕ) (ls rs : List ℕ) (t : Table)
      → LinkedBetween dir node q tmp s t
      → Focus dir s tmp (q ∷ ls) rs
      → beyond dir (s.nodes node).cid (s.nodes q).cid ≡ true
      → beyond dir (s.nodes tmp).cid (s.nodes node).cid ≡ true
      → Focus dir t node (q ∷ ls) (tmp ∷ rs)
  unfolding Out
  Focus-between q tmp ls rs t l f above below =
      let q_node = turned dir s node q above in
      let q_tmp : beyond dir (s.nodes tmp).cid (s.nodes q).cid ≡ true =
        Beyond-trans dir (s.nodes tmp).cid (s.nodes node).cid (s.nodes q).cid below above in
      record {
        behind = (
          l.node_near,
          ap (λ e. far e (t.nodes q)) (opposite_twice dir) ∙ l.tmp1_far,
          ap₂ (beyond (opposite dir)) (l.cids q) (l.cids node) ∙ q_node,
          Out-frame (opposite dir) s.nodes t.nodes q ls l.tmp1_near (l.cids q)
              (λ a b.
                l.others a (ne_of_beyond (opposite dir) s a q node b q_node)
                  (ne_of_next (opposite dir) s a q b)
                  (ne_of_beyond (opposite dir) s a q tmp b (turned dir s tmp q q_tmp)))
              f.behind.3,
        );
        ahead = (
          l.node_far,
          l.tmp_near,
          ap₂ (beyond dir) (l.cids tmp) (l.cids node) ∙ below,
          Out-frame dir s.nodes t.nodes tmp rs l.tmp_far (l.cids tmp)
              (λ a b.
                l.others a (ne_of_beyond dir s a tmp node b below)
                  (ne_of_beyond dir s a tmp q b q_tmp) (ne_of_next dir s a tmp b))
              f.ahead,
        );
        start = l.start ∙ f.start;
        stop = l.stop ∙ f.stop;
      }

  link-Inserted :
      (tmp : ℕ) (ls rs : List ℕ)
      → Focus dir s tmp ls rs
      → Stops dir s (s.nodes node).cid tmp ls rs
      → (s.nodes node).cid ≢ (s.nodes tmp).cid
      → Inserted dir node s (zip ls (tmp ∷ rs)) (link dir node tmp s)
  unfolding Out link same_pointer
  link-Inserted tmp ls rs f (at_end _ above) apart =
      let otherwise =
        deref (far (opposite dir) (s.nodes tmp))
          (λ tmp1. done (link_between dir node tmp1 tmp s)) in
      let l = link_end-LinkedEnd dir node tmp s (ne_of_next dir s node tmp above) in
      record {
        table = link_end dir node tmp s;
        ls = tmp ∷ ls;
        rs = [];
        ends =
            ap₂
              (λ e b.
                if same_pointer (some tmp) e && b
                then done (link_end dir node tmp s)
                else otherwise)
              f.stop above
            ∙ rw ((==_iff tmp tmp).1 refl) refl;
        focus = Focus-end tmp ls (link_end dir node tmp s) l f above;
        whole = refl;
        current = l.current;
        cids = l.cids;
      }
  link-Inserted tmp (q ∷ ls) rs f (between _ _ _ stop above) apart =
      let otherwise =
        deref (far (opposite dir) (s.nodes tmp))
          (λ tmp1. done (link_between dir node tmp1 tmp s)) in
      let below = beyond-total dir (s.nodes node).cid (s.nodes tmp).cid stop apart in
      let l =
        link_between-LinkedBetween dir node q tmp s (ne_of_next dir s node q above)
          (λ e. ne_of_next dir s tmp node below (sym e))
          (λ e. ne_of_beyond dir s tmp node q below above (sym e)) in
      record {
        table = link_between dir node q tmp s;
        ls = q ∷ ls;
        rs = tmp ∷ rs;
        ends =
            ap
              (λ b.
                if same_pointer (some tmp) (end_of dir s) && b
                then done (link_end dir node tmp s)
                else otherwise)
              stop
            ∙ ap (λ b. if b then done (link_end dir node tmp s) else otherwise)
                (and_false (same_pointer (some tmp) (end_of dir s)))
            ∙ ap (λ o. deref o (λ tmp1. done (link_between dir node tmp1 tmp s))) f.behind.0;
        focus = Focus-between q tmp ls rs (link_between dir node q tmp s) l f above below;
        whole = refl;
        current = l.current;
        cids = l.cids;
      }

  -- The branch of insert_con_node for one direction.
  insert_towards-Inserted :
      (fuel p : ℕ) (ls rs : List ℕ)
      → Focus dir s p ls rs
      → beyond dir (s.nodes node).cid (s.nodes p).cid ≡ true
      → length rs < fuel
      → All (λ a. (s.nodes node).cid ≢ (s.nodes a).cid) (zip ls (p ∷ rs))
      → Inserted dir node s (zip ls (p ∷ rs)) (insert_towards fuel dir node p s)
  unfolding insert_towards after_seek
  insert_towards-Inserted fuel p ls rs f above enough new =
      let w = seek-Sought fuel dir s (s.nodes node).cid p ls rs f above enough in
      let apart =
        (All-zip (λ a. (s.nodes node).cid ≢ (s.nodes a).cid) w.ls (w.tmp ∷ w.rs)
          (subst (All (λ a. (s.nodes node).cid ≢ (s.nodes a).cid)) (sym w.whole) new)).0 in
      subst (λ o. Inserted dir node s (zip ls (p ∷ rs)) (after_seek dir node s o)) (sym w.ends)
        (subst (λ all. Inserted dir node s all (link dir node w.tmp s)) w.whole
          (link-Inserted w.tmp w.ls w.rs w.focus w.stops apart))

-- The list read from the other end.
zip-zip : (a b c : List ℕ) → zip (zip a b) c ≡ zip b (a ++ c)
zip-zip [] b c = refl
zip-zip (x ∷ a) b c = zip-zip a (x ∷ b) c

append_nil : (a : List ℕ) → (a ++ []) ≡ a
append_nil [] = refl
append_nil (x ∷ a) = ap (λ r. x ∷ r) (append_nil a)

pub zip_turn : (ls rs xs ys : List ℕ) → zip ls rs ≡ zip ys xs → zip rs ls ≡ zip xs ys
zip_turn ls rs xs ys e =
    ap (zip rs) (sym (append_nil ls))
    ∙ sym (zip-zip ls rs [])
    ∙ ap (λ a. zip a []) e
    ∙ zip-zip ys xs []
    ∙ ap (zip xs) (append_nil ys)

Inserted-turn :
    (node : ℕ) (s : Table) (p : ℕ) (ls rs : List ℕ) (o : Outcome Table)
    → Inserted backward node s (zip rs (p ∷ ls)) o
    → Inserted forward node s (zip ls (p ∷ rs)) o
Inserted-turn node s p ls rs o i = record {
  table = i.table;
  ls = i.rs;
  rs = i.ls;
  ends = i.ends;
  focus = Focus-turn backward i.table node i.ls i.rs i.focus;
  whole = zip_turn i.ls i.rs (p ∷ ls) rs i.whole;
  current = i.current;
  cids = i.cids;
}

All-unzip : (P : ℕ → Type 0) (ls xs : List ℕ) → All P (zip ls xs) → All P ls
All-unzip P [] xs h = tt
All-unzip P (l ∷ ls) xs h = ((All-zip P ls (l ∷ xs) h).0, All-unzip P ls (l ∷ xs) h)

pub zip-All : (P : ℕ → Type 0) (ls xs : List ℕ) → All P ls → All P xs → All P (zip ls xs)
zip-All P [] xs h k = k
zip-All P (l ∷ ls) xs h k = zip-All P ls (l ∷ xs) h.1 (h.0, k)

insert_at-Inserted :
    (fuel node p : ℕ) (s : Table) (ls rs : List ℕ)
    → Focus forward s p ls rs
    → All (λ a. (s.nodes node).cid ≢ (s.nodes a).cid) (zip ls (p ∷ rs))
    → length ls + length rs < fuel
    → Inserted forward node s (zip ls (p ∷ rs)) (insert_at fuel node p s)
unfolding insert_at
insert_at-Inserted fuel node p s ls rs f new enough =
    let P : ℕ → Type 0 = λ a. (s.nodes node).cid ≢ (s.nodes a).cid in
    let here = All-zip P ls (p ∷ rs) new in
    elim (Bool-cases (beyond forward (s.nodes node).cid (s.nodes p).cid)) [
      | inl up ↦ rw up (insert_towards-Inserted forward node s fuel p ls rs f up (omega arith) new)
      | inr low ↦
          let down = beyond-total forward (s.nodes node).cid (s.nodes p).cid low here.0 in
          rw (low, down)
            (Inserted-turn node s p ls rs (insert_towards fuel backward node p s) (
              insert_towards-Inserted backward node s fuel p rs ls (Focus-turn forward s p ls rs f)
                down (omega arith)
                (zip-All P rs (p ∷ ls) here.1 (here.0, All-unzip P ls (p ∷ rs) new))))
    ]

-- On a sorted list with a current node, insert_con_node of a node whose CID no node has ends; the
-- node is current, and stands in its sorted place among the others, linked both ways.
pub insert_con_node-Inserted :
    (fuel node p : ℕ) (s : Table) (ls rs : List ℕ)
    → s.con_current_node ≡ some p
    → Focus forward s p ls rs
    → All (λ a. (s.nodes node).cid ≢ (s.nodes a).cid) (zip ls (p ∷ rs))
    → length ls + length rs < fuel
    → Inserted forward node s (zip ls (p ∷ rs)) (insert_con_node fuel node s)
unfolding insert_con_node insert_into
insert_con_node-Inserted fuel node p s ls rs at f new enough =
    subst (Inserted forward node s (zip ls (p ∷ rs)))
      (sym (ap₂ (insert_into fuel node s) f.start at))
      (insert_at-Inserted fuel node p s ls rs f new enough)
