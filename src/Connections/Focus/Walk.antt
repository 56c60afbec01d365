-- ===== src/Connections/Focus/Walk.antt =====
-- The loops of linklist/testlink.c walk from node to node of a sorted list.
use c_modules.Base.{
  ℕ, zero, suc, ◌<◌, ◌≡◌, inl, inr, refl, true, false, List, [], ◌∷◌, arith, length, Bool-cases,
}
use c_modules.LinkList.Heap.{Outcome, done}
use c_modules.Connections.Nodes.{Table, Direction, beyond, seek}
use c_modules.Connections.Focus.{Out, Focus, Focus-step}

-- `ls` behind a node and the node with those ahead, in order.
abbrev pub zip : List ℕ → List ℕ → List ℕ
zip [] xs = xs
zip (l ∷ ls) xs = zip ls (l ∷ xs)

-- Where the loop of an insertion stops: at the last node, with the CID beyond it, or at the first
-- node that the CID is not beyond, with a node behind it that the CID is beyond.
pub data Stops (dir : Direction) (s : Table) (cid tmp : ℕ) : List ℕ → List ℕ → Type 0 where
  at_end : (ls : List ℕ) → beyond dir cid (s.nodes tmp).cid ≡ true → Stops dir s cid tmp ls []
  between :
      (q : ℕ) (ls rs : List ℕ)
      → beyond dir cid (s.nodes tmp).cid ≡ false
      → beyond dir cid (s.nodes q).cid ≡ true
      → Stops dir s cid tmp (q ∷ ls) rs

pub record Sought (dir : Direction) (s : Table) (cid : ℕ) (o : Outcome ℕ) (all : List ℕ)
    : Type 0 where
  pub tmp : ℕ
  pub ls : List ℕ
  pub rs : List ℕ
  pub ends : o ≡ done tmp
  pub focus : Focus dir s tmp ls rs
  pub stops : Stops dir s cid tmp ls rs
  pub whole : zip ls (tmp ∷ rs) ≡ all

pub seek-Sought :
    (fuel : ℕ) (dir : Direction) (s : Table) (cid p : ℕ) (ls rs : List ℕ)
    → Focus dir s p ls rs
    → beyond dir cid (s.nodes p).cid ≡ true
    → length rs < fuel
    → Sought dir s cid (seek fuel dir cid p s) (zip ls (p ∷ rs))
unfolding seek Out
seek-Sought zero dir s cid p ls rs f above enough = absurd (omega arith)
seek-Sought (suc fuel) dir s cid p ls [] f above enough =
    rw (f.ahead, seek)
      (record {
        tmp = p;
        ls = ls;
        rs = [];
        ends = refl;
        focus = f;
        stops = at_end ls above;
        whole = refl;
      })
seek-Sought (suc fuel) dir s cid p ls (y ∷ rs) f above enough =
    elim (Bool-cases (beyond dir cid (s.nodes y).cid)) [
      | inl further ↦
          let rest =
            seek-Sought fuel dir s cid y (p ∷ ls) rs (Focus-step dir s p y ls rs f) further
              (omega arith) in
          rw (f.ahead.0, seek) (rw further rest)
      | inr stop ↦
          rw (f.ahead.0, seek, stop)
            (record {
              tmp = y;
              ls = p ∷ ls;
              rs = rs;
              ends = refl;
              focus = Focus-step dir s p y ls rs f;
              stops = between p ls rs stop above;
              whole = refl;
            })
    ]
