-- ===== src/Connections/Focus/Find.antt =====
-- find_con_node of linklist/testlink.c on a sorted list.
use mathlib.Core.Path.{subst}
use c_modules.Base.{
  ℕ, zero, suc, ◌+◌, ◌<◌, ◌≡◌, ◌≢◌, ◌⊎◌, inl, inr, refl, ◌∙◌, ap, sym, true, Option, none, some,
  List, [], ◌∷◌, ◌==◌, arith, length, Bool-cases, All, ==_iff,
}
use c_modules.LinkList.Heap.{Outcome, done}
use c_modules.Connections.Nodes.{
  Table, Direction, forward, backward, opposite, beyond, deref, search, search_from, Found,
  found_at, find_con_node, set_current,
}
use c_modules.Connections.Order.{beyond-ne, beyond-opposite, Beyond-trans}
use c_modules.Connections.Focus.{Out, Focus, Focus-turn, Focus-step}
use c_modules.Connections.Focus.Walk.{zip}
use c_modules.Connections.Focus.Insert.{zip-All, zip_turn}

-- A search found a node of the list with the CID.
pub record Located (dir : Direction) (s : Table) (cid : ℕ) (o : Outcome (Option ℕ)) (all : List ℕ)
    : Type 0 where
  pub tmp : ℕ
  pub ls : List ℕ
  pub rs : List ℕ
  pub ends : o ≡ done (some tmp)
  pub focus : Focus dir s tmp ls rs
  pub same : cid ≡ (s.nodes tmp).cid
  pub whole : zip ls (tmp ∷ rs) ≡ all

abbrev pub Lacks : Table → ℕ → List ℕ → Type 0
Lacks s cid = All (λ a. cid ≢ (s.nodes a).cid)

pub search-Located :
    (fuel : ℕ) (dir : Direction) (s : Table) (cid p : ℕ) (ls rs : List ℕ)
    → Focus dir s p ls rs
    → length rs < fuel
    → Located dir s cid (search fuel dir cid p s) (zip ls (p ∷ rs))
      ⊎ ((search fuel dir cid p s ≡ done none) × Lacks s cid rs)
unfolding search Out
search-Located zero dir s cid p ls rs f enough = absurd (omega arith)
search-Located (suc fuel) dir s cid p ls [] f enough = inr (rw (f.ahead, search) refl, tt)
search-Located (suc fuel) dir s cid p ls (y ∷ rs) f enough =
    elim (Bool-cases (cid == (s.nodes y).cid)) [
      | inl here ↦ inl (
          rw (f.ahead.0, search, here)
            (record {
              tmp = y;
              ls = p ∷ ls;
              rs = rs;
              ends = refl;
              focus = Focus-step dir s p y ls rs f;
              same = (==_iff cid (s.nodes y).cid).0 here;
              whole = refl;
            }))
      | inr other ↦
          let rest =
            search-Located fuel dir s cid y (p ∷ ls) rs (Focus-step dir s p y ls rs f)
              (omega arith) in
          let ne : cid ≢ (s.nodes y).cid = λ e. cc ((==_iff cid (s.nodes y).cid).1 e) in
          rw (f.ahead.0, search, other)
            (elim rest [ inl l ↦ inl l | inr (e, lacks) ↦ inr (e, (ne, lacks)) ])
    ]

-- All nodes of a side are beyond its start.
Out-All :
    (dir : Direction) (s : Table) (cid p : ℕ) (ys : List ℕ)
    → Out (opposite dir) s.nodes p ys
    → beyond dir cid (s.nodes p).cid ≡ true
    → Lacks s cid ys
unfolding Out
Out-All dir s cid p [] o above = tt
Out-All dir s cid p (y ∷ ys) (at, back, order, o) above =
    let further =
      Beyond-trans dir cid (s.nodes p).cid (s.nodes y).cid above
        (sym (beyond-opposite dir (s.nodes y).cid (s.nodes p).cid) ∙ order) in
    (beyond-ne dir cid (s.nodes y).cid further, Out-All dir s cid y ys o further)

Located-turn :
    (s : Table) (cid p : ℕ) (ls rs : List ℕ) (o : Outcome (Option ℕ))
    → Located backward s cid o (zip rs (p ∷ ls))
    → Located forward s cid o (zip ls (p ∷ rs))
Located-turn s cid p ls rs o l = record {
  tmp = l.tmp;
  ls = l.rs;
  rs = l.ls;
  ends = l.ends;
  focus = Focus-turn backward s l.tmp l.ls l.rs l.focus;
  same = l.same;
  whole = zip_turn (l.tmp ∷ l.ls) l.rs (p ∷ ls) rs l.whole;
}

search_from-Located :
    (fuel : ℕ) (s : Table) (cid p : ℕ) (ls rs : List ℕ)
    → Focus forward s p ls rs
    → length ls + length rs < fuel
    → Located forward s cid (search_from fuel cid p s) (zip ls (p ∷ rs))
      ⊎ ((search_from fuel cid p s ≡ done none) × Lacks s cid (zip ls (p ∷ rs)))
unfolding search_from
search_from-Located fuel s cid p ls rs f enough =
    let P : ℕ → Type 0 = λ a. cid ≢ (s.nodes a).cid in
    elim (Bool-cases (beyond forward cid (s.nodes p).cid)) [
      | inl up ↦ rw up (elim (search-Located fuel forward s cid p ls rs f (omega arith)) [
        | inl l ↦ inl l
        | inr (e, lacks) ↦ inr (
          e,
          zip-All P ls (p ∷ rs) (Out-All forward s cid p ls f.behind up)
              (beyond-ne forward cid (s.nodes p).cid up, lacks),
        )
      ])
      | inr low ↦ elim (Bool-cases (beyond backward cid (s.nodes p).cid)) [
        | inl down ↦
            rw (low, down)
              (elim (search-Located fuel backward s cid p rs ls (Focus-turn forward s p ls rs f)
                (omega arith)) [
                  | inl l ↦ inl (Located-turn s cid p ls rs (search fuel backward cid p s) l)
                  | inr (e, lacks) ↦ inr (
                    e,
                    zip-All P ls (p ∷ rs) lacks (
                      beyond-ne backward cid (s.nodes p).cid down,
                      Out-All backward s cid p rs f.ahead down,
                    ),
                  )
                ])
        | inr high ↦
            rw (low, high)
              (inl (record {
                tmp = p;
                ls = ls;
                rs = rs;
                ends = refl;
                focus = f;
                same = ground arith;
                whole = refl;
              }))
      ]
    ]

-- What find_con_node comes to on a list.
pub data Finds (s : Table) (cid : ℕ) (all : List ℕ) (o : Outcome Found) : Type 0 where
  found :
      (tmp : ℕ) (ls rs : List ℕ)
      → o ≡ done (record { result = some tmp; table = set_current (some tmp) s })
      → Focus forward (set_current (some tmp) s) tmp ls rs
      → cid ≡ (s.nodes tmp).cid
      → zip ls (tmp ∷ rs) ≡ all
      → Finds s cid all o
  missing : o ≡ done (record { result = none; table = s }) → Lacks s cid all → Finds s cid all o

found-Finds :
    (s : Table) (cid : ℕ) (all : List ℕ) (o : Outcome (Option ℕ))
    → Located forward s cid o all ⊎ ((o ≡ done none) × Lacks s cid all)
    → Finds s cid all (found_at s o)
unfolding found_at
found-Finds s cid all o (inl l) =
    found l.tmp l.ls l.rs (ap (found_at s) l.ends)
      (record {
        behind = l.focus.behind;
        ahead = l.focus.ahead;
        start = l.focus.start;
        stop = l.focus.stop;
      })
      l.same l.whole
found-Finds s cid all o (inr (e, lacks)) = missing (ap (found_at s) e) lacks

-- On a sorted list with a current node, find_con_node ends: it returns the node with the CID, makes
-- it current and keeps the list, or, if no node has the CID, returns NULL and changes nothing.
pub find_con_node-Finds :
    (fuel : ℕ) (s : Table) (cid p : ℕ) (ls rs : List ℕ)
    → s.con_current_node ≡ some p
    → Focus forward s p ls rs
    → length ls + length rs < fuel
    → Finds s cid (zip ls (p ∷ rs)) (find_con_node fuel cid s)
unfolding find_con_node
find_con_node-Finds fuel s cid p ls rs at f enough =
    subst
      (λ c.
        Finds s cid (zip ls (p ∷ rs)) (deref c (λ tmp. found_at s (search_from fuel cid tmp s))))
      (sym at)
      (found-Finds s cid (zip ls (p ∷ rs)) (search_from fuel cid p s)
        (search_from-Located fuel s cid p ls rs f enough))
