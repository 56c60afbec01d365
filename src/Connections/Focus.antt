-- ===== src/Connections/Focus.antt =====
-- A table of linklist/testlink.c seen from one node: the nodes on its two sides, nearest first.
pub mod Walk
pub mod Insert
pub mod Find
pub mod Remove
pub mod RemoveCurrent
use mathlib.Core.Path.{ap₂, subst, sym}
use c_modules.Base.{
  ℕ, ◌<◌, ◌≤◌, ◌≡◌, ◌≢◌, refl, ◌∙◌, ap, Bool, true, false, Option, none, some, List, [], ◌∷◌, ◌==◌,
  if◌then◌else◌, arith,
}
use c_modules.Connections.Nodes.{
  ConList, Table, Direction, forward, backward, opposite, far, beyond, end_of,
}
use c_modules.Connections.Order.{Beyond-trans}

-- From `p` outwards: the nodes `ys` in the direction, linked both ways, each beyond the one before.
unfoldable pub Out : Direction → (ℕ → ConList) → ℕ → List ℕ → Type 0
Out dir h p [] = far dir (h p) ≡ none
Out dir h p (y ∷ ys) =
    (far dir (h p) ≡ some y)
    × (far (opposite dir) (h y) ≡ some p)
    × (beyond dir (h y).cid (h p).cid ≡ true)
    × Out dir h y ys

abbrev pub last_of : ℕ → List ℕ → ℕ
last_of p [] = p
last_of p (y ∷ ys) = last_of y ys

-- The table is a sorted list: `p` with `ls` behind it and `rs` ahead, in the direction.
pub record Focus (dir : Direction) (s : Table) (p : ℕ) (ls rs : List ℕ) : Type 0 where
  pub behind : Out (opposite dir) s.nodes p ls
  pub ahead : Out dir s.nodes p rs
  pub start : end_of (opposite dir) s ≡ some (last_of p ls)
  pub stop : end_of dir s ≡ some (last_of p rs)

-- The other way round.
pub Focus-turn :
    (dir : Direction) (s : Table) (p : ℕ) (ls rs : List ℕ)
    → Focus dir s p ls rs
    → Focus (opposite dir) s p rs ls
Focus-turn forward s p ls rs f = record {
  behind = f.ahead;
  ahead = f.behind;
  start = f.stop;
  stop = f.start;
}
Focus-turn backward s p ls rs f = record {
  behind = f.ahead;
  ahead = f.behind;
  start = f.stop;
  stop = f.start;
}

-- One node further.
pub Focus-step :
    (dir : Direction) (s : Table) (p y : ℕ) (ls rs : List ℕ)
    → Focus dir s p ls (y ∷ rs)
    → Focus dir s y (p ∷ ls) rs
unfolding Out
Focus-step forward s p y ls rs f = record {
  behind = (f.ahead.1, f.ahead.0, f.ahead.2, f.behind);
  ahead = f.ahead.3;
  start = f.start;
  stop = f.stop;
}
Focus-step backward s p y ls rs f = record {
  behind = (f.ahead.1, f.ahead.0, f.ahead.2, f.behind);
  ahead = f.ahead.3;
  start = f.start;
  stop = f.stop;
}

-- What is outside `p` in the direction may change, as long as no node there does.
pub Out-frame :
    (dir : Direction) (h t : ℕ → ConList) (p : ℕ) (ys : List ℕ)
    → far dir (t p) ≡ far dir (h p)
    → (t p).cid ≡ (h p).cid
    → ((a : ℕ) → beyond dir (h a).cid (h p).cid ≡ true → t a ≡ h a)
    → Out dir h p ys
    → Out dir t p ys
unfolding Out
Out-frame dir h t p [] same cid rest o = same ∙ o
Out-frame dir h t p (y ∷ ys) same cid rest (at, back, order, o) =
    let kept = rest y order in
    (
      same ∙ at,
      ap (far (opposite dir)) kept ∙ back,
      ap₂ (beyond dir) (ap (λ n. n.cid) kept) cid ∙ order,
      Out-frame dir h t y ys (ap (far dir) kept) (ap (λ n. n.cid) kept)
          (λ a further. rest a (Beyond-trans dir (h a).cid (h y).cid (h p).cid further order)) o,
    )
