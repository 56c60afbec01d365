-- ===== src/Connections/Order.antt =====
-- The order of linklist/testlink.c in a direction, and what a store to a node leaves alone.
use c_modules.Base.{ℕ, ◌≡◌, ◌≢◌, refl, true, false, none, some, arith}
use c_modules.Connections.Nodes.{
  Table, Direction, forward, backward, opposite, far, beyond, end_of, set_far, link_between,
  link_end,
}

-- `a` comes after `b` in the direction.
pub Beyond-trans :
    (dir : Direction) (a b c : ℕ)
    → beyond dir a b ≡ true
    → beyond dir b c ≡ true
    → beyond dir a c ≡ true
Beyond-trans forward a b c h k = ground arith
Beyond-trans backward a b c h k = ground arith

pub beyond-ne : (dir : Direction) (a b : ℕ) → beyond dir a b ≡ true → a ≢ b
beyond-ne forward a b h = ground arith
beyond-ne backward a b h = ground arith

pub beyond-opposite : (dir : Direction) (a b : ℕ) → beyond (opposite dir) a b ≡ beyond dir b a
beyond-opposite forward a b = refl
beyond-opposite backward a b = refl

-- What is neither beyond nor equal is before.
pub beyond-total :
    (dir : Direction) (a b : ℕ) → beyond dir a b ≡ false → a ≢ b → beyond dir b a ≡ true
beyond-total forward a b h ne = ground arith
beyond-total backward a b h ne = ground arith

-- Ten facts on the two links that the code makes, for distinct nodes.
pub record LinkedBetween (dir : Direction) (node tmp1 tmp : ℕ) (s t : Table) : Type 0 where
  pub cids : (a : ℕ) → (t.nodes a).cid ≡ (s.nodes a).cid
  pub others : (a : ℕ) → a ≢ node → a ≢ tmp1 → a ≢ tmp → t.nodes a ≡ s.nodes a
  pub node_far : far dir (t.nodes node) ≡ some tmp
  pub node_near : far (opposite dir) (t.nodes node) ≡ some tmp1
  pub tmp_far : far dir (t.nodes tmp) ≡ far dir (s.nodes tmp)
  pub tmp_near : far (opposite dir) (t.nodes tmp) ≡ some node
  pub tmp1_far : far dir (t.nodes tmp1) ≡ some node
  pub tmp1_near : far (opposite dir) (t.nodes tmp1) ≡ far (opposite dir) (s.nodes tmp1)
  pub stop : end_of dir t ≡ end_of dir s
  pub start : end_of (opposite dir) t ≡ end_of (opposite dir) s
  pub current : t.con_current_node ≡ some node

pub link_between-LinkedBetween :
    (dir : Direction) (node tmp1 tmp : ℕ) (s : Table)
    → node ≢ tmp1
    → node ≢ tmp
    → tmp1 ≢ tmp
    → LinkedBetween dir node tmp1 tmp s (link_between dir node tmp1 tmp s)
unfolding link_between set_far
link_between-LinkedBetween forward node tmp1 tmp s a b c = record {
  cids = λ x. ground arith;
  others = λ x p q r. ground arith;
  node_far = ground arith;
  node_near = ground arith;
  tmp_far = ground arith;
  tmp_near = ground arith;
  tmp1_far = ground arith;
  tmp1_near = ground arith;
  stop = refl;
  start = refl;
  current = refl;
}
link_between-LinkedBetween backward node tmp1 tmp s a b c = record {
  cids = λ x. ground arith;
  others = λ x p q r. ground arith;
  node_far = ground arith;
  node_near = ground arith;
  tmp_far = ground arith;
  tmp_near = ground arith;
  tmp1_far = ground arith;
  tmp1_near = ground arith;
  stop = refl;
  start = refl;
  current = refl;
}

pub record LinkedEnd (dir : Direction) (node tmp : ℕ) (s t : Table) : Type 0 where
  pub cids : (a : ℕ) → (t.nodes a).cid ≡ (s.nodes a).cid
  pub others : (a : ℕ) → a ≢ node → a ≢ tmp → t.nodes a ≡ s.nodes a
  pub node_far : far dir (t.nodes node) ≡ none
  pub node_near : far (opposite dir) (t.nodes node) ≡ some tmp
  pub tmp_far : far dir (t.nodes tmp) ≡ some node
  pub tmp_near : far (opposite dir) (t.nodes tmp) ≡ far (opposite dir) (s.nodes tmp)
  pub stop : end_of dir t ≡ some node
  pub start : end_of (opposite dir) t ≡ end_of (opposite dir) s
  pub current : t.con_current_node ≡ some node

pub link_end-LinkedEnd :
    (dir : Direction) (node tmp : ℕ) (s : Table)
    → node ≢ tmp
    → LinkedEnd dir node tmp s (link_end dir node tmp s)
unfolding link_end set_far
link_end-LinkedEnd forward node tmp s a = record {
  cids = λ x. ground arith;
  others = λ x p q. ground arith;
  node_far = ground arith;
  node_near = ground arith;
  tmp_far = ground arith;
  tmp_near = ground arith;
  stop = refl;
  start = refl;
  current = refl;
}
link_end-LinkedEnd backward node tmp s a = record {
  cids = λ x. ground arith;
  others = λ x p q. ground arith;
  node_far = ground arith;
  node_near = ground arith;
  tmp_far = ground arith;
  tmp_near = ground arith;
  stop = refl;
  start = refl;
  current = refl;
}
