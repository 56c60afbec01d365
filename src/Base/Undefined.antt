-- ===== src/Base/Undefined.antt =====
-- A result, or an access that C leaves undefined.
pub data Behaviour (A : Type 0) : Type 0 where
  defined : A → Behaviour A
  undefined : Behaviour A
