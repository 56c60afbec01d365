-- ===== src/Base/Receiving.antt =====
-- What the programs receive from sockets.
use Prim.Native.Nat.{ℕ}
use mathlib.Core.List.{List}

-- What recv gives: -1, or a count of bytes, which is 0 at the end.
pub data Received : Type 0 where
  recv_error : Received
  bytes : List ℕ → Received
