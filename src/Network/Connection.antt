-- ===== src/Network/Connection.antt =====
-- processTCPRequest of network-module/kvmnetwork.c: the requests of one connection.
pub mod Second
use c_modules.Base.{
  Received, recv_error, bytes, Received, ℕ, Bool, true, false, Option, none, some, List, [], ◌∷◌,
  if◌then◌else◌, replicate,
}
use c_modules.Tokens.{strtok}
use c_modules.Network.Uart.{TermiosFlags, Port, Uart, Exchanged}
use c_modules.Network.Request.{
  receive, add_arguments, comma, buf_size, Handled, replied, undefined_behind, handle_text,
}

-- What a turn of the loop meets: what recv gives, the port then, and whether send takes the reply.
pub record Turn : Type 0 where
  pub received : Received
  pub port : Port
  pub sent : Bool

-- How the loop ends: the other side closed and 0 is returned, -1 is returned and nothing is closed, an access is left undefined behind the commands that system has run, or recv waits.
pub data Ending : Type 0 where
  other_closed failed waiting : Ending
  broken : List (List ℕ) → Ending

-- The texts that send took.
pub record Session : Type 0 where
  pub replies : List (List ℕ)
  pub ending : Ending

unfoldable pub ended : Ending → Session
ended ending = record { replies = []; ending = ending }

unfoldable pub add_reply : List ℕ → Session → Session
add_reply text s = record s { replies = text ∷ s.replies }

-- strArgv from the turn before, with the words of this text.
unfoldable pub more_arguments : (buf text : List ℕ) → (argv : List (Option ℕ)) → List (Option ℕ)
unfolding strtok receive add_arguments comma
more_arguments buf text argv = add_arguments (strtok comma false (receive text buf)).starts argv

-- The end of a turn: what send gives decides whether the loop goes on.
unfoldable pub after_request : Handled → (sent : Bool) → (Uart → (buf : List ℕ) → Session) → Session
unfolding ended add_reply
after_request (undefined_behind commands) sent next = ended (broken commands)
after_request (replied e buf text) sent next =
    if sent then add_reply text (next e.uart buf) else ended failed

-- The loop: neither strArgc nor strArgv is set back between the turns.
unfoldable pub request_loop :
    TermiosFlags → Uart → (buf : List ℕ) (argv : List (Option ℕ)) → List Turn → Session
unfolding ended after_request handle_text more_arguments
request_loop flags u buf argv [] = ended waiting
request_loop flags u buf argv (turn ∷ turns) = elim turn.received [
  | recv_error ↦ ended failed
  | bytes [] ↦ ended other_closed
  | bytes (c ∷ text) ↦
      after_request (handle_text flags turn.port u buf argv (c ∷ text)) turn.sent
        (λ u' buf'. request_loop flags u' buf' (more_arguments buf (c ∷ text) argv) turns)
]

-- By whether accept gives a connection.
unfoldable pub process_tcp_request : TermiosFlags → Uart → (accepted : Bool) → List Turn → Session
unfolding ended request_loop
process_tcp_request flags u false turns = ended failed
process_tcp_request flags u true turns = request_loop flags u (replicate buf_size 0) [] turns
