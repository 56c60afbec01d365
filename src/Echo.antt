-- ===== src/Echo.antt =====
-- tcp: a server that sends one message back (tcp/tcpser.c), and its client (tcp/tcpcli.c).
pub mod Message
mod Examples
use c_modules.Base.{
  ℕ, zero, suc, Bool, true, false, Option, none, some, List, [], ◌∷◌, ltb, leb, if◌then◌else◌,
  length, c_string, Received, recv_error, bytes,
}

-- BUFSIZE and BUFLEN
abbrev pub echo_size : ℕ
echo_size = 1024

-- The calls that matter behind the opening: a text that is sent, a descriptor that is closed.
pub data EchoCall : Type 0 where
  send_to : (fd : ℕ) (text : List ℕ) → EchoCall
  close_fd : (fd : ℕ) → EchoCall

-- How a program ends: with its calls and what it prints of a message, past the end of buf, or it waits
-- in recv.
pub data EchoEnd : Type 0 where
  ended_with : List EchoCall → (printed : Option (List ℕ)) → EchoEnd
  past_buf : EchoEnd
  recv_waits : List EchoCall → EchoEnd

-- The server's case behind select, by accept and by recv, which has -1 where accept has it; `none`
-- for a recv that does not return. Then the listening socket is closed.
unfoldable pub answer_message : (s : ℕ) → (rqst : Option ℕ) → Option Received → EchoEnd
answer_message s none received = ended_with (close_fd s ∷ []) none
answer_message s (some rqst) none = recv_waits []
answer_message s (some rqst) (some recv_error) = ended_with (close_fd s ∷ []) none
answer_message s (some rqst) (some (bytes [])) = ended_with (close_fd rqst ∷ close_fd s ∷ []) none
answer_message s (some rqst) (some (bytes (c ∷ text))) =
    if ltb (length (c ∷ text)) echo_size
    then ended_with (send_to rqst (c ∷ text) ∷ close_fd rqst ∷ close_fd s ∷ [])
        (some (c_string (c ∷ text)))
    else past_buf

-- What select gives.
pub data Selected : Type 0 where
  select_timeout select_error socket_ready : Selected

-- `main` of the server; socket, bind and listen give `socket`, `bound` and `listens`.
unfoldable pub tcp_server :
    (socket : Option ℕ)
    → (bound listens : Bool) → Selected
    → (rqst : Option ℕ) → Option Received
    → EchoEnd
unfolding answer_message
tcp_server none bound listens selected rqst received = ended_with [] none
tcp_server (some s) false listens selected rqst received = ended_with (close_fd s ∷ []) none
tcp_server (some s) true false selected rqst received = ended_with (close_fd s ∷ []) none
tcp_server (some s) true true socket_ready rqst received = answer_message s rqst received
tcp_server (some s) true true selected rqst received = ended_with (close_fd s ∷ []) none

-- The client behind connect: sprintf of its argument, send, recv. Where send fails nothing is closed.
unfoldable pub take_reply : (s : ℕ) → (calls : EchoCall) → Option Received → EchoEnd
take_reply s sent none = recv_waits (sent ∷ [])
take_reply s sent (some recv_error) = ended_with (sent ∷ close_fd s ∷ []) none
take_reply s sent (some (bytes text)) =
    if ltb (length text) echo_size
    then ended_with (sent ∷ close_fd s ∷ []) (some (c_string text))
    else past_buf

unfoldable pub send_argument :
    (s : ℕ) → (argument : List ℕ) → (sends : Bool) → Option Received → EchoEnd
unfolding take_reply
send_argument s argument sends received =
    if leb echo_size (length argument)
    then past_buf
    else if sends
    then take_reply s (send_to s argument) received
    else ended_with (send_to s argument ∷ []) none

-- What the calls of the client give before it sends.
pub record Prepared : Type 0 where
  pub socket : Option ℕ
  pub bound : Bool
  pub address : Bool
  pub connected : Bool

-- `main` of the client, by its arguments behind the program's name. The second is not read.
unfoldable pub tcp_client : List (List ℕ) → Prepared → (sends : Bool) → Option Received → EchoEnd
unfolding send_argument
tcp_client [] p sends received = ended_with [] none
tcp_client (argument ∷ arguments) p sends received = elim p.socket [
  | none ↦ ended_with [] none
  | some s ↦ elim p.bound [
    | false ↦ ended_with [] none
    | true ↦ elim p.address [
      | false ↦ ended_with [] none
      | true ↦ elim p.connected [
        | false ↦ ended_with (close_fd s ∷ []) none
        | true ↦ send_argument s argument sends received
      ]
    ]
  ]
]
