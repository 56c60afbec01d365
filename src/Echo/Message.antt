-- ===== src/Echo/Message.antt =====
-- One message from tcp/tcpcli.c to tcp/tcpser.c and back.
use c_modules.Base.{
  c_string-IsPlain, take-IsPlain, length-take-le, ℕ, zero, suc, ◌<◌, ◌≡◌, refl, arith, true, false,
  Option, none, some, List, [], ◌∷◌, length, take, ltb, leb, lt→ltb, IsPlain, c_string, Received,
  bytes,
}
use c_modules.Echo.{
  echo_size, EchoCall, send_to, close_fd, EchoEnd, ended_with, past_buf, recv_waits, answer_message,
  socket_ready, tcp_server, take_reply, send_argument, tcp_client,
}

-- What a call of recv gives of the bytes that the other side has sent and not closed: at least one and
-- here at most `k` of them, or it waits where there are none.
abbrev pub arrives : (k : ℕ) → (sent : List ℕ) → Option Received
arrives k [] = none
arrives k (c ∷ sent) = some (bytes (take k (c ∷ sent)))

-- The bytes that calls send.
abbrev pub sent_by : List EchoCall → List ℕ
sent_by [] = []
sent_by (send_to fd text ∷ calls) = text
sent_by (close_fd fd ∷ calls) = sent_by calls

-- The bytes that one side has sent.
abbrev pub sent_of : EchoEnd → List ℕ
sent_of (ended_with calls printed) = sent_by calls
sent_of past_buf = []
sent_of (recv_waits calls) = sent_by calls

-- The server with a client on its socket.
abbrev pub server : (s rqst : ℕ) → Option Received → EchoEnd
server s rqst received = tcp_server (some s) true true socket_ready (some rqst) received

-- The client with a connection.
abbrev pub client : (c : ℕ) → (argument : List ℕ) → Option Received → EchoEnd
client c argument received =
    tcp_client (argument ∷ [])
      (record { socket = some c; bound = true; address = true; connected = true }) true received

-- A text without a NUL that fits a buffer with its NUL, cut or not.
message-printed :
    (n : ℕ) (x : ℕ) (text : List ℕ)
    → IsPlain (x ∷ text)
    → length (x ∷ text) < echo_size
    → (ltb (length (x ∷ take n text)) echo_size ≡ true)
      × (c_string (x ∷ take n text) ≡ x ∷ take n text)
message-printed n x text h lt = (
  lt→ltb (length (x ∷ take n text)) echo_size (omega (arith, length-take-le n text)),
  c_string-IsPlain (x ∷ take n text) (h.0, take-IsPlain n text h.1),
)

-- A client with a connection and a text of 1 to 1023 bytes, without a NUL: it sends the text and waits;
-- the server takes the first bytes that arrive, at least one, sends them back and closes both its
-- sockets; the client prints the first of these that arrive and closes its own.
pub client-server :
    (s rqst c k j : ℕ) (text : List ℕ)
    → IsPlain text
    → 0 < length text
    → length text < echo_size
    → 0 < k
    → 0 < j
    → (let sent = client c text none in
        let answer = server s rqst (arrives k (sent_of sent)) in
        (sent ≡ recv_waits (send_to c text ∷ []))
        × (answer
            ≡ ended_with
                (send_to rqst (take k text) ∷ close_fd rqst ∷ close_fd s ∷ [])
                (some (take k text)))
        × (client c text (arrives j (sent_of answer))
            ≡ ended_with (send_to c text ∷ close_fd c ∷ []) (some (take j (take k text)))))
unfolding tcp_server answer_message tcp_client send_argument take_reply
client-server s rqst c k j [] h some_byte lt pos pos' = absurd (omega arith)
client-server s rqst c zero j (x ∷ text) h some_byte lt pos pos' = absurd (omega arith)
client-server s rqst c (suc k) zero (x ∷ text) h some_byte lt pos pos' = absurd (omega arith)
client-server s rqst c (suc k) (suc j) (x ∷ text) h some_byte lt pos pos' =
    let fits : leb echo_size (length (x ∷ text)) ≡ false = ground arith in
    let (room, whole) = message-printed k x text h lt in
    let short : length (x ∷ take k text) < echo_size = omega (arith, length-take-le k text) in
    let (room', whole') = message-printed j x (take k text) (h.0, take-IsPlain k text h.1) short in
    rw (fits, room, whole, room', whole') (refl, refl, refl)

-- With an empty argument the client sends nothing, and both sides wait for each other for ever.
client-server_empty :
    (s rqst c k j : ℕ)
    → (let sent = client c [] none in
        let answer = server s rqst (arrives k (sent_of sent)) in
        (answer ≡ recv_waits [])
        × (client c [] (arrives j (sent_of answer)) ≡ recv_waits (send_to c [] ∷ [])))
unfolding tcp_server answer_message tcp_client send_argument take_reply
client-server_empty s rqst c k j = (refl, refl)
