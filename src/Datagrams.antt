-- ===== src/Datagrams.antt =====
-- udp: a server that acknowledges datagrams by number (udp/udpser.c), and a client that sends five
-- (udp/udpcli.c).
pub mod Server
pub mod Exchange
mod Examples
use c_modules.Base.{
  ℕ, zero, suc, Bool, true, false, Option, none, some, List, [], ◌∷◌, ◌++◌, ltb, if◌then◌else◌,
  length, codes, c_string, Received, recv_error, bytes,
}
use c_modules.Base.Decimal.{decimal}

-- BUFSIZE and BUFLEN
abbrev pub datagram_size : ℕ
datagram_size = 2048

-- The texts of the two sprintf; an `int` has at most ten digits.
unfoldable pub ack : ℕ → List ℕ
ack msgcnt = codes "ack " ++ decimal 10 msgcnt

unfoldable pub packet : ℕ → List ℕ
packet i = codes "This is packet " ++ decimal 10 i

-- The largest `int`.
abbrev pub int_max : ℕ
int_max = 2147483647

-- How the server's loop ends: with the number of messages it prints, with the NUL behind the end of
-- buf, with a `msgcnt++` that overflows, or it waits.
pub data Finish : Type 0 where
  received_close : (total : ℕ) → Finish
  past_buffer count_overflows : Finish
  still_waiting : (msgcnt : ℕ) → Finish

-- The texts that the server hands to sendto, whose failure is only printed.
pub record Served : Type 0 where
  pub responses : List (List ℕ)
  pub finish : Finish

-- `sprintf(…, msgcnt++)` and sendto, with what follows.
unfoldable pub respond : (msgcnt : ℕ) → Served → Served
unfolding ack
respond msgcnt s =
    if ltb msgcnt int_max
    then record s { responses = ack msgcnt ∷ s.responses }
    else record { responses = []; finish = count_overflows }

-- The loop of the server; it answers an error as well.
unfoldable pub serve : (msgcnt : ℕ) → List Received → Served
unfolding respond
serve msgcnt [] = record { responses = []; finish = still_waiting msgcnt }
serve msgcnt (recv_error ∷ more) = respond msgcnt (serve (suc msgcnt) more)
serve msgcnt (bytes [] ∷ more) = record { responses = []; finish = received_close msgcnt }
serve msgcnt (bytes (c ∷ text) ∷ more) =
    let rest = respond msgcnt (serve (suc msgcnt) more) in
    if ltb (length (c ∷ text)) datagram_size
    then rest
    else record { responses = []; finish = past_buffer }

-- `main` of the server: the two returns in front of the loop, or what it serves. Each closes what is
-- open.
pub data ServerRun : Type 0 where
  no_server_socket server_unbound : ServerRun
  served : Served → ServerRun

unfoldable pub udp_server : (socket : Option ℕ) → (bound : Bool) → List Received → ServerRun
unfolding serve
udp_server none bound received = no_server_socket
udp_server (some fd) false received = server_unbound
udp_server (some fd) true received = served (serve 0 received)

-- What a round of the client meets: whether sendto works, and what recvfrom gives.
pub record Round : Type 0 where
  pub sent : Bool
  pub received : Received

-- How the client's loop ends: behind all packets, at an error of sendto, with the NUL behind the end of
-- buf, or it waits.
pub data ClientFinish : Type 0 where
  all_sent sendto_error past_client_buffer client_waits : ClientFinish

-- The packets that are handed to sendto, and the messages that are printed.
pub record Client : Type 0 where
  pub packets : List (List ℕ)
  pub messages : List (List ℕ)
  pub finish : ClientFinish

unfoldable pub stop_client : ClientFinish → Client
stop_client finish = record { packets = []; messages = []; finish = finish }

unfoldable pub add_packet : ℕ → Client → Client
unfolding packet
add_packet i c = record c { packets = packet i ∷ c.packets }

unfoldable pub add_message : List ℕ → Client → Client
add_message text c = record c { messages = c_string text ∷ c.messages }

-- What recvfrom gives decides what is printed before the rest of the loop.
unfoldable pub take_message : Received → Client → Client
unfolding add_message stop_client
take_message recv_error rest = rest
take_message (bytes text) rest =
    if ltb (length text) datagram_size
    then add_message text rest
    else stop_client past_client_buffer

-- The loop of the client with `left` packets to go.
unfoldable pub send_packets : (left i : ℕ) → List Round → Client
unfolding stop_client add_packet take_message
send_packets zero i rounds = stop_client all_sent
send_packets (suc left) i [] = add_packet i (stop_client client_waits)
send_packets (suc left) i (round ∷ rounds) =
    let rest = send_packets left (suc i) rounds in
    add_packet i (if round.sent then take_message round.received rest else stop_client sendto_error)

abbrev pub msgs : ℕ
msgs = 5

pub data ClientRun : Type 0 where
  no_client_socket client_unbound no_address : ClientRun
  ran : Client → ClientRun

-- `main` of the client; each end closes what is open.
unfoldable pub udp_client : (socket : Option ℕ) → (bound address : Bool) → List Round → ClientRun
unfolding send_packets
udp_client none bound address rounds = no_client_socket
udp_client (some fd) false address rounds = client_unbound
udp_client (some fd) true false rounds = no_address
udp_client (some fd) true true rounds = ran (send_packets msgs 0 rounds)
