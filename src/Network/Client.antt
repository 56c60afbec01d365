-- ===== src/Network/Client.antt =====
-- network-module/udpcli.c: a client that sends one request as a datagram.
pub mod Reply
use c_modules.Base.{
  ℕ, Bool, true, false, Option, none, some, List, [], ◌∷◌, ltb, leb, if◌then◌else◌, length,
  c_string, Received, recv_error, bytes,
}
use c_modules.Network.Request.{buf_size}

-- How the client ends: with the datagram that it hands to sendto, what it prints of the reply and
-- whether it closes its socket; or past the end of buf, or with an argument that is NULL.
pub record Asked : Type 0 where
  pub datagram : Option (List ℕ)
  pub printed : Option (List ℕ)
  pub closed_socket : Bool

pub data Asking : Type 0 where
  asked : Asked → Asking
  past_text null_request : Asking

-- An early return.
unfoldable pub gives_up : Asking
gives_up = asked (record { datagram = none; printed = none; closed_socket = false })

-- The message behind recvfrom.
unfoldable pub show_reply : (request : List ℕ) → Received → Asking
show_reply request recv_error =
    asked (record { datagram = some request; printed = none; closed_socket = true })
show_reply request (bytes []) =
    asked (record { datagram = some request; printed = none; closed_socket = true })
show_reply request (bytes (c ∷ text)) =
    if ltb (length (c ∷ text)) buf_size
    then asked (record {
      datagram = some request;
      printed = some (c_string (c ∷ text));
      closed_socket = true;
    })
    else past_text

-- From sprintf on.
unfoldable pub send_request : (request : List ℕ) → (sends : Bool) → Received → Asking
unfolding show_reply
send_request request sends received =
    if leb buf_size (length request)
    then past_text
    else if sends
    then show_reply request received
    else asked (record { datagram = some request; printed = none; closed_socket = false })

-- `main`, by its arguments behind the program's name, which it does not count.
unfoldable pub network_client :
    (opens bound address : Bool) → List (List ℕ) → (sends : Bool) → Received → Asking
unfolding send_request gives_up
network_client false bound address arguments sends received = gives_up
network_client true false address arguments sends received = gives_up
network_client true true false arguments sends received = gives_up
network_client true true true [] sends received = null_request
network_client true true true (request ∷ more) sends received = send_request request sends received
