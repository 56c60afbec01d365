-- ===== src/Network/Sockets.antt =====
-- openUDPConnectSocket, openTCPConnectSocket and the functions that close their sockets, of
-- network-module/kvmnetwork.c.
use c_modules.Base.{
  ℕ, ◌≡◌, ◌==◌, if◌then◌else◌, arith, Bool, true, false, Option, none, some, List, [], ◌∷◌,
}

pub data Kind : Type 0 where
  datagram stream : Kind

-- The calls on sockets: a socket that is opened, bound to a port of every address, listened on, closed.
pub data SocketCall : Type 0 where
  open_socket : Kind → SocketCall
  bind_socket : (s port : ℕ) → SocketCall
  listen_socket : (s backlog : ℕ) → SocketCall
  close_socket : (s : ℕ) → SocketCall

-- What the calls of one function give: the socket, `none` for -1, and whether bind and listen work.
pub record SocketAnswers : Type 0 where
  pub socket : Option ℕ
  pub bound : Bool
  pub listens : Bool

-- The result, `none` for -1, and the calls.
pub record OpenedSocket : Type 0 where
  pub result : Option ℕ
  pub calls : List SocketCall

unfoldable pub open_udp_connect_socket : SocketAnswers → (port : ℕ) → OpenedSocket
open_udp_connect_socket answers port = elim answers.socket [
  | none ↦ record { result = none; calls = open_socket datagram ∷ [] }
  | some s ↦ elim answers.bound [
    | false ↦ record {
      result = none;
      calls = open_socket datagram ∷ bind_socket s port ∷ close_socket s ∷ [];
    }
    | true ↦ record { result = some s; calls = open_socket datagram ∷ bind_socket s port ∷ [] }
  ]
]

unfoldable pub open_tcp_connect_socket : SocketAnswers → (port : ℕ) → OpenedSocket
open_tcp_connect_socket answers port = elim answers.socket [
  | none ↦ record { result = none; calls = open_socket stream ∷ [] }
  | some s ↦ elim answers.bound [
    | false ↦ record {
      result = none;
      calls = open_socket stream ∷ bind_socket s port ∷ close_socket s ∷ [];
    }
    | true ↦ elim answers.listens [
      | false ↦ record {
        result = none;
        calls = open_socket stream ∷ bind_socket s port ∷ listen_socket s 5 ∷ close_socket s ∷ [];
      }
      | true ↦ record {
        result = some s;
        calls = open_socket stream ∷ bind_socket s port ∷ listen_socket s 5 ∷ [];
      }
    ]
  ]
]

-- closeTCPConnectSocket and closeUDPConnectSocket
unfoldable pub close_connect_socket : ℕ → List SocketCall
close_connect_socket fd = close_socket fd ∷ []

unfoldable pub closed : (now : Option ℕ) (s : ℕ) → Option ℕ
closed none s = none
closed (some t) s = if t == s then none else some t

-- The socket that is open behind calls, of which the first call gives `given`.
unfoldable pub open_behind : (given now : Option ℕ) → List SocketCall → Option ℕ
unfolding closed
open_behind given now [] = now
open_behind given now (open_socket kind ∷ calls) = open_behind given given calls
open_behind given now (bind_socket s port ∷ calls) = open_behind given now calls
open_behind given now (listen_socket s backlog ∷ calls) = open_behind given now calls
open_behind given now (close_socket s ∷ calls) = open_behind given (closed now s) calls

-- What is open behind the opening functions is the socket that they return, and nothing with -1.
module _ (answers : SocketAnswers) (port : ℕ) where
  pub open_connect_socket-open_behind :
      (open_behind answers.socket none (open_udp_connect_socket answers port).calls
        ≡ (open_udp_connect_socket answers port).result)
      × (open_behind answers.socket none (open_tcp_connect_socket answers port).calls
          ≡ (open_tcp_connect_socket answers port).result)
  unfolding open_behind open_udp_connect_socket open_tcp_connect_socket closed
  open_connect_socket-open_behind = ground arith
