-- ===== src/Network/Examples.antt =====
-- Commands and requests of network-module.
use c_modules.Base.{
  bytes, take, inl, inr, ℕ, ◌-◌, ◌≡◌, refl, arith, List, [], ◌∷◌, ◌++◌, true, none, some, codes,
  replicate,
}
use c_modules.Tokens.Words.{joined}
use c_modules.Network.Uart.{TermiosFlags, Termios, Uart, Port, Exchanged, gather}
use c_modules.Network.Uart.Lines.{Holds, over}
use c_modules.Network.Request.{is_prefix, buf_size, Handled, handled, replied, process_udp_request}
use c_modules.Network.Request.Commands.{Sends}
use c_modules.Network.Request.Replies.{IsBroken}
use c_modules.Network.Request.Udp.{IsKvm, process_udp_request-Sends, process_udp_request-IsBroken}
use c_modules.Network.Client.{asked, network_client}
use c_modules.Network.Client.Reply.{shown, network_client-Sends}
use c_modules.Network.Connection.{broken, process_tcp_request}
use c_modules.Network.Connection.Second.{process_tcp_request-broken}

abbrev flags : TermiosFlags
flags = record { cs8 = 48; clocal = 2048; cread = 128; ignpar = 4; icanon = 2; baudrate = 4098 }

abbrev settings : Termios
settings = record { c_cflag = 0; c_iflag = 0; c_oflag = 0; c_lflag = 0 }

-- The device answers in two reads.
abbrev port : Port
port = record {
  opened = some 3;
  attributes = settings;
  reads = some (codes "channel ") ∷ some (codes "2") ∷ none ∷ [];
}

abbrev old : List ℕ
old = codes "status all" ++ (10 ∷ 13 ∷ [])

-- A uart that has sent a longer command.
abbrev uart : Uart
uart = record { fd = some 3; oldtio = settings; newtio = settings; s1 = old ++ replicate 8 0 }

uart-Holds : Holds uart old
uart-Holds = record { plain = ground arith; short = omega arith; padded = refl }

stale : over (codes "sw 2") old ≡ codes "sw 2" ++ (10 ∷ 13 ∷ codes " all" ++ (10 ∷ 13 ∷ []))
stale = refl

request-IsKvm : IsKvm (codes "KVM") (codes "sw 2") []
unfolding is_prefix
request-IsKvm = record {
  word = ground arith;
  words = ground arith;
  fits = omega arith;
  few = omega arith;
  starts = refl;
  plain = ground arith;
  short = omega arith;
}

process_udp_request-Sends_example :
    (e : Exchanged) × (buf : List ℕ) × (process_udp_request flags port uart
        (bytes (joined 44 (codes "KVM" ∷ codes "sw 2" ∷ [])))
        true
      ≡ handled (replied e buf (take (buf_size - 1) (gather port.reads))) true)
    × Sends port (codes "sw 2") old e
process_udp_request-Sends_example =
    process_udp_request-Sends flags port uart 3 old (codes "KVM") (codes "sw 2") [] true
      request-IsKvm refl uart-Holds

process_udp_request-IsBroken_example :
    (h : Handled) × (process_udp_request flags port uart (bytes (joined 44 (codes "KVM" ∷ []))) true
      ≡ handled h true)
    × IsBroken h
process_udp_request-IsBroken_example =
    process_udp_request-IsBroken flags port uart (codes "KVM") [] true (ground arith) _
      (omega arith) (inr (inl refl))

process_tcp_request-broken_example :
    process_tcp_request flags uart true (
      record {
        received = bytes (joined 44 (codes "KVM" ∷ codes "sw 2" ∷ []));
        port = port;
        sent = true;
      }
      ∷ record {
        received = bytes (joined 44 (codes "KVM" ∷ codes "sw 1" ∷ []));
        port = port;
        sent = true;
      }
      ∷ [])
    ≡ record { replies = take (buf_size - 1) (gather port.reads) ∷ []; ending = broken [] }
process_tcp_request-broken_example =
    process_tcp_request-broken flags port port uart 3 old (codes "KVM") (codes "sw 2") (codes "KVM")
      (codes "sw 1") [] [] true [] request-IsKvm refl uart-Holds (ground arith) (ground arith)
      (omega arith)

network_client-Sends_example :
    (e : Exchanged) × (buf reply : List ℕ) × (process_udp_request flags port uart
        (bytes (joined 44 (codes "KVM" ∷ codes "sw 2" ∷ [])))
        true
      ≡ handled (replied e buf reply) true)
    × Sends port (codes "sw 2") old e
    × (network_client true true true
          (joined 44 (codes "KVM" ∷ codes "sw 2" ∷ []) ∷ [])
          true
          (bytes reply)
        ≡ asked (record {
          datagram = some (joined 44 (codes "KVM" ∷ codes "sw 2" ∷ []));
          printed = shown (take (buf_size - 1) (gather port.reads));
          closed_socket = true;
        }))
network_client-Sends_example =
    network_client-Sends flags port uart 3 old (codes "KVM") (codes "sw 2") [] request-IsKvm refl
      uart-Holds
