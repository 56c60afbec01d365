-- ===== src/Datagrams/Exchange.antt =====
-- The client of udp/udpcli.c with the server of udp/udpser.c.
use c_modules.Base.{
  c_string-IsPlain, ◌%◌, ◌/◌, ℕ, zero, suc, ◌+◌, ◌<◌, ◌≤◌, ◌≡◌, refl, ap, ◌∙◌, arith, true, List,
  [], ◌∷◌, length, map, All, ltb, lt→ltb, IsPlain, All-append, length-append, codes, bytes,
  Bool-cases, inl, inr, some,
}
use c_modules.Base.Decimal.{decimal}
use c_modules.Datagrams.{
  ack, packet, datagram_size, still_waiting, serve, Round, all_sent, stop_client, add_packet,
  add_message, take_message, send_packets, int_max, msgs, udp_client, ran,
}
use c_modules.Datagrams.Server.{numbered, IsAnswered, serve-waits}

-- A decimal number has no NUL, and no more digits than its fuel.
decimal-IsPlain : (fuel n : ℕ) → IsPlain (decimal fuel n)
unfolding decimal
decimal-IsPlain zero n = _
decimal-IsPlain (suc fuel) n = elim (Bool-cases (ltb n 10)) [
  | inl one ↦ rw one (omega arith, _)
  | inr more ↦ rw more (
      All-append _ (decimal fuel (n / 10)) ((48 + n % 10) ∷ []) (decimal-IsPlain fuel (n / 10))
        (omega arith, _))
]

length-decimal : (fuel n : ℕ) → length (decimal fuel n) ≤ fuel
unfolding decimal
length-decimal zero n = omega arith
length-decimal (suc fuel) n = elim (Bool-cases (ltb n 10)) [
  | inl one ↦ rw one (omega arith)
  | inr more ↦ rw more (
      omega (
        arith,
        length-append (decimal fuel (n / 10)) ((48 + n % 10) ∷ []),
        length-decimal fuel (n / 10),
      ))
]

ack-IsPlain : (n : ℕ) → IsPlain (ack n)
unfolding ack
ack-IsPlain n =
    All-append _ (codes "ack ") (decimal 10 n)
      (omega arith, (omega arith, (omega arith, (omega arith, _)))) (decimal-IsPlain 10 n)

length-ack : (n : ℕ) → length (ack n) < datagram_size
unfolding ack
length-ack n = omega (arith, length-append (codes "ack ") (decimal 10 n), length-decimal 10 n)

packet-IsAnswered : (i : ℕ) → IsAnswered (bytes (packet i))
unfolding packet
packet-IsAnswered i =
    let n = length-append (codes "This is packet ") (decimal 10 i) in
    (omega (arith, n), omega (arith, n, length-decimal 10 i))

packets-IsAnswered : (i left : ℕ) → All IsAnswered (map bytes (numbered packet i left))
packets-IsAnswered i zero = _
packets-IsAnswered i (suc left) = (packet-IsAnswered i, packets-IsAnswered (suc i) left)

-- A round in which the packet goes out and a response comes in.
abbrev pub arrived : List ℕ → Round
arrived response = record { sent = true; received = bytes response }

send_packets-acks :
    (left i n : ℕ)
    → send_packets left i (map arrived (numbered ack n left)) ≡ record {
      packets = numbered packet i left;
      messages = numbered ack n left;
      finish = all_sent;
    }
unfolding send_packets stop_client add_packet add_message take_message
send_packets-acks zero i n = refl
send_packets-acks (suc left) i n = rw (lt→ltb (length (ack n)) datagram_size (length-ack n)) (
    ap
      (λ text.
        add_packet i (record (send_packets left (suc i) (map arrived (numbered ack (suc n) left))) {
          messages =
              text ∷ (send_packets left (suc i) (map arrived (numbered ack (suc n) left))).messages;
        }))
      (c_string-IsPlain (ack n) (ack-IsPlain n))
    ∙ ap (λ c. add_packet i (record c { messages = ack n ∷ c.messages }))
        (send_packets-acks left (suc i) (suc n)))

-- The packets of `main` of the client, all of which arrive, and the server's responses, all of which
-- come back: from a count of `n` on that stays an `int` for five more, the server waits with five
-- messages more, and the client has sent its five packets in order and prints the acknowledgements
-- from `n` on, one for each.
pub send_packets-serve :
    (fd n : ℕ)
    → n + 5 ≤ int_max
    → (let server = serve n (map bytes (numbered packet 0 5)) in
        (server.finish ≡ still_waiting (n + 5))
        × (udp_client (some fd) true true (map arrived server.responses)
            ≡ ran (record {
              packets = numbered packet 0 5;
              messages = numbered ack n 5;
              finish = all_sent;
            })))
unfolding udp_client
send_packets-serve fd n fits =
    let e = serve-waits n (map bytes (numbered packet 0 5)) (packets-IsAnswered 0 5) fits in
    (
      ap (λ s. s.finish) e,
      ap (λ s. ran (send_packets msgs 0 (map arrived s.responses))) e
          ∙ ap ran (send_packets-acks 5 0 n),
    )
