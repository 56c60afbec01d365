-- ===== src/Datagrams/Examples.antt =====
-- The server and the client of udp.
use c_modules.Base.{some, true, arith, ◌≡◌, refl, [], ◌∷◌, map, codes, recv_error, bytes}
use c_modules.Base.Decimal.{decimal}
use c_modules.Datagrams.{
  ack, packet, serve, respond, udp_client, ran, count_overflows, received_close, still_waiting,
  all_sent,
}
use c_modules.Datagrams.Server.{numbered}
use c_modules.Datagrams.Exchange.{arrived, send_packets-serve}

-- An error between two messages is answered and counted.
counted_error :
    (serve 0 (bytes (codes "one") ∷ recv_error ∷ bytes (codes "two") ∷ bytes [] ∷ [])).finish
    ≡ received_close 3
unfolding serve respond
counted_error = refl

send_packets-serve_example :
    ((serve 7 (map bytes (numbered packet 0 5))).finish ≡ still_waiting 12)
    × (udp_client
          (some 3)
          true
          true
          (map arrived (serve 7 (map bytes (numbered packet 0 5))).responses)
        ≡ ran (record {
          packets = numbered packet 0 5;
          messages = numbered ack 7 5;
          finish = all_sent;
        }))
send_packets-serve_example = send_packets-serve 3 7 (omega arith)

-- At the largest count the next datagram overflows it.
last_count : (serve 2147483647 (bytes (codes "one") ∷ [])).finish ≡ count_overflows
unfolding serve respond
last_count = refl

twelve : ack 12 ≡ codes "ack 12"
unfolding ack decimal
twelve = refl
