-- ===== src/Echo/Examples.antt =====
-- A message of which the ends get lost on the way, to tcp/tcpser.c and back.
use c_modules.Base.{◌≡◌, arith, none, some, [], ◌∷◌, take, codes}
use c_modules.Echo.{send_to, close_fd, ended_with, recv_waits}
use c_modules.Echo.Message.{arrives, sent_of, server, client, client-server}

client-server_example :
    (client 4 (codes "hello") none ≡ recv_waits (send_to 4 (codes "hello") ∷ []))
    × (server 3 5 (arrives 4 (sent_of (client 4 (codes "hello") none)))
        ≡ ended_with
            (send_to 5 (take 4 (codes "hello")) ∷ close_fd 5 ∷ close_fd 3 ∷ [])
            (some (take 4 (codes "hello"))))
    × (client 4
          (codes "hello")
          (arrives 2 (sent_of (server 3 5 (arrives 4 (sent_of (client 4 (codes "hello") none))))))
        ≡ ended_with
            (send_to 4 (codes "hello") ∷ close_fd 4 ∷ [])
            (some (take 2 (take 4 (codes "hello")))))
client-server_example =
    client-server 3 5 4 4 2 (codes "hello") (ground arith) (omega arith) (omega arith) (omega arith)
      (omega arith)
