-- ===== src/Network/Connection/Second.antt =====
-- The second request of a connection of network-module/kvmnetwork.c.
use c_modules.Base.{
  bytes, take, ℕ, ◌+◌, ◌-◌, ◌<◌, List, [], ◌∷◌, ◌≡◌, refl, ap, ◌∙◌, arith, Bool, true, Option, some,
  length, All, replicate, length-replicate, lt→ltb,
}
use c_modules.Tokens.Words.{IsWord, joined}
use c_modules.Network.Uart.{TermiosFlags, Port, Uart, gather}
use c_modules.Network.Uart.Lines.{Holds}
use c_modules.Network.Request.{buf_size, argv_size, undefined_behind, handle, handle_text}
use c_modules.Network.Request.Arguments.{tokens_of, tokens_pieces, length-arguments}
use c_modules.Network.Request.Udp.{IsKvm, handle_text-Sends}
use c_modules.Network.Connection.{
  Turn, broken, ended, add_reply, after_request, more_arguments, request_loop, process_tcp_request,
}

-- Words for a buffer of the size of buf add one word and the NULL to strArgv, at least.
length-more_arguments :
    (w : List ℕ) (ws : List (List ℕ)) (buf : List ℕ) (argv : List (Option ℕ))
    → IsWord 44 w
    → All (IsWord 44) ws
    → length buf ≡ buf_size
    → length (joined 44 (w ∷ ws)) < buf_size
    → length (more_arguments buf (joined 44 (w ∷ ws)) argv) ≡ length argv + (2 + length ws)
unfolding more_arguments
length-more_arguments w ws buf argv h hs size lt =
    let fits : length (joined 44 (w ∷ ws)) < length buf = omega (arith, size) in
    length-arguments (tokens_of w ws buf h hs fits) w ws argv (tokens_pieces w ws buf h hs fits)

handle_text-full :
    (flags : TermiosFlags) (port : Port) (u : Uart) (text buf : List ℕ) (argv : List (Option ℕ))
    → length text < buf_size
    → argv_size < length (more_arguments buf text argv)
    → handle_text flags port u buf argv text ≡ undefined_behind []
unfolding handle_text handle more_arguments
handle_text-full flags port u text buf argv lt full =
    rw
      (
        lt→ltb (length text) buf_size lt,
        lt→ltb argv_size (length (more_arguments buf text argv)) full,
      )
      refl

-- A turn that receives words, by its request.
request_loop-words :
    (flags : TermiosFlags) (u : Uart) (w : List ℕ) (ws : List (List ℕ)) (buf : List ℕ)
    (argv : List (Option ℕ)) (port : Port) (sent : Bool) (turns : List Turn)
    → IsWord 44 w
    → request_loop flags u buf argv
        (record { received = bytes (joined 44 (w ∷ ws)); port = port; sent = sent } ∷ turns)
      ≡ after_request (handle_text flags port u buf argv (joined 44 (w ∷ ws))) sent (λ u' buf'.
        request_loop flags u' buf' (more_arguments buf (joined 44 (w ∷ ws)) argv) turns)
unfolding request_loop
request_loop-words flags u [] ws buf argv port sent turns h = absurd h
request_loop-words flags u (c ∷ w) [] buf argv port sent turns h = refl
request_loop-words flags u (c ∷ w) (v ∷ ws) buf argv port sent turns h = refl

-- On one connection, a KVM command that gets its reply and then any request of two or more
-- words and at most 1023 bytes: only the first gets a reply, and the second ends in an access that C leaves undefined, whatever
-- the connection would bring behind it.
pub process_tcp_request-broken :
    (flags : TermiosFlags) (port port' : Port) (u : Uart) (fd : ℕ) (old w v w' v' : List ℕ)
    (ws ws' : List (List ℕ)) (sent : Bool) (turns : List Turn)
    → IsKvm w v ws
    → port.opened ≡ some fd
    → Holds u old
    → IsWord 44 w'
    → All (IsWord 44) (v' ∷ ws')
    → length (joined 44 (w' ∷ v' ∷ ws')) < buf_size
    → process_tcp_request flags u true (
        record { received = bytes (joined 44 (w ∷ v ∷ ws)); port = port; sent = true }
        ∷ record { received = bytes (joined 44 (w' ∷ v' ∷ ws')); port = port'; sent = sent }
        ∷ turns)
      ≡ record { replies = take (buf_size - 1) (gather port.reads) ∷ []; ending = broken [] }
unfolding process_tcp_request after_request add_reply ended
process_tcp_request-broken flags port port' u fd old w v w' v' ws ws' sent turns k o holds h hs lt =
    let (e, buf, replies, size, answers) =
      handle_text-Sends flags port u fd old w v ws (replicate buf_size 0)
        (length-replicate buf_size 0) k o holds in
    let first = joined 44 (w ∷ v ∷ ws) in
    let second = joined 44 (w' ∷ v' ∷ ws') in
    let text = take (buf_size - 1) (gather port.reads) in
    let argv = more_arguments (replicate buf_size 0) first [] in
    let turn : Turn = record { received = bytes second; port = port'; sent = sent } in
    let count =
      length-more_arguments w (v ∷ ws) (replicate buf_size 0) [] k.word k.words
        (length-replicate buf_size 0) k.fits in
    let count' = length-more_arguments w' (v' ∷ ws') buf argv h hs size lt in
    let full : argv_size < length (more_arguments buf second argv) = omega (arith, count, count') in
    request_loop-words flags u w (v ∷ ws) (replicate buf_size 0) [] port true (turn ∷ turns) k.word
    ∙ ap (λ r. after_request r true (λ u' buf'. request_loop flags u' buf' argv (turn ∷ turns)))
        replies
    ∙ ap (add_reply text) (
        request_loop-words flags e.uart w' (v' ∷ ws') buf argv port' sent turns h
        ∙ ap
            (λ r.
              after_request r sent
                (λ u' buf'. request_loop flags u' buf' (more_arguments buf second argv) turns))
            (handle_text-full flags port' e.uart second buf argv lt full))
