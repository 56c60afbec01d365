-- ===== src/Network/Client/Reply.antt =====
-- The client of network-module/udpcli.c asks processUDPRequest of network-module/kvmnetwork.c.
use mathlib.Core.Path.{subst}
use c_modules.Base.{
  false, ℕ, zero, suc, ◌-◌, ◌<◌, ◌≡◌, refl, sym, arith, true, Option, none, some, List, [], ◌∷◌,
  ◌++◌, length, take, leb, lt→ltb, IsPlain, All-append, take-IsPlain, c_string, c_string-cons,
  c_string-IsPlain, bytes,
}
use c_modules.Tokens.Words.{joined}
use c_modules.Network.Uart.{TermiosFlags, Port, Uart, Exchanged, gather}
use c_modules.Network.Uart.Lines.{Holds}
use c_modules.Network.Request.{buf_size, replied, handled, process_udp_request}
use c_modules.Network.Request.Commands.{Sends}
use c_modules.Network.Request.Udp.{IsKvm, process_udp_request-Sends, length-take}
use c_modules.Network.Client.{asked, show_reply, send_request, network_client}

c_string-plain_all : (buffer : List ℕ) → IsPlain (c_string buffer)
c_string-plain_all [] = _
c_string-plain_all (zero ∷ buffer) = _
c_string-plain_all (suc c ∷ buffer) =
    subst IsPlain (sym (c_string-cons (suc c) buffer (omega arith)))
      (omega arith, c_string-plain_all buffer)

joined_read :
    (text rest : List ℕ)
    → IsPlain text
    → IsPlain rest
    → IsPlain (elim text [ [] ↦ [] | c ∷ more ↦ (c ∷ more) ++ rest ])
joined_read [] rest h k = _
joined_read (c ∷ text) rest h k = All-append _ (c ∷ text) rest h k

gather-IsPlain : (reads : List (Option (List ℕ))) → IsPlain (gather reads)
unfolding gather
gather-IsPlain [] = _
gather-IsPlain (none ∷ reads) = _
gather-IsPlain (some text ∷ reads) =
    joined_read (c_string text) (gather reads) (c_string-plain_all text) (gather-IsPlain reads)

-- What is printed of a reply: nothing of an empty one.
abbrev pub shown : List ℕ → Option (List ℕ)
shown [] = none
shown (c ∷ text) = some (c ∷ text)

show_reply-shown :
    (request reply : List ℕ)
    → IsPlain reply
    → length reply < buf_size
    → show_reply request (bytes reply)
      ≡ asked (record { datagram = some request; printed = shown reply; closed_socket = true })
unfolding show_reply
show_reply-shown request [] h lt = refl
show_reply-shown request (c ∷ reply) h lt =
    rw (lt→ltb (length (c ∷ reply)) buf_size lt, c_string-IsPlain (c ∷ reply) h) refl

-- The client asks for a KVM command: on an open port, where the request and the reply arrive, the
-- request goes to the device as its second word, and the client prints what the device's reads gather,
-- cut at 1023 bytes, if that is anything, and closes its socket.
pub network_client-Sends :
    (flags : TermiosFlags) (port : Port) (u : Uart) (fd : ℕ) (old w v : List ℕ) (ws : List (List ℕ))
    → IsKvm w v ws
    → port.opened ≡ some fd
    → Holds u old
    → (let request = joined 44 (w ∷ v ∷ ws) in
        (e : Exchanged) × (buf reply : List ℕ) × (process_udp_request flags port u
            (bytes request)
            true
          ≡ handled (replied e buf reply) true)
        × Sends port v old e
        × (network_client true true true (request ∷ []) true (bytes reply)
            ≡ asked (record {
              datagram = some request;
              printed = shown (take (buf_size - 1) (gather port.reads));
              closed_socket = true;
            })))
unfolding network_client send_request
network_client-Sends flags port u fd old w v ws k o holds =
    let request = joined 44 (w ∷ v ∷ ws) in
    let reply = take (buf_size - 1) (gather port.reads) in
    let (e, buf, is, sends) = process_udp_request-Sends flags port u fd old w v ws true k o holds in
    let fits : leb buf_size (length request) ≡ false = ground (arith, k.fits) in
    (
      e,
      buf,
      reply,
      is,
      sends,
      rw fits (
          show_reply-shown request reply
            (take-IsPlain (buf_size - 1) (gather port.reads) (gather-IsPlain port.reads))
            (omega (arith, length-take (buf_size - 1) (gather port.reads)))),
    )
