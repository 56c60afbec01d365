-- ===== src/Network/Request/Udp.antt =====
-- processUDPRequest of network-module/kvmnetwork.c, from the text of recvfrom to the reply.
use c_modules.Base.{
  bytes, take, length-append, ◌++◌, arith, ℕ, zero, suc, ◌-◌, ◌≤◌, ◌<◌, List, [], ◌∷◌, ◌≡◌, refl,
  ap, ◌∙◌, Bool, true, some, length, All, IsPlain, replicate, length-replicate, Behaviour, defined,
}
use c_modules.Tokens.Words.{IsWord, joined}
use c_modules.Network.Uart.{TermiosFlags, Port, Uart, Exchanged, gather, exchange_command}
use c_modules.Network.Uart.Lines.{Holds}
use c_modules.Network.Request.{
  is_prefix, buf_size, kvm, Handled, replied, reply_with, handled, process_udp_request, handle_text,
}
use c_modules.Network.Request.Commands.{Sends, exchange_command-Holds}
use c_modules.Network.Request.Replies.{IsBroken, IsWrong, handle_text-IsBroken, handle_text-kvm}

pub length-take : (n : ℕ) (text : List ℕ) → length (take n text) ≤ n
length-take zero text = omega arith
length-take (suc n) [] = omega arith
length-take (suc n) (c ∷ text) = omega (arith, length-take n text)

-- A request for the device: two to four words of at most 1023 bytes, the first with KVM at its start,
-- the second a command of at most 17 bytes.
pub record IsKvm (w v : List ℕ) (ws : List (List ℕ)) : Type 0 where
  pub word : IsWord 44 w
  pub words : All (IsWord 44) (v ∷ ws)
  pub fits : length (joined 44 (w ∷ v ∷ ws)) < buf_size
  pub few : length ws ≤ 2
  pub starts : is_prefix kvm w ≡ true
  pub plain : IsPlain v
  pub short : length v ≤ 17

pub reply_with-replied :
    (b : Behaviour Exchanged) (e : Exchanged) (reply : List ℕ)
    → b ≡ defined e
    → e.reply ≡ reply
    → (buf : List ℕ) × (reply_with b ≡ replied e buf (take (buf_size - 1) reply))
      × (length buf ≡ buf_size)
unfolding reply_with
reply_with-replied b e reply is r =
    let text = take (buf_size - 1) e.reply in
    let zeros = replicate (buf_size - length text) 0 in
    (
      text ++ zeros,
      ap reply_with is ∙ ap (λ r. replied e (text ++ zeros) (take (buf_size - 1) r)) r,
      omega (
        arith,
        length-append text zeros,
        length-replicate (buf_size - length text) 0,
        length-take (buf_size - 1) e.reply,
      ),
    )

-- A text of a KVM command gets a reply.
pub handle_text-Sends :
    (flags : TermiosFlags) (port : Port) (u : Uart) (fd : ℕ) (old w v : List ℕ) (ws : List (List ℕ))
    (buf : List ℕ)
    → length buf ≡ buf_size
    → IsKvm w v ws
    → port.opened ≡ some fd
    → Holds u old
    → (e : Exchanged) × (buf' : List ℕ) × (handle_text flags port u buf [] (joined 44 (w ∷ v ∷ ws))
        ≡ replied e buf' (take (buf_size - 1) (gather port.reads)))
      × (length buf' ≡ buf_size)
      × Sends port v old e
handle_text-Sends flags port u fd old w v ws buf size k o holds =
    let (e, is, answers) = exchange_command-Holds flags port u fd v old o k.plain k.short holds in
    let (buf', replies, size') =
      reply_with-replied (exchange_command flags port (some v) u) e (gather port.reads) is
        answers.reply in
    (
      e,
      buf',
      handle_text-kvm flags port u w v ws buf k.word k.words size k.fits k.few k.starts ∙ replies,
      size',
      answers,
    )

joined_nonempty :
    (flags : TermiosFlags) (port : Port) (u : Uart) (w : List ℕ) (ws : List (List ℕ)) (sent : Bool)
    → IsWord 44 w
    → process_udp_request flags port u (bytes (joined 44 (w ∷ ws))) sent
      ≡ handled (handle_text flags port u (replicate buf_size 0) [] (joined 44 (w ∷ ws))) sent
unfolding process_udp_request
joined_nonempty flags port u [] ws sent h = absurd h
joined_nonempty flags port u (c ∷ w) [] sent h = refl
joined_nonempty flags port u (c ∷ w) (v ∷ ws) sent h = refl

-- On an open port, with a buffer for commands that holds an older one, processUDPRequest takes a
-- datagram of two to four words with commas between them, at most 1023 bytes, the first with KVM at
-- its start and the second at most 17 bytes: it opens and sets the port, sends the second word with
-- its line end and what the older command has behind that many bytes, closes the port before it puts
-- the settings back, and the reply is what the reads gather, cut at 1023 bytes.
pub process_udp_request-Sends :
    (flags : TermiosFlags) (port : Port) (u : Uart) (fd : ℕ) (old w v : List ℕ) (ws : List (List ℕ))
    (sent : Bool)
    → IsKvm w v ws
    → port.opened ≡ some fd
    → Holds u old
    → (e : Exchanged) × (buf : List ℕ) × (process_udp_request flags port u
          (bytes (joined 44 (w ∷ v ∷ ws)))
          sent
        ≡ handled (replied e buf (take (buf_size - 1) (gather port.reads))) sent)
      × Sends port v old e
process_udp_request-Sends flags port u fd old w v ws sent k o holds =
    let (e, buf, replies, size, answers) =
      handle_text-Sends flags port u fd old w v ws (replicate buf_size 0)
        (length-replicate buf_size 0) k o holds in
    (
      e,
      buf,
      joined_nonempty flags port u w (v ∷ ws) sent k.word ∙ ap (λ r. handled r sent) replies,
      answers,
    )

-- A datagram of words with commas between them, at most 1023 bytes, that are more than four, only one
-- or do not start with KVM: processUDPRequest ends in an access that C leaves undefined.
pub process_udp_request-IsBroken :
    (flags : TermiosFlags) (port : Port) (u : Uart) (w : List ℕ) (ws : List (List ℕ)) (sent : Bool)
    → IsWord 44 w
    → All (IsWord 44) ws
    → length (joined 44 (w ∷ ws)) < buf_size
    → IsWrong w ws
    → (h : Handled) × (process_udp_request flags port u (bytes (joined 44 (w ∷ ws))) sent
        ≡ handled h sent)
      × IsBroken h
process_udp_request-IsBroken flags port u w ws sent h hs lt wrong = (
  handle_text flags port u (replicate buf_size 0) [] (joined 44 (w ∷ ws)),
  joined_nonempty flags port u w ws sent h,
  handle_text-IsBroken flags port u w ws (replicate buf_size 0) h hs (length-replicate buf_size 0)
      lt wrong,
)
