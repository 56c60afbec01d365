-- ===== src/Network/Request/Commands.antt =====
-- What becomes of the requests of network-module/kvmnetwork.c.
use c_modules.Base.{
  ℕ, ◌+◌, ◌≤◌, ◌<◌, ◌⊎◌, List, [], ◌∷◌, ◌++◌, ◌≡◌, refl, ap, ◌∙◌, arith, Bool, true, false, Option,
  none, some, length, map, get_or, All, IsPlain, le→ltb, lt→ltb, Behaviour, defined, undefined,
}
use c_modules.Tokens.{Tokens, strtok}
use c_modules.Tokens.Words.{IsWord, joined, pieces}
use c_modules.Network.Uart.{
  TermiosFlags, Port, Uart, Exchanged, exchange_command, exchanged, uart_command, uart_connect,
  uart_baudrate, uart_disconnect, gather, flush_port, set_port, write_port, close_port,
  delivered_by, Answered,
}
use c_modules.Network.Uart.Lines.{Holds, over, uart_command-Holds}
use c_modules.Network.Request.{
  receive, add_arguments, argument, is_prefix, compare_at, buf_size, comma, kvm, undefined_behind,
  dispatch, handle, handle_text, argv_size,
}
use c_modules.Network.Request.Arguments.{
  tokens_pieces, argument-word, add_arguments-pieces, length-arguments, first_argument,
  compare_at-true, compare_at-false,
}

-- An exchange that opens and sets the port, sends the command over an older one, gathers what is read
-- and closes the port before it puts the settings back.
pub record Sends (port : Port) (v old : List ℕ) (e : Exchanged) : Type 0 where
  pub calls :
      e.calls
      ≡ flush_port
        ∷ set_port e.uart.newtio
        ∷ write_port (over v old)
        ∷ close_port
        ∷ set_port port.attributes
        ∷ []
  pub reply : e.reply ≡ gather port.reads
  pub holds : Holds e.uart (over v old)

exchanged-Sends :
    (port : Port) (v old : List ℕ) (b : Behaviour Answered) (a : Answered)
    → b ≡ defined a
    → a.sent ≡ over v old
    → a.reply ≡ gather port.reads
    → a.uart.oldtio ≡ port.attributes
    → Holds a.uart (over v old)
    → (e : Exchanged) × (exchanged b ≡ defined e) × Sends port v old e
unfolding exchanged uart_disconnect
exchanged-Sends port v old b a e sent reply was holds = (
  record {
    uart = a.uart;
    calls = flush_port ∷ set_port a.uart.newtio ∷ write_port a.sent ∷ uart_disconnect a.uart;
    reply = a.reply;
  },
  ap exchanged e,
  record {
    calls =
        ap
          (λ s.
            flush_port
            ∷ set_port a.uart.newtio
            ∷ write_port s
            ∷ close_port
            ∷ set_port a.uart.oldtio
            ∷ [])
          sent
        ∙ ap
            (λ t.
              flush_port
              ∷ set_port a.uart.newtio
              ∷ write_port (over v old)
              ∷ close_port
              ∷ set_port t
              ∷ [])
            was;
    reply = reply;
    holds = holds;
  },
)

pub exchange_command-Holds :
    (flags : TermiosFlags) (port : Port) (u : Uart) (fd : ℕ) (v old : List ℕ)
    → port.opened ≡ some fd
    → IsPlain v
    → length v ≤ 17
    → Holds u old
    → (e : Exchanged) × (exchange_command flags port (some v) u ≡ defined e) × Sends port v old e
unfolding exchange_command uart_connect uart_baudrate delivered_by
exchange_command-Holds flags port u fd v old o plain short holds =
    let ready = uart_baudrate flags port flags.baudrate (uart_connect port u) in
    let ready_holds : Holds ready old = record {
      plain = holds.plain;
      short = holds.short;
      padded = holds.padded;
    } in
    let (a, e, sent, reply, uart, held) =
      uart_command-Holds port v old ready plain short ready_holds in
    exchanged-Sends port v old (uart_command port (some v) ready) a e sent
      (reply ∙ ap (λ o. gather (delivered_by o port.reads)) o)
      (ap (λ w. w.oldtio) uart ∙ ap (λ o. elim o [ none ↦ u.oldtio | some fd ↦ port.attributes ]) o)
      held

kvm-IsPlain : IsPlain kvm
kvm-IsPlain = (omega arith, (omega arith, (omega arith, _)))

-- The words of a request, in a buffer of the size of buf, with nothing in strArgv.
module _ (flags : TermiosFlags) (port : Port) (u : Uart) (w : List ℕ) (ws : List (List ℕ))
    (buf : List ℕ) (h : IsWord 44 w) (hs : All (IsWord 44) ws) (size : length buf ≡ buf_size)
    (lt : length (joined 44 (w ∷ ws)) < buf_size) where
  abbrev pub tokens : Tokens
  tokens = strtok comma false (receive (joined 44 (w ∷ ws)) buf)

  abbrev pub argv : List (Option ℕ)
  argv = map some tokens.starts ++ (none ∷ [])

  pub words : pieces tokens ≡ w ∷ ws
  words = tokens_pieces w ws buf h hs (omega arith)

  pub stored : add_arguments tokens.starts [] ≡ argv
  stored = add_arguments-pieces tokens w ws [] words

  pub count : length argv ≡ 2 + length ws
  count = omega (arith, ap length stored, length-arguments tokens w ws [] words)

  pub handle_text-argv :
      handle_text flags port u buf [] (joined 44 (w ∷ ws)) ≡ handle flags port u tokens.text argv
  unfolding handle_text
  handle_text-argv =
      rw (lt→ltb (length (joined 44 (w ∷ ws))) buf_size lt)
        (ap (handle flags port u tokens.text) stored)

  pub argument_of : (i : ℕ) → argument tokens.text argv i ≡ get_or (map some (w ∷ ws)) i none
  argument_of i = argument-word tokens i ∙ ap (λ ps. get_or (map some ps) i none) words

  pub compared : Behaviour Bool
  compared = compare_at tokens.text (get_or argv 0 none) kvm

  pub handle-few :
      length ws ≤ 3
      → handle flags port u tokens.text argv ≡ dispatch flags port u tokens.text argv compared
  unfolding handle compared
  handle-few few = rw (le→ltb argv_size (length argv) (omega (arith, count))) refl

  pub handle-many : 3 < length ws → handle flags port u tokens.text argv ≡ undefined_behind []
  unfolding handle
  handle-many many = rw (lt→ltb argv_size (length argv) (omega (arith, count))) refl

  pub compared-kvm : is_prefix kvm w ≡ true → compared ≡ defined true
  unfolding compared
  compared-kvm e =
      let (start, at, s) = first_argument tokens w ws words in
      ap (λ o. compare_at tokens.text o kvm) at
      ∙ compare_at-true tokens.text kvm start kvm-IsPlain (ap (is_prefix kvm) s ∙ e)

  pub compared-other : is_prefix kvm w ≡ false → (compared ≡ defined false) ⊎ (compared ≡ undefined)
  unfolding compared
  compared-other e =
      let (start, at, s) = first_argument tokens w ws words in
      rw at (compare_at-false tokens.text kvm start kvm-IsPlain (ap (is_prefix kvm) s ∙ e))
