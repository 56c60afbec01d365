-- ===== src/Network/Uart.antt =====
-- network-module/uart.c, and the main of uart/uart.c. Texts are lists of bytes.
pub mod Lines
use c_modules.Base.{
  ℕ, zero, suc, ◌-◌, Bool, true, false, Option, none, some, List, [], ◌∷◌, ◌++◌, ◌==◌, ltb,
  if◌then◌else◌, bit_or, length, c_string, Behaviour, defined, undefined,
}

-- The flags of termios.h that are set.
pub record TermiosFlags : Type 0 where
  pub cs8 : ℕ
  pub clocal : ℕ
  pub cread : ℕ
  pub ignpar : ℕ
  pub icanon : ℕ
  pub baudrate : ℕ

pub record Termios : Type 0 where
  pub c_cflag : ℕ
  pub c_iflag : ℕ
  pub c_oflag : ℕ
  pub c_lflag : ℕ

-- The globals fd (`none` is negative), oldtio and newtio, and the static s1 of uartCommand.
pub record Uart : Type 0 where
  pub fd : Option ℕ
  pub oldtio : Termios
  pub newtio : Termios
  pub s1 : List ℕ

-- The port: what open and tcgetattr give, and what the calls of read deliver, `none` for -1; behind
-- the list read gives -1.
pub record Port : Type 0 where
  pub opened : Option ℕ
  pub attributes : Termios
  pub reads : List (Option (List ℕ))

-- The calls on the descriptor behind the open.
pub data PortCall : Type 0 where
  flush_port : PortCall
  set_port : Termios → PortCall
  write_port : List ℕ → PortCall
  close_port : PortCall

-- uartConnect
unfoldable pub uart_connect : Port → Uart → Uart
uart_connect port u = record u { fd = port.opened }

-- uartBaudrate: the settings.
unfoldable pub uart_baudrate : TermiosFlags → Port → (speed : ℕ) → Uart → Uart
uart_baudrate flags port speed u = record u {
  oldtio = elim u.fd [ none ↦ u.oldtio | some fd ↦ port.attributes ];
  newtio = record {
    c_cflag = bit_or (bit_or (bit_or speed flags.cs8) flags.clocal) flags.cread;
    c_iflag = flags.ignpar;
    c_oflag = 0;
    c_lflag = flags.icanon;
  };
}

-- `line` over the start of a buffer that is at least as long.
unfoldable pub overwrite : (buffer line : List ℕ) → List ℕ
overwrite buffer [] = buffer
overwrite [] (c ∷ line) = c ∷ line
overwrite (b ∷ buffer) (c ∷ line) = c ∷ overwrite buffer line

-- The loop of reads and strcat; it ends at -1 and behind a text that is empty.
unfoldable pub gather : List (Option (List ℕ)) → List ℕ
gather [] = []
gather (none ∷ reads) = []
gather (some bytes ∷ reads) =
    let rest = gather reads in elim (c_string bytes) [ [] ↦ [] | c ∷ text ↦ (c ∷ text) ++ rest ]

-- What read delivers on the descriptor: without one it gives -1.
unfoldable pub delivered_by : Option ℕ → List (Option (List ℕ)) → List (Option (List ℕ))
delivered_by none reads = []
delivered_by (some fd) reads = reads

-- What uartCommand sends and returns.
pub record Answered : Type 0 where
  pub uart : Uart
  pub sent : List ℕ
  pub reply : List ℕ

abbrev pub s1_size : ℕ
s1_size = 20

-- uartCommand: `none` is a NULL pointer. The stores end at `s1[strlen(command) + 1]`, and strlen(s1)
-- stays inside if a NUL is left.
unfoldable pub uart_command : Port → Option (List ℕ) → Uart → Behaviour Answered
unfolding overwrite gather delivered_by
uart_command port none u = undefined
uart_command port (some command) u =
    let line = command ++ (10 ∷ 13 ∷ []) in
    let s1 = overwrite u.s1 line in
    if ltb s1_size (length line)
    then undefined
    else if length (c_string s1) == s1_size
    then undefined
    else defined (record {
      uart = record u { s1 = s1 };
      sent = c_string s1;
      reply = gather (delivered_by u.fd port.reads);
    })

-- uartDisconnect: the settings are put back behind the close.
unfoldable pub uart_disconnect : Uart → List PortCall
uart_disconnect u = close_port ∷ set_port u.oldtio ∷ []

-- One exchange, from connect to disconnect.
pub record Exchanged : Type 0 where
  pub uart : Uart
  pub calls : List PortCall
  pub reply : List ℕ

unfoldable pub exchanged : Behaviour Answered → Behaviour Exchanged
unfolding uart_disconnect
exchanged undefined = undefined
exchanged (defined a) = defined (record {
  uart = a.uart;
  calls = flush_port ∷ set_port a.uart.newtio ∷ write_port a.sent ∷ uart_disconnect a.uart;
  reply = a.reply;
})

unfoldable pub exchange_command : TermiosFlags → Port → Option (List ℕ) → Uart → Behaviour Exchanged
unfolding uart_connect uart_baudrate uart_command exchanged
exchange_command flags port command u =
    exchanged
      (uart_command port command (uart_baudrate flags port flags.baudrate (uart_connect port u)))

-- `main` of uart/uart.c, by its arguments behind the program's name: exit(1), -1, or the exchange.
pub data MainRun : Type 0 where
  input_command not_opened : MainRun
  answered : Behaviour Exchanged → MainRun

unfoldable pub uart_main : TermiosFlags → Port → List (List ℕ) → Uart → MainRun
unfolding exchange_command
uart_main flags port (command ∷ []) u = elim port.opened [
  | none ↦ not_opened
  | some fd ↦ answered (exchange_command flags port (some command) u)
]
uart_main flags port args u = input_command
