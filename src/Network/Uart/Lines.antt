-- ===== src/Network/Uart/Lines.antt =====
-- What uartCommand of network-module/uart.c sends in one command after the other: its buffer is
-- static and is never cleared.
use c_modules.Base.{
  ℕ, ◌+◌, ◌-◌, ◌≤◌, ◌<◌, ◌≢◌, List, [], ◌∷◌, ◌++◌, ◌≡◌, refl, ap, ◌∙◌, sym, arith, some, defined,
  length, drop, replicate, c_string, IsPlain, All-append, drop-IsPlain, length-drop, length-append,
  length-replicate, c_string-plain, drop-padded, ne→==, le→ltb,
}
use mathlib.Core.List.{append_assoc}
use c_modules.Network.Uart.{
  Uart, Port, overwrite, gather, delivered_by, Answered, uart_command, s1_size,
}

pub overwrite_lem :
    (buffer line : List ℕ)
    → length line ≤ length buffer
    → overwrite buffer line ≡ line ++ drop (length line) buffer
unfolding overwrite
overwrite_lem buffer [] h = refl
overwrite_lem [] (c ∷ line) h = absurd (omega arith)
overwrite_lem (b ∷ buffer) (c ∷ line) h = ap (λ t. c ∷ t) (overwrite_lem buffer line (omega arith))

-- What the buffer holds: a text without a NUL, shorter than it, and NULs.
pub record Holds (u : Uart) (text : List ℕ) : Type 0 where
  pub plain : IsPlain text
  pub short : length text < s1_size
  pub padded : u.s1 ≡ text ++ replicate (s1_size - length text) 0

-- The line of a command over an older one.
abbrev pub over : (command old : List ℕ) → List ℕ
over command old = let line = command ++ (10 ∷ 13 ∷ []) in line ++ drop (length line) old

module _ (command old : List ℕ) where
  over-IsPlain : IsPlain command → IsPlain old → IsPlain (over command old)
  over-IsPlain h k =
      let line = command ++ (10 ∷ 13 ∷ []) in
      All-append _ line _ (All-append _ command _ h (omega arith, (omega arith, _)))
        (drop-IsPlain (length line) old k)

  length-over :
      length (over command old) ≡ (length command + 2) + (length old - (length command + 2))
  length-over =
      let line = command ++ (10 ∷ 13 ∷ []) in
      omega (
        arith,
        length-append line (drop (length line) old),
        length-drop (length line) old,
        length-append command (10 ∷ 13 ∷ []),
      )

-- A command without a NUL and of at most 17 bytes, shorter than the buffer with its line end.
module _ (port : Port) (command old : List ℕ) (u : Uart) (plain : IsPlain command)
    (short : length command ≤ 17) (holds : Holds u old) where
  overwritten :
      overwrite u.s1 (command ++ (10 ∷ 13 ∷ []))
      ≡ over command old ++ replicate (s1_size - length (over command old)) 0
  overwritten =
      let line = command ++ (10 ∷ 13 ∷ []) in
      let n : length line ≡ length command + 2 = length-append command (10 ∷ 13 ∷ []) in
      let k = s1_size - length old in
      let size = length-append old (replicate k 0) in
      let fits : length line ≤ length (old ++ replicate k 0) =
        omega (arith, n, size, length-replicate k 0, holds.short) in
      let count : k - (length line - length old) ≡ s1_size - length (over command old) =
        omega (arith, n, length-over command old, holds.short) in
      ap (λ b. overwrite b line) holds.padded
      ∙ overwrite_lem (old ++ replicate k 0) line fits
      ∙ ap (λ t. line ++ t) (drop-padded (length line) old k)
      ∙ sym (append_assoc line (drop (length line) old) _)
      ∙ ap (λ m. over command old ++ replicate m 0) count

  over-Holds :
      Holds
        (record u { s1 = over command old ++ replicate (s1_size - length (over command old)) 0 })
        (over command old)
  over-Holds = record {
    plain = over-IsPlain command old plain holds.plain;
    short = omega (arith, length-over command old, holds.short, short);
    padded = refl;
  }

  -- With a buffer that holds an older text, a command without a NUL and of at most 17 bytes is sent
  -- with its line end, and behind it goes what the older text has behind that many bytes. The reply
  -- is what the reads gather, the buffer holds the text that was sent, and nothing else changes.
  pub uart_command-Holds :
      (a : Answered) × (uart_command port (some command) u ≡ defined a)
      × (a.sent ≡ over command old)
      × (a.reply ≡ gather (delivered_by u.fd port.reads))
      × (a.uart ≡ record u { s1 = a.uart.s1 })
      × Holds a.uart (over command old)
  unfolding uart_command
  uart_command-Holds =
      let line = command ++ (10 ∷ 13 ∷ []) in
      let sent = over command old in
      let s1 = sent ++ replicate (s1_size - length sent) 0 in
      let fits : length line ≤ s1_size =
        omega (arith, length-append command (10 ∷ 13 ∷ []), short) in
      let text : c_string s1 ≡ sent = c_string-plain sent _ over-Holds.plain in
      let room : length (c_string s1) ≢ s1_size = rw text (omega (arith, over-Holds.short)) in
      (
        record {
          uart = record u { s1 = s1 };
          sent = c_string s1;
          reply = gather (delivered_by u.fd port.reads);
        },
        rw
            (
              le→ltb s1_size (length line) fits,
              overwritten,
              ne→== (length (c_string s1)) s1_size room,
            )
            refl,
        text,
        refl,
        refl,
        over-Holds,
      )
