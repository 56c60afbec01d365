-- ===== src/Network/Request.antt =====
-- The requests of network-module/kvmnetwork.c: processUDPRequest and processTCPRequest.
pub mod Arguments
pub mod Commands
pub mod Replies
pub mod Udp
use c_modules.Base.{
  Received, recv_error, bytes, take, ℕ, zero, suc, Bool, true, false, Option, none, some, List, [],
  ◌∷◌, ◌-◌, ◌++◌, ◌==◌, ltb, if◌then◌else◌, length, map, get_or, drop, c_string, codes, replicate,
  Behaviour, defined, undefined,
}
use c_modules.Tokens.{Tokens, strtok, string_at}
use c_modules.Network.Uart.{TermiosFlags, Port, Uart, Exchanged, overwrite, exchange_command}

abbrev pub buf_size : ℕ
buf_size = 1024

-- The text goes to the start of buf, with a NUL behind it.
unfoldable pub receive : List ℕ → (buf : List ℕ) → List ℕ
unfolding overwrite
receive text buf = overwrite buf (text ++ (0 ∷ []))

-- The pieces of buf behind the words that strArgv holds, with the NULL behind the last; `none` is
-- NULL. Without a piece nothing is stored.
unfoldable pub add_arguments : (starts : List ℕ) (argv : List (Option ℕ)) → List (Option ℕ)
add_arguments [] argv = argv
add_arguments (start ∷ starts) argv = argv ++ (map some (start ∷ starts) ++ (none ∷ []))

abbrev pub argv_size : ℕ
argv_size = 5

-- strArgv[i] as a string: `none` is a pointer that is NULL or not set.
unfoldable pub string_of : (buf : List ℕ) → Option ℕ → Option (List ℕ)
unfolding string_at
string_of buf none = none
string_of buf (some start) = some (string_at buf start)

unfoldable pub argument : (buf : List ℕ) (argv : List (Option ℕ)) → ℕ → Option (List ℕ)
unfolding string_of
argument buf argv i = string_of buf (get_or argv i none)

unfoldable pub is_prefix : List ℕ → List ℕ → Bool
is_prefix [] text = true
is_prefix (c ∷ cs) [] = false
is_prefix (c ∷ cs) (b ∷ text) = let rest = is_prefix cs text in if c == b then rest else false

-- memcmp with a word at a place of buf, of which every byte has to be there.
unfoldable pub compare_at : (buf : List ℕ) → Option ℕ → (word : List ℕ) → Behaviour Bool
unfolding is_prefix
compare_at buf none word = undefined
compare_at buf (some start) word =
    let text = drop start buf in
    if ltb (length text) (length word) then undefined else defined (is_prefix word text)

abbrev pub kvm : List ℕ
kvm = codes "KVM"

abbrev pub po_channel : List ℕ
po_channel = codes "PoChannel"

-- snprintf's "echo %s > /tmp/robot_receiver" in 255 bytes.
unfoldable pub channel_command : List ℕ → List ℕ
channel_command value = take 254 (codes "echo " ++ (value ++ codes " > /tmp/robot_receiver"))

-- One request: the exchange with the device, buf behind it, and the text that is sent. Or the
-- commands that system has run before an access that C leaves undefined.
pub data Handled : Type 0 where
  replied : Exchanged → (buf text : List ℕ) → Handled
  undefined_behind : List (List ℕ) → Handled

-- The reply goes to buf, behind which all is NUL.
unfoldable pub reply_with : Behaviour Exchanged → Handled
reply_with undefined = undefined_behind []
reply_with (defined e) =
    let text = take (buf_size - 1) e.reply in
    replied e (text ++ replicate (buf_size - length text) 0) text

-- The command of a word that is neither: retString is not set, or it is freed already.
unfoldable pub run_channel : Behaviour Bool → (value : Option (List ℕ)) → Handled
unfolding channel_command
run_channel (defined true) (some value) = undefined_behind (channel_command value ∷ [])
run_channel is_channel value = undefined_behind []

unfoldable pub dispatch :
    TermiosFlags → Port → Uart → (buf : List ℕ) (argv : List (Option ℕ)) → Behaviour Bool → Handled
unfolding argument reply_with compare_at run_channel
dispatch flags port u buf argv undefined = undefined_behind []
dispatch flags port u buf argv (defined true) =
    reply_with (exchange_command flags port (argument buf argv 1) u)
dispatch flags port u buf argv (defined false) =
    run_channel (compare_at buf (get_or argv 0 none) po_channel) (argument buf argv 1)

-- The text in buf, by the words that strArgv has by then.
unfoldable pub handle :
    TermiosFlags → Port → Uart → (buf : List ℕ) (argv : List (Option ℕ)) → Handled
unfolding dispatch compare_at
handle flags port u buf argv =
    if ltb argv_size (length argv)
    then undefined_behind []
    else dispatch flags port u buf argv (compare_at buf (get_or argv 0 none) kvm)

unfoldable pub comma : List ℕ
comma = codes ","

-- A text of recv from the tokens on.
unfoldable pub handle_text :
    TermiosFlags → Port → Uart → (buf : List ℕ) (argv : List (Option ℕ)) → (text : List ℕ) → Handled
unfolding handle strtok receive add_arguments comma
handle_text flags port u buf argv text =
    let tokens = strtok comma false (receive text buf) in
    if ltb (length text) buf_size
    then handle flags port u tokens.text (add_arguments tokens.starts argv)
    else undefined_behind []

-- processUDPRequest: -1 without a request, or the request and whether sendto took the reply.
pub data UdpRun : Type 0 where
  no_request : UdpRun
  handled : Handled → (sent : Bool) → UdpRun

unfoldable pub process_udp_request : TermiosFlags → Port → Uart → Received → (sent : Bool) → UdpRun
unfolding handle_text
process_udp_request flags port u recv_error sent = no_request
process_udp_request flags port u (bytes []) sent = no_request
process_udp_request flags port u (bytes (c ∷ text)) sent =
    handled (handle_text flags port u (replicate buf_size 0) [] (c ∷ text)) sent
