-- ===== src/DriverTest.antt =====
-- driver-test/main.c: a program that writes a message through the driver of hello-driver, or reads it.
pub mod Memories
pub mod Message
mod Examples
use c_modules.Base.{
  ℕ, zero, suc, ◌+◌, Bool, true, false, Option, none, some, List, [], ◌∷◌, ◌++◌, ◌==◌,
  if◌then◌else◌, length, codes, c_string, Memory, write, Behaviour, defined, undefined,
}
use c_modules.Hello.Ioctl.{HelloCodes, Process, Pipe, Transfer, Outcome, returned, waits, overruns}
use c_modules.Hello.Files.{IoctlCall, ioctl}

unfoldable pub same_bytes : (s t : List ℕ) → Bool
same_bytes [] [] = true
same_bytes [] (d ∷ t) = false
same_bytes (c ∷ s) [] = false
same_bytes (c ∷ s) (d ∷ t) = let rest = same_bytes s t in if c == d then rest else false

-- strcpy without the NUL, and the bytes of a block.
unfoldable pub store_bytes : Memory → (at : ℕ) → List ℕ → Memory
store_bytes m at [] = m
store_bytes m at (c ∷ cs) = write (store_bytes m (at + 1) cs) at c

unfoldable pub read_bytes : Memory → (at n : ℕ) → List ℕ
read_bytes m at zero = []
read_bytes m at (suc n) = m at ∷ read_bytes m (at + 1) n

-- What the program finds: the minor number of the file that open gives, the block that malloc gives,
-- where `data` is, what is in its other fields, its memory, and what a copy reaches.
pub record TestEnvironment : Type 0 where
  pub opened : Option ℕ
  pub block : ℕ
  pub argument : ℕ
  pub unset : ℕ
  pub memory : Memory
  pub reached : (address n : ℕ) → ℕ

-- The call that "w" makes of its text, which strcpy has put into the block.
unfoldable pub write_ioctl :
    HelloCodes → TestEnvironment → (minor : ℕ) → (text : List ℕ) → IoctlCall
unfolding store_bytes
write_ioctl header env minor text = record {
  minor = minor;
  process = record {
    memory = store_bytes env.memory env.block (text ++ (0 ∷ []));
    transfer_at = λ a. record { len = length text; tx_buf = env.block; rx_buf = env.unset };
    reached = env.reached;
  };
  req = header.hello_write;
  arg = env.argument;
}

abbrev pub read_len : ℕ
read_len = 1024

-- The call that "r" makes.
unfoldable pub read_ioctl : HelloCodes → TestEnvironment → (minor : ℕ) → IoctlCall
read_ioctl header env minor = record {
  minor = minor;
  process = record {
    memory = env.memory;
    transfer_at = λ a. record { len = read_len; tx_buf = env.unset; rx_buf = env.block };
    reached = env.reached;
  };
  req = header.hello_read;
  arg = env.argument;
}

-- `%s` on a block: without a NUL, printf reads on behind it.
unfoldable pub print_string : List ℕ → Behaviour (List ℕ)
print_string block =
    if length (c_string block) == length block then undefined else defined (c_string block)

-- What the program prints: an error, what ioctl returned, or that with the length in `data` and the
-- string.
pub data Printed : Type 0 where
  open_error command_error : Printed
  wrote : (io_ret : ℕ) → Printed
  got : (len : ℕ) → (string : Behaviour (List ℕ)) → (io_ret : ℕ) → Printed

-- A run of the program: with the pipe behind it, or stuck in a call that waits for ever or runs over the
-- driver's buffer, or with an argument that is NULL.
pub data TestRun : Type 0 where
  test_ended : Printed → Pipe → TestRun
  stuck : Outcome → TestRun
  null_argument : TestRun

unfoldable pub after_write : Outcome → TestRun
after_write (returned io_ret pipe memory) = test_ended (wrote io_ret) pipe
after_write waits = stuck waits
after_write overruns = stuck overruns

unfoldable pub after_read : (block : ℕ) → Outcome → TestRun
unfolding read_bytes print_string
after_read block (returned io_ret pipe memory) =
    test_ended (got read_len (print_string (read_bytes memory block (read_len + 1))) io_ret) pipe
after_read block waits = stuck waits
after_read block overruns = stuck overruns

-- The branches on argv[1], with what stands behind argv[2].
unfoldable pub run_test :
    HelloCodes → TestEnvironment → (minor : ℕ) → (command : List ℕ) → List (List ℕ) → Pipe → TestRun
unfolding same_bytes write_ioctl read_ioctl after_write after_read
run_test header env minor command [] pipe =
    if same_bytes command (codes "w")
    then null_argument
    else if same_bytes command (codes "r")
    then after_read env.block (ioctl header (read_ioctl header env minor) pipe)
    else test_ended command_error pipe
run_test header env minor command (text ∷ more) pipe =
    if same_bytes command (codes "w")
    then after_write (ioctl header (write_ioctl header env minor text) pipe)
    else if same_bytes command (codes "r")
    then after_read env.block (ioctl header (read_ioctl header env minor) pipe)
    else test_ended command_error pipe

-- `main`, by its arguments behind the program's name. Of one argument, open gets a NULL and fails.
unfoldable pub driver_test : HelloCodes → TestEnvironment → List (List ℕ) → Pipe → TestRun
unfolding run_test
driver_test header env [] pipe = null_argument
driver_test header env (command ∷ []) pipe = test_ended open_error pipe
driver_test header env (command ∷ device ∷ more) pipe = elim env.opened [
  | none ↦ test_ended open_error pipe
  | some minor ↦ run_test header env minor command more pipe
]
