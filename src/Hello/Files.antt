-- ===== src/Hello/Files.antt =====
-- The files of hello-driver/hello.c: hello_open gives a file the operations of its minor number.
pub mod Runs
pub mod Stops
use c_modules.Base.{
  ℕ, Bool, true, false, Option, none, some, List, [], ◌∷◌, ◌==◌, if◌then◌else◌, Memory,
}
use c_modules.Hello.Ioctl.{
  HelloCodes, Process, Pipe, Outcome, returned, waits, overruns, hello_zero_ioctl, hello_one_ioctl,
}

-- The three tables of `struct file_operations`.
pub data FileOperations : Type 0 where
  hello_fops hello_zero_fops hello_one_fops : FileOperations

-- `f_op` and whether `private_data` points to the pipe.
pub record File : Type 0 where
  pub f_op : FileOperations
  pub has_device : Bool

-- A file as the kernel makes it, with the operations of the registered cdev.
abbrev pub new_file : File
new_file = record { f_op = hello_fops; has_device = false }

-- hello_zero_open and hello_one_open: `container_of` gives both the one pipe that is there.
unfoldable pub hello_zero_open : File → File
hello_zero_open file = record file { has_device = true }

unfoldable pub hello_one_open : File → File
hello_one_open file = record file { has_device = true }

-- hello_open
unfoldable pub hello_open : (minor : ℕ) → File → File
unfolding hello_zero_open hello_one_open
hello_open minor file =
    if minor == 0
    then hello_zero_open (record file { f_op = hello_zero_fops })
    else if minor == 1
    then hello_one_open (record file { f_op = hello_one_fops })
    else file

-- hello_ioctl
unfoldable pub hello_ioctl : Process → Pipe → Outcome
hello_ioctl p pipe = returned 0 pipe p.memory

-- `unlocked_ioctl` of a table.
unfoldable pub unlocked_ioctl :
    FileOperations → HelloCodes → Process → (req arg : ℕ) → Pipe → Outcome
unfolding hello_ioctl hello_zero_ioctl hello_one_ioctl
unlocked_ioctl hello_fops codes p req arg pipe = hello_ioctl p pipe
unlocked_ioctl hello_zero_fops codes p req arg pipe = hello_zero_ioctl codes p req arg pipe
unlocked_ioctl hello_one_fops codes p req arg pipe = hello_one_ioctl codes p req arg pipe

-- A call by a process, through a file that it opened.
pub record IoctlCall : Type 0 where
  pub minor : ℕ
  pub process : Process
  pub req : ℕ
  pub arg : ℕ

unfoldable pub ioctl : HelloCodes → IoctlCall → Pipe → Outcome
unfolding unlocked_ioctl hello_open
ioctl codes c pipe =
    unlocked_ioctl (hello_open c.minor new_file).f_op codes c.process c.req c.arg pipe

-- `read` and `write` of a table: `none` where it has no such function.
unfoldable pub read_file : FileOperations → Option ℕ
read_file hello_fops = none
read_file hello_zero_fops = some 0
read_file hello_one_fops = some 0

unfoldable pub write_file : FileOperations → Option ℕ
write_file hello_fops = none
write_file hello_zero_fops = some 0
write_file hello_one_fops = some 0

-- `release` of each table returns 0 and leaves the pipe alone.
unfoldable pub release : FileOperations → Pipe → ℕ × Pipe
release ops pipe = (0, pipe)

-- Calls one after the other; the results so far are kept where one waits or overruns.
pub data Ran : Type 0 where
  finished : List ℕ → Pipe → Ran
  stopped : List ℕ → Outcome → Ran

unfoldable pub add_result : ℕ → Ran → Ran
add_result r (finished rs pipe) = finished (r ∷ rs) pipe
add_result r (stopped rs o) = stopped (r ∷ rs) o

-- What follows a call.
unfoldable pub after_call : Outcome → (Pipe → Ran) → Ran
unfolding add_result
after_call (returned r after memory) next = add_result r (next after)
after_call waits next = stopped [] waits
after_call overruns next = stopped [] overruns

unfoldable pub run : HelloCodes → List IoctlCall → Pipe → Ran
run codes [] pipe = finished [] pipe
run codes (c ∷ cs) pipe = after_call (ioctl codes c pipe) (run codes cs)
