-- ===== src/Pipe.antt =====
-- Programs that own a pipe: Course_MohanM/11_IPC/11_1_PIPE_Basics/main.c and
-- Course_MohanM/11_IPC/11_2_PIPE_with_Parent_and_Child/main.c. A status `none` means that the fuel of
-- a read loop ran out.
use linux_system_programming.Base.{
  codes, ℕ, zero, suc, String, true, false, Option, none, some, List, ◌==◌, if◌then◌else◌,
}
pub mod Ends
pub mod Sigpipe
mod Tests
use linux_system_programming.Sys.{
  failed, done, Prog, pure, exit, call, do_call, attempt, ◌>>=◌, ◌>>◌, Status, success, failure,
}

pub data End : Type 0 where
  reading_end writing_end : End

-- `fork` gives 0 to the child and its number to the parent. `show` prints what was read.
pub data Call : Type 0 where
  perror print_error : String → Call
  pipe fork wait : Call
  read : End → (at_once : ℕ) → Call
  write : End → List ℕ → Call
  close : End → Call
  sleep : ℕ → Call
  show : List ℕ → Call

abbrev pub Main : Type 0 → Type 0
Main A = Prog Call (Option Status) A

-- A message and `exit(EXIT_FAILURE)`
abbrev pub die : {A : Type 0} → Call → Main A
die m = do_call m >> exit (some failure)

-- `while ((bytes_read = read(…, BYTES_TO_READ_AT_ONCE)) > 0)`, and the test for -1 after it
unfoldable pub read_all : (fuel : ℕ) → Main (Unit {0})
read_all zero = exit none
read_all (suc fuel) = call (read reading_end 6) (elim [
  | failed e ↦ die (perror "read")
  | done n bytes ↦ elim (n == 0) [ true ↦ pure tt | false ↦ do_call (show bytes) >> read_all fuel ]
])

unfoldable pub pipe_basics : (fuel : ℕ) → Main (Option Status)
unfolding read_all
pipe_basics fuel = do
  attempt pipe (die (perror "Error opening the pipe\n"))
  attempt (write writing_end (codes "PIPE data flow demo\n"))
      (die (perror "Error writing to pipe\n"))
  attempt (close writing_end) (die (perror "Error closing writing end of the pipe\n"))
  read_all fuel
  attempt (close reading_end) (die (perror "close read end"))
  pure (some success)

-- The child's `while (1)`
unfoldable pub listen : (fuel : ℕ) → Main (Unit {0})
listen zero = exit none
listen (suc fuel) = call (read reading_end 8) (elim [
  | failed e ↦ die (print_error "-C : Error reading the pipe\n")
  | done n bytes ↦ elim (n == 0) [
    | true ↦ call (close reading_end) (elim [
      | failed e ↦ die (print_error "-C : Error closing the reading end of the pipe\n")
      | done m bs ↦ pure tt
    ])
    | false ↦ do_call (show bytes) >> listen fuel
  ]
])

-- `case 0` of the switch on `cpid`
unfoldable pub child : (fuel : ℕ) → Main (Option Status)
unfolding listen
child fuel = do
  attempt (close writing_end) (die (print_error "-C : Error closing fd[%d]\n"))
  listen fuel
  exit (some success)

-- What follows the switch
unfoldable pub parent : Main (Option Status)
parent = do
  call (close reading_end) (elim [
    | failed e ↦ do_call (print_error "P : Error closing the reading end of the pipe\n")
    | done n bytes ↦ pure tt
  ])
  do_call (sleep 2)
  attempt (write writing_end (codes "123456789ABCDEF"))
      (die (perror "P : Error writing buf to pipe's writing end\n"))
  call (close writing_end) (elim [
    | failed e ↦ do_call (perror "P : Error closing the writing end of the pipe on my side\n")
    | done n bytes ↦ pure tt
  ])
  attempt wait (die (perror "P : Error waiting for the child\n"))
  exit (some success)

unfoldable pub pipe_with_child : (fuel : ℕ) → Main (Option Status)
unfolding child parent
pipe_with_child fuel = do
  attempt pipe (die (perror "P : Error creating pipe\n"))
  cpid ← attempt fork (die (perror "P : Error forking\n"))
  if cpid == 0 then child fuel else parent
