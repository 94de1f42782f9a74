-- ===== src/PollFifo/Writer.antt =====
-- Course_MohanM/11_IPC/11_5_FIFO_Real_Life_Example_with_poll_and_O_NONBLOCK/
-- 11_5_1_Writer/main.c
use linux_system_programming.Fifo.{
  Main, Call, perror, print_error, stop_flag, open_fifo, close, fgets, write, value, eintr,
  bytes_of, sigaction, poll,
}
use linux_system_programming.Mq.{strip}
use linux_system_programming.PollFifo.{pollout, eagain}
use linux_system_programming.Sys.{
  Status, failed, done, pure, exit, call, do_call, attempt, ◌>>◌, failure,
}
use linux_system_programming.Base.{
  length, drop, ltb, ℕ, zero, suc, String, Bool, true, false, Option, none, some, List, ◌==◌, ◌+◌,
  ◌&&◌, [], ◌∷◌, ◌++◌,
}

-- `die(msg)` with its `cleanup()`; `opened` tells whether `fd` is not -1.
unfoldable pub die : {A : Type 0} → (message : Call) → (opened : Bool) → Main A
die message opened =
    do_call message
    >> (elim opened [ true ↦ do_call close | false ↦ pure tt ] >> exit (some failure))

-- The messages of the two loops on `write`
abbrev pub write_failed : (payload : Bool) → String
write_failed true = "W : Error sending the buffer to fifo"
write_failed false = "W : Failed to write length"

-- After an interruption only the loop of the payload prints.
unfoldable pub retry : (payload : Bool) → (again : Main (Unit {0})) → Main (Unit {0})
retry true again =
    do_call (print_error "W : Writing interrupted by a signal. Retrying the same write...") >> again
retry false again = again

-- `write` returned -1; `again` is the next turn of the loop. Only the loop of the payload looks for EPIPE.
unfoldable pub write_error :
    (payload : Bool) → (errno : ℕ) → (again : Main (Unit {0})) → Main (Unit {0})
unfolding die retry
write_error payload errno again = elim (payload && (errno == 32)) [
  | true ↦ die (print_error "W : Broken pipe (no readers)\n") true
  | false ↦ elim (errno == eintr) [
    | true ↦ call stop_flag λ r. elim (value r == 0) [
      | false ↦ die (perror "W : Signal caught mid-write") true
      | true ↦ retry payload again
    ]
    | false ↦ elim (errno == eagain) [
      | true ↦ again
      | false ↦ die (perror (write_failed payload)) true
    ]
  ]
]

-- The two loops on `write`, until all of `buf` is sent; `total` is `total_written`.
unfoldable pub send_all : (payload : Bool) → (buf : List ℕ) → (fuel total : ℕ) → Main (Unit {0})
unfolding write_error
send_all payload buf zero total = exit none
send_all payload buf (suc fuel) total = elim (ltb total (length buf)) [
  | false ↦ pure tt
  | true ↦ call (write (drop total buf)) (elim [
    | failed e ↦ write_error payload e (send_all payload buf fuel total)
    | done n bytes ↦ send_all payload buf fuel (total + n)
  ])
]

-- What the loop does with a line: its length and then itself, with the terminator.
unfoldable pub send_frame : (write_fuel : ℕ) → (line : List ℕ) → Main (Unit {0})
unfolding send_all
send_frame write_fuel line =
    send_all false (bytes_of (length line + 1)) write_fuel 0
    >> send_all true (line ++ (0 ∷ [])) write_fuel 0

-- The `while (!stop_flag)` loop. `poll` may return -1, and 0 after its timeout.
unfoldable pub send_lines : (write_fuel fuel : ℕ) → Main (Option Status)
unfolding die send_frame
send_lines write_fuel zero = exit none
send_lines write_fuel (suc fuel) = call stop_flag λ r. elim (value r == 0) [
  | false ↦ die (perror "W : Signal caught") true
  | true ↦ call (poll pollout) (elim [
    | failed e ↦ send_lines write_fuel fuel
    | done n revents ↦ elim (n == 0) [
      | true ↦ send_lines write_fuel fuel
      | false ↦ call (fgets 256) (elim [
        | failed e ↦ die (perror "W : fgets failed") true
        | done m bytes ↦ send_frame write_fuel (strip bytes) >> send_lines write_fuel fuel
      ])
    ]
  ])
]

unfoldable pub poll_writer : (write_fuel fuel : ℕ) → Main (Option Status)
unfolding die send_lines
poll_writer write_fuel fuel = do
  do_call (sigaction 2)
  do_call (sigaction 15)
  do_call (sigaction 1)
  do_call (sigaction 13)
  attempt open_fifo (die (perror "W : Opening fifo failed") false)
  send_lines write_fuel fuel
