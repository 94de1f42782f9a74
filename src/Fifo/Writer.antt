-- ===== src/Fifo/Writer.antt =====
-- Course_MohanM/11_IPC/11_4_FIFO_Basics/11_4_1_Writer_End/main.c
use linux_system_programming.Sys.{
  Status, failed, done, pure, exit, call, do_call, attempt, ◌>>◌, failure,
}
use linux_system_programming.Base.{
  length, drop, ltb, ℕ, zero, suc, Bool, true, false, Option, none, some, List, ◌==◌, ◌+◌, [], ◌∷◌,
  ◌++◌,
}
use linux_system_programming.Mq.{strip}
use linux_system_programming.Fifo.{
  Main, Call, perror, print_error, stop_flag, open_fifo, close, fgets, write, value, eintr,
  bytes_of, sigaction,
}

-- `die(msg)` with its `cleanup()`; `opened` tells whether `fd` is not -1.
unfoldable pub die : {A : Type 0} → (message : Call) → (opened : Bool) → Main A
die message opened =
    do_call message
    >> (elim opened [ true ↦ do_call close | false ↦ pure tt ] >> exit (some failure))

-- `while (total_written < len)`, where `len` is the length of `buf` with its terminator
unfoldable pub send_payload : (buf : List ℕ) → (fuel total_written : ℕ) → Main (Unit {0})
unfolding die
send_payload buf zero total = exit none
send_payload buf (suc fuel) total = elim (ltb total (length buf)) [
  | false ↦ pure tt
  | true ↦ call stop_flag λ r. elim (value r == 0) [
    | false ↦ die (perror "W : Signal caught mid-write") true
    | true ↦ call (write (drop total buf)) (elim [
      | failed e ↦ elim (e == 32) [
        | true ↦ die (print_error "W : Broken pipe (no readers)\n") true
        | false ↦ elim (e == eintr) [
          | true ↦ call stop_flag λ r'. elim (value r' == 0) [
            | false ↦ die (perror "W : Signal caught mid-write") true
            | true ↦
                do_call
                  (print_error "W : Writing interrupted by a signal. Retrying the same write...")
                >> send_payload buf fuel total
          ]
          | false ↦ die (perror "W : Error sending the buffer to fifo") true
        ]
      ]
      | done n bytes ↦ send_payload buf fuel (total + n)
    ])
  ]
]

-- The two writes of a line: its length and then itself with the terminator.
unfoldable pub send_line : (write_fuel : ℕ) → (line : List ℕ) → Main (Unit {0})
unfolding die send_payload
send_line write_fuel line = call (write (bytes_of (length line + 1))) (elim [
  | failed e ↦ die (perror "W : Failed to write length") true
  | done n bytes ↦ elim (n == 4) [
    | true ↦ send_payload (line ++ (0 ∷ [])) write_fuel 0
    | false ↦ die (perror "W : Failed to write length") true
  ]
])

-- The `while (1)` loop
unfoldable pub send_lines : (write_fuel fuel : ℕ) → Main (Option Status)
unfolding die send_line
send_lines write_fuel zero = exit none
send_lines write_fuel (suc fuel) = call stop_flag λ r. elim (value r == 0) [
  | false ↦ die (perror "W : Signal caught mid-write") true
  | true ↦ call (fgets 256) (elim [
    | failed e ↦ die (perror "W : fgets failed") true
    | done n bytes ↦ send_line write_fuel (strip bytes) >> send_lines write_fuel fuel
  ])
]

unfoldable pub writer : (write_fuel fuel : ℕ) → Main (Option Status)
unfolding die send_lines
writer write_fuel fuel = do
  do_call (sigaction 2)
  do_call (sigaction 15)
  do_call (sigaction 1)
  do_call (sigaction 13)
  attempt open_fifo (die (perror "W : Opening fifo failed") false)
  send_lines write_fuel fuel
