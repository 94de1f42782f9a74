-- ===== src/PollFifo/Reader.antt =====
-- Course_MohanM/11_IPC/11_5_FIFO_Real_Life_Example_with_poll_and_O_NONBLOCK/
-- 11_5_2_Reader/main.c
use linux_system_programming.Fifo.{
  Main, Call, perror, print_error, printf, stop_flag, mkfifo, open_fifo, close, unlink, malloc,
  free, read, show, value, eintr, of_bytes, c_string, sigaction, poll,
}
use linux_system_programming.PollFifo.{pollin, eagain, has_pollin}
use linux_system_programming.Sys.{
  Status, failed, done, pure, exit, call, do_call, attempt, ◌>>=◌, ◌>>◌, failure, success,
}
use linux_system_programming.Base.{
  length, ltb, ℕ, zero, suc, String, Bool, true, false, Option, none, some, List, ◌==◌, ◌+◌, ◌-◌,
  ◌||◌, [], ◌∷◌, ◌++◌,
}

-- `cleanup()`; `opened` tells whether `fd` is not -1.
unfoldable pub cleanup : (opened : Bool) → Main (Unit {0})
cleanup opened = elim opened [ true ↦ do_call close | false ↦ pure tt ] >> do_call unlink

-- `die(msg, buf)`; `has_buffer` tells whether `buf` is not NULL.
unfoldable pub die : {A : Type 0} → (message : Call) → (opened has_buffer : Bool) → Main A
unfolding cleanup
die message opened has_buffer =
    do_call message
    >> (elim has_buffer [ true ↦ do_call free | false ↦ pure tt ]
        >> (cleanup opened >> exit (some failure)))

-- The messages of the two loops on `read`
abbrev pub read_failed : (payload : Bool) → String
read_failed true = "R : Error reading payload"
read_failed false = "R : Failed to read length"

abbrev pub caught : (payload : Bool) → String
caught true = "R : Signal caught mid-read"
caught false = "R : Signal caught mid-read."

abbrev pub interrupted : (payload : Bool) → String
interrupted true = "R : Read interrupted, retrying...\n"
interrupted false = "R : Read interrupted by a signal, retrying...\n"

-- `read` returned -1; `again` is the next turn of the loop.
unfoldable pub read_error : (payload : Bool) → (errno : ℕ) → (again : Main (List ℕ)) → Main (List ℕ)
unfolding die
read_error payload errno again = elim (errno == eintr) [
  | true ↦ call stop_flag λ r. elim (value r == 0) [
    | true ↦ do_call (print_error (interrupted payload)) >> again
    | false ↦ die (perror (caught payload)) true payload
  ]
  | false ↦ elim (errno == eagain) [
    | true ↦ again
    | false ↦ die (perror (read_failed payload)) true payload
  ]
]

-- `read` returned 0.
unfoldable pub at_end : (payload : Bool) → Main (List ℕ)
unfolding die cleanup
at_end true = die (print_error "R : Writer closed FIFO mid-message\n") true true
at_end false = do_call (printf "R : Writer closed FIFO\n") >> (cleanup true >> exit (some success))

-- The two loops on `read`, until `size` bytes are there. `got` is the buffer so far, and its length is
-- `total_read`.
unfoldable pub fill : (size : ℕ) → (payload : Bool) → (fuel : ℕ) → (got : List ℕ) → Main (List ℕ)
unfolding read_error at_end
fill size payload zero got = exit none
fill size payload (suc fuel) got = elim (ltb (length got) size) [
  | false ↦ pure got
  | true ↦ call (read (size - length got)) (elim [
    | failed e ↦ read_error payload e (fill size payload fuel got)
    | done n bytes ↦ elim bytes [
      | [] ↦ at_end payload
      | b ∷ bs ↦ fill size payload fuel (got ++ (b ∷ bs))
    ]
  ])
]

-- What the loop does once the payload is there; `rest` is its next turn.
unfoldable pub show_payload :
    (msg_len : ℕ) → (rest : Main (Option Status)) → (buf_read : List ℕ) → Main (Option Status)
show_payload msg_len rest buf_read = elim (ltb (length buf_read) msg_len) [
  | true ↦ do_call free >> rest
  | false ↦ do_call (show (c_string (buf_read ++ (0 ∷ [])))) >> (do_call free >> rest)
]

-- What the loop does once the length is there.
unfoldable pub receive :
    (read_fuel : ℕ) → (rest : Main (Option Status)) → (msg_len : ℕ) → Main (Option Status)
unfolding die fill show_payload
receive read_fuel rest msg_len = elim (msg_len == 0 || ltb 256 msg_len) [
  | true ↦ die (print_error "R : Invalid message length %u\n") true false
  | false ↦ do
    attempt (malloc (msg_len + 1)) (die (perror "Malloc failed") true false)
    fill msg_len true read_fuel [] >>= show_payload msg_len rest
]

-- The turn of the loop in which the length has been read.
unfoldable pub take_length :
    (read_fuel : ℕ) → (rest : Main (Option Status)) → (length_bytes : List ℕ) → Main (Option Status)
unfolding receive
take_length read_fuel rest length_bytes = elim (ltb (length length_bytes) 4) [
  | true ↦ rest
  | false ↦ receive read_fuel rest (of_bytes length_bytes)
]

-- The `while (!stop_flag)` loop
unfoldable pub serve : (read_fuel fuel : ℕ) → Main (Option Status)
unfolding take_length die fill
serve read_fuel zero = exit none
serve read_fuel (suc fuel) = call stop_flag λ r. elim (value r == 0) [
  | false ↦ die (perror "R : Signal caught") true false
  | true ↦ call (poll pollin) (elim [
    | failed e ↦ elim (e == eintr) [
      | true ↦ serve read_fuel fuel
      | false ↦ die (perror "R : poll failed") true false
    ]
    | done n revents ↦ elim (n == 0) [
      | true ↦ serve read_fuel fuel
      | false ↦ elim (has_pollin revents) [
        | true ↦ fill 4 false read_fuel [] >>= take_length read_fuel (serve read_fuel fuel)
        | false ↦ serve read_fuel fuel
      ]
    ]
  ])
]

-- `mkfifo` may find the FIFO there (EEXIST).
unfoldable pub make_fifo : Main (Unit {0})
unfolding die
make_fifo = call mkfifo (elim [
  | failed e ↦ elim (e == 17) [
    | true ↦ do_call (printf "R : Reusing the existing FIFO already.\n")
    | false ↦ die (perror "R : Creating fifo failed") false false
  ]
  | done n bytes ↦ do_call (printf "R : FIFO created successfully.\n")
])

unfoldable pub poll_reader : (read_fuel fuel : ℕ) → Main (Option Status)
unfolding serve die make_fifo
poll_reader read_fuel fuel = do
  do_call (sigaction 2)
  do_call (sigaction 15)
  do_call (sigaction 1)
  make_fifo
  attempt open_fifo (die (perror "R : Opening FIFO failed") false false)
  serve read_fuel fuel
