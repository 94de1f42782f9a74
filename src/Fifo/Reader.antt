-- ===== src/Fifo/Reader.antt =====
-- Course_MohanM/11_IPC/11_4_FIFO_Basics/11_4_2_Reader_End/main.c
use linux_system_programming.Sys.{
  Status, attempt, failed, done, pure, exit, call, do_call, ◌>>=◌, ◌>>◌, failure, success,
}
use linux_system_programming.Base.{
  String, Option, ◌+◌, ◌||◌, length, ltb, ℕ, zero, suc, Bool, true, false, none, some, List, ◌==◌,
  ◌-◌, [], ◌∷◌, ◌++◌,
}
use linux_system_programming.Fifo.{
  Main, Call, perror, print_error, printf, stop_flag, mkfifo, open_fifo, close, unlink, malloc,
  free, read, show, value, eintr, of_bytes, c_string, sigaction,
}

-- `cleanup()`; `opened` tells whether `fd` is not -1.
unfoldable pub cleanup : (opened : Bool) → Main (Unit {0})
cleanup opened = elim opened [ true ↦ do_call close | false ↦ pure tt ] >> do_call unlink

-- `die(msg, buf)`; `has_buffer` tells whether `buf` is not NULL.
unfoldable pub die : {A : Type 0} → (message : Call) → (opened has_buffer : Bool) → Main A
unfolding cleanup
die message opened has_buffer =
    do_call message
    >> (elim has_buffer [ true ↦ do_call free | false ↦ pure tt ]
        >> (cleanup opened >> exit (some failure)))

unfoldable pub at_eof : (payload : Bool) → Main (List ℕ)
unfolding die cleanup
at_eof true = die (print_error "R : Writer closed FIFO mid-message\n") true true
at_eof false = do_call (printf "R : Writer closed FIFO\n") >> (cleanup true >> exit (some success))

-- The messages of the two loops
abbrev pub read_failed : (payload : Bool) → String
read_failed true = "R : Error reading payload"
read_failed false = "R : Failed to read length"

abbrev pub caught : (payload : Bool) → String
caught true = "R : Signal caught mid-read"
caught false = "R : Signal caught mid-read."

abbrev pub interrupted : (payload : Bool) → String
interrupted true = "R : Read interrupted, retrying...\n"
interrupted false = "R : Read interrupted by a signal, retrying...\n"

-- One `read` of these loops
unfoldable pub read_more :
    (size : ℕ) → (payload : Bool) → (rest : List ℕ → Main (List ℕ)) → (got : List ℕ) → Main (List ℕ)
unfolding die at_eof
read_more size payload rest got = call (read (size - length got)) (elim [
  | failed e ↦ elim (e == eintr) [
    | true ↦ call stop_flag λ r. elim (value r == 0) [
      | true ↦ do_call (print_error (interrupted payload)) >> rest got
      | false ↦ die (perror (caught payload)) true payload
    ]
    | false ↦ die (perror (read_failed payload)) true payload
  ]
  | done n bytes ↦ elim bytes [ [] ↦ at_eof payload | b ∷ bs ↦ rest (got ++ (b ∷ bs)) ]
])

-- The two loops on `read`, for the length and for the payload, until `size` bytes are there. `got` is
-- the buffer so far, and its length is `total_read`. Only the payload has a buffer to free.
unfoldable pub fill : (size : ℕ) → (payload : Bool) → (fuel : ℕ) → (got : List ℕ) → Main (List ℕ)
unfolding read_more die
fill size payload zero got = exit none
fill size payload (suc fuel) got = elim (ltb (length got) size) [
  | false ↦ pure got
  | true ↦ elim payload [
    | false ↦ read_more size false (fill size false fuel) got
    | true ↦ call stop_flag λ r. elim (value r == 0) [
      | true ↦ read_more size true (fill size true fuel) got
      | false ↦ die (perror "R : Signal caught mid-read") true true
    ]
  ]
]

-- What the loop does once the payload is there.
unfoldable pub show_message :
    (rest : Main (Option Status)) → (buf_read : List ℕ) → Main (Option Status)
show_message rest buf_read = do do_call (show (c_string (buf_read ++ (0 ∷ [])))); do_call free; rest

-- What the loop does once the length is there.
unfoldable pub receive :
    (read_fuel : ℕ) → (rest : Main (Option Status)) → (msg_len : ℕ) → Main (Option Status)
unfolding die show_message
receive read_fuel rest msg_len = elim (msg_len == 0 || ltb 256 msg_len) [
  | true ↦ die (print_error "R : Invalid message length %u\n") true false
  | false ↦ do
    attempt (malloc (msg_len + 1)) (die (perror "Malloc failed") true false)
    fill msg_len true read_fuel [] >>= show_message rest
]

-- The `while (1)` loop
unfoldable pub serve : (read_fuel fuel : ℕ) → Main (Option Status)
unfolding receive die
serve read_fuel zero = exit none
serve read_fuel (suc fuel) = call stop_flag λ r. elim (value r == 0) [
  | false ↦ die (perror "R : Signal caught") true false
  | true ↦ fill 4 false read_fuel [] >>= λ length_bytes.
      receive read_fuel (serve read_fuel fuel) (of_bytes length_bytes)
]

-- `mkfifo` may find the FIFO there (EEXIST).
unfoldable pub make_fifo : Main (Unit {0})
unfolding die
make_fifo = call mkfifo (elim [
  | failed e ↦ elim (e == 17) [
    | true ↦ do_call (printf "R : Reusing the existing FIFO already.\n")
    | false ↦ die (perror "R : Creating fifo failed") false false
  ]
  | done n bytes ↦ pure tt
])

unfoldable pub reader : (read_fuel fuel : ℕ) → Main (Option Status)
unfolding serve die make_fifo
reader read_fuel fuel = do
  do_call (sigaction 2)
  do_call (sigaction 15)
  do_call (sigaction 1)
  make_fifo
  attempt open_fifo (die (perror "R : Opening FIFO failed") false false)
  serve read_fuel fuel
