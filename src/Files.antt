-- ===== src/Files.antt =====
-- The helpers that the programs of Course_MohanM/2_File_Operations share in text: each main.c has its
-- own copy of `log_error` and `close_file_safer`, with its own buffer size.
use linux_system_programming.Sys.{Reply, failed, done, Prog, pure, call, do_call, ◌>>=◌, ◌>>◌}
use linux_system_programming.Base.{
  length, take, codes, ltb, ℕ, String, Bool, true, false, List, if◌then◌else◌, ◌-◌, [], ◌∷◌, ◌++◌,
}
pub mod Log
pub mod Write
pub mod Replace
pub mod Read
pub mod Descriptors
pub mod Open
pub mod Dup
pub mod Dup2
pub mod Returns
pub mod Faults
mod Tests

-- EXIT_TYPES and RETURN_TYPES. The programs number the codes differently.
pub data ExitType : Type 0 where
  success err_general err_file_open err_file_close err_write_encoding err_file_write err_file_read :
      ExitType

-- A descriptor as `dup` and `dup2` return it unchecked: -1 or a number.
pub data Fd : Type 0 where
  fd : ℕ → Fd
  bad : Fd

-- `read_errno` is the use of `errno`. `printf` puts its text into the buffer of `stdout`. `write` carries the bytes that it is asked to write.
pub data Call : Type 0 where
  open_file : String → Call
  write : Fd → List ℕ → Call
  close : Fd → Call
  dup : Fd → Call
  dup2 : (old new : Fd) → Call
  read_errno : Call
  printf : List ℕ → Call

abbrev pub fd_stdout : Fd
fd_stdout = fd 1

abbrev pub fd_stderr : Fd
fd_stderr = fd 2

-- What `snprintf` leaves in a buffer of `size` bytes up to its terminator; it returns the length of
-- the whole text.
abbrev pub snprintf : ℕ → List ℕ → List ℕ
snprintf size text = take (size - 1) text ++ (0 ∷ [])

-- `if (len > SIZE) len = SIZE - 1;`
abbrev pub cap_length : ℕ → ℕ → ℕ
cap_length size len = if ltb size len then size - 1 else len

-- The bytes that a log call hands to `write`.
unfoldable pub logged : ℕ → List ℕ → List ℕ
logged size text = take (cap_length size (length text)) (snprintf size text)

-- `strerror` and the `%d`, `%zu` of `snprintf`.
pub record Libc : Type 0 where
  pub strerror : ℕ → List ℕ
  pub decimal : ℕ → List ℕ

-- `%d` of a descriptor
abbrev pub show_fd : Libc → Fd → List ℕ
show_fd c (fd n) = c.decimal n
show_fd c bad = codes "-1"

abbrev pub value : Reply → ℕ
value (failed e) = 0
value (done n bytes) = n

-- `snprintf`, the cap and `write`, when the length is above 0; false when it is not.
unfoldable pub emit : {E : Type 0} → (size : ℕ) → Fd → List ℕ → Prog Call E Bool
emit size f [] = pure false
emit size f (x ∷ text) = do_call (write f (logged size (x ∷ text))) >> pure true

-- `log_error(msg_prefix)` with a buffer of `size` bytes
unfoldable pub log_error : {E : Type 0} → Libc → (size : ℕ) → String → Prog Call E Bool
unfolding emit
log_error c size msg_prefix = call read_errno λ r.
    emit size fd_stderr (codes msg_prefix ++ (codes ": " ++ (c.strerror (value r) ++ codes "\n")))

-- `close_file_safer(fd)`: `close` gives 0 or -1.
unfoldable pub close_file_safer :
    {E : Type 0} → Libc → (size : ℕ) → String → Fd → Prog Call E ExitType
unfolding log_error
close_file_safer c size msg f =
    call (close f) (elim [
      | failed e ↦ log_error c size msg >> pure err_file_close
      | done n bytes ↦ pure success
    ])

abbrev pub is_success : ExitType → Bool
is_success success = true
is_success e = false
