-- ===== src/OpenFile/Seek.antt =====
-- Course_MohanM/2_File_Operations/2_4_Lseek/main.c. `main` does not use the results of its helpers, nor that of
-- `lseek` but to print it.
use linux_system_programming.Sys.{Outcome, Reply, failed, done, Prog, pure, call, ◌>>=◌, ◌>>◌}
use linux_system_programming.Base.{
  take, codes, ℕ, zero, suc, Bool, true, false, List, if◌then◌else◌, [], ◌∷◌, ◌++◌,
}
use linux_system_programming.OpenFile.{
  Stream, fd_stdout, fd_stderr, seek_set, seek_cur, seek_end, Whence, Call, open_file, lseek, read,
  write, close, emit, log_error, close_file_safer,
}
use linux_system_programming.Fifo.{c_string}
use linux_system_programming.Files.{
  ExitType, success, err_file_open, err_file_close, err_file_read, err_file_write,
  err_write_encoding, Libc, logged, is_success,
}
pub mod Effect
mod Steps
pub mod Final

-- `%d` of what `lseek` returned
abbrev pub show_result : Libc → Reply → List ℕ
show_result c (failed e) = codes "-1"
show_result c (done n bytes) = c.decimal n

unfoldable pub log_seek_position : {E : Type 0} → Libc → (seek_pos : Reply) → Prog Call E Bool
unfolding emit
log_seek_position c seek_pos =
    emit fd_stdout (codes "Offset position: (" ++ (show_result c seek_pos ++ codes ")\n"))

-- What `read_and_log_safe` prints
abbrev pub read_report : Libc → (f len_bytes_read : ℕ) → (buf_read : List ℕ) → List ℕ
read_report c f len buf =
    c.decimal len
    ++ (codes " bytes read from fd("
        ++ (c.decimal f
            ++ (codes ") after lseek, which are:\n" ++ (c_string (take len buf) ++ codes "\n"))))

-- The result of `read_and_log_safe` after its `snprintf`
abbrev pub after_report : {E : Type 0} → Libc → (written : Bool) → Prog Call E ExitType
after_report c true = pure success
after_report c false = log_error c "Encoding error" ": " >> pure err_write_encoding

unfoldable pub read_and_log_safe :
    {E : Type 0} → Libc → (f bytes_to_read_at_once : ℕ) → Prog Call E ExitType
unfolding log_error emit
read_and_log_safe c f n = call (read n) (elim [
  | failed e ↦ log_error c "Reading error" ": " >> pure err_file_read
  | done len bytes ↦ emit fd_stdout (read_report c f len bytes) >>= after_report c
])

unfoldable pub write_to_a_file_and_log_safe :
    {E : Type 0} → Libc → (text_to_write : List ℕ) → Prog Call E ExitType
unfolding log_error
write_to_a_file_and_log_safe c [] = log_error c "Encoding error" ": " >> pure err_write_encoding
write_to_a_file_and_log_safe c (x ∷ text) = call (write (logged 256 (x ∷ text))) (elim [
  | failed e ↦ log_error c "Error writing or couldn't write anything" ": " >> pure err_file_write
  | done zero bytes ↦
      log_error c "Error writing or couldn't write anything" ": " >> pure err_file_write
  | done (suc n) bytes ↦ pure success
])

-- `seek_pos = lseek(fd, …)` and `log_seek_position(seek_pos)`
unfoldable pub seek : {E : Type 0} → Libc → ℕ → Whence → Prog Call E Bool
unfolding log_seek_position
seek c n whence = call (lseek n whence) (log_seek_position c)

-- What follows a successful `open`
unfoldable pub session : Libc → (f : ℕ) → Prog Call ExitType ExitType
unfolding seek write_to_a_file_and_log_safe read_and_log_safe close_file_safer
session c f =
    seek c 0 seek_set
    >> (write_to_a_file_and_log_safe c (codes "1234567891011121314")
        >> (seek c 0 seek_cur
            >> (seek c 2 seek_set
                >> (write_to_a_file_and_log_safe c (codes "00")
                    >> (seek c 6 seek_cur
                        >> (read_and_log_safe c f 10
                            >> (seek c 0 seek_end
                                >> (write_to_a_file_and_log_safe c (codes "tabbed text")
                                    >> (seek c 0 seek_cur
                                        >> (seek c 0 seek_set
                                            >> (read_and_log_safe c f 19
                                                >> (close_file_safer c ": " >>= λ closed. pure (
                                                    if is_success closed
                                                    then success
                                                    else err_file_close)))))))))))))

unfoldable pub main : Libc → Prog Call ExitType ExitType
unfolding session
main c = call (open_file "input.txt") (elim [
  | failed e ↦ log_error c "Error opening file" ": " >> pure err_file_open
  | done f bytes ↦ session c f
])
