-- ===== src/OpenFile.antt =====
-- Programs on one open file: Course_MohanM/2_File_Operations/2_4_Lseek/main.c, which moves its offset, and
-- Course_MohanM/7_Process_Monitor/7_9_File_Descriptor_Between_Parent_and_Child/main.c, which inherits it.
use linux_system_programming.Base.{codes, ℕ, String, Bool, true, false, List, [], ◌∷◌, ◌++◌}
use linux_system_programming.Sys.{Reply, failed, done, Prog, pure, call, do_call, ◌>>=◌, ◌>>◌}
use linux_system_programming.Files.{ExitType, success, err_file_close, logged, Libc, value}
pub mod Description
pub mod Seek
pub mod Inherit
mod Tests

pub data Stream : Type 0 where
  fd_stdout fd_stderr : Stream

pub data Whence : Type 0 where
  seek_set seek_cur seek_end : Whence

-- `open_file`, `lseek`, `read`, `write` and `close` are on the one file of the program. `log` is a `write` to
-- a standard stream, and `read_errno` the use of `errno`. `fork` gives 0 to the child.
pub data Call : Type 0 where
  open_file : String → Call
  lseek : (offset : ℕ) → Whence → Call
  read : (at_once : ℕ) → Call
  write : List ℕ → Call
  close : Call
  log : Stream → List ℕ → Call
  read_errno : Call
  fork waitpid : Call
  sleep : (seconds : ℕ) → Call

-- `snprintf` into a buffer of 256 bytes, the cap and `write`, when the length is above 0; false when it is
-- not.
unfoldable pub emit : {E : Type 0} → Stream → List ℕ → Prog Call E Bool
emit stream [] = pure false
emit stream (x ∷ text) = do_call (log stream (logged 256 (x ∷ text))) >> pure true

-- `log_error`; `between`: what stands between its message and that of `strerror`.
unfoldable pub log_error :
    {E : Type 0} → Libc → (msg_prefix : String) → (between : String) → Prog Call E Bool
unfolding emit
log_error c msg_prefix between = call read_errno λ r.
    emit fd_stderr (codes msg_prefix ++ (codes between ++ (c.strerror (value r) ++ codes "\n")))

unfoldable pub close_file_safer : {E : Type 0} → Libc → (between : String) → Prog Call E ExitType
unfolding log_error
close_file_safer c between = call close (elim [
  | failed e ↦ log_error c "Error closing file" between >> pure err_file_close
  | done n bytes ↦ pure success
])
