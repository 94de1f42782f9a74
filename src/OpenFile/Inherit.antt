-- ===== src/OpenFile/Inherit.antt =====
-- Course_MohanM/7_Process_Monitor/7_9_File_Descriptor_Between_Parent_and_Child/main.c. The printf of `main` are
-- left out.
use linux_system_programming.Base.{codes, ℕ, zero, suc, List, if◌then◌else◌}
use linux_system_programming.OpenFile.{
  Call, open_file, write, fork, waitpid, sleep, log_error, close_file_safer,
}
use linux_system_programming.Sys.{failed, done, Prog, pure, exit, call, do_call, ◌>>=◌, ◌>>◌}
use linux_system_programming.Files.{
  ExitType, success, err_general, err_file_open, err_file_write, Libc, is_success,
}
pub mod Shared
pub mod Together
pub mod Append

abbrev pub parent_text : List ℕ
parent_text = codes "Parent is writing...\n"

abbrev pub child_text : List ℕ
child_text = codes "Child is writing...\n"

unfoldable pub write_to_a_file_safer : {E : Type 0} → Libc → (txbuf : List ℕ) → Prog Call E ExitType
unfolding log_error close_file_safer
write_to_a_file_safer c txbuf = call (write txbuf) (elim [
  | failed e ↦
      log_error c "Error writing to file" " : " >> (close_file_safer c " : " >> pure err_file_write)
  | done n bytes ↦ pure success
])

-- `case 0` of the switch on `cpid`
unfoldable pub child : Libc → Prog Call ExitType ExitType
unfolding write_to_a_file_safer close_file_safer
child c =
    do_call (sleep 2)
    >> (write_to_a_file_safer c child_text >>= λ written.
        if is_success written
        then close_file_safer c " : " >> exit success
        else exit err_file_write)

-- `default` of the switch, and the `return`
unfoldable pub parent : Libc → Prog Call ExitType ExitType
unfolding close_file_safer
parent c =
    close_file_safer c " : "
    >> call waitpid (elim [ failed e ↦ exit err_general | done n bytes ↦ pure success ])

unfoldable pub main : Libc → Prog Call ExitType ExitType
unfolding write_to_a_file_safer child parent
main c = call (open_file "test.txt") (elim [
  | failed e ↦ log_error c "Error opening the file" " : " >> pure err_file_open
  | done f bytes ↦ write_to_a_file_safer c parent_text >>= λ written.
      if is_success written
      then call fork (elim [
        | failed e ↦ log_error c "Fork failed!!" " : " >> exit err_general
        | done zero bytes ↦ child c
        | done (suc pid) bytes ↦ parent c
      ])
      else exit err_file_write
])
