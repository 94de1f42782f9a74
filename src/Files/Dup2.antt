-- ===== src/Files/Dup2.antt =====
-- Course_MohanM/2_File_Operations/2_6_Dup2_and_Logging_to_File_Easier/main.c, whose helpers are those
-- of 2_6_Dup/main.c.
use linux_system_programming.Sys.{failed, done, Prog, pure, call, do_call, ◌>>◌}
use linux_system_programming.Base.{
  none, if◌then◌else◌, true, ◌⊎◌, codes, ℕ, false, List, ◌≡◌, [], ◌∷◌,
}
use linux_system_programming.Files.{
  Libc, Call, ExitType, Fd, fd, dup2, printf, open_file, fd_stdout, log_error, err_file_open,
}
use linux_system_programming.Files.Dup.{log_fd, fd_of, close_both}
use linux_system_programming.Files.Descriptors.{Ledger, Returned}

abbrev pub printed : List ℕ
printed = codes "This will be written to file, instead of screen (stdout).\n"

-- What follows `dup2`.
unfoldable pub print_and_close : Libc → (old : ℕ) → (new : Fd) → Prog Call ExitType ExitType
unfolding log_fd close_both
print_and_close c old new = do log_fd c "newfd" new; do_call (printf printed); close_both c old new

unfoldable pub main : Libc → Prog Call ExitType ExitType
unfolding log_error print_and_close
main c = call (open_file "newFile.log") (elim [
  | failed e ↦ log_error c 100 "Error opening the file" >> pure err_file_open
  | done f bytes ↦ call (dup2 (fd f) fd_stdout) λ r. print_and_close c f (fd_of r)
])

-- As `Returned`, with descriptor 1 given back as well. Once the file is open the text is printed once, with descriptor 1
-- a copy of the descriptor of the file, unless `dup2` failed.
abbrev pub Redirected : Ledger → ExitType → Type 0
Redirected s e =
    Returned (2 ∷ []) s e
    × ((s.open_failed ≡ true) × (s.printed ≡ [])
        ⊎ (s.open_failed ≡ false)
          × (s.printed ≡ (if s.dup_failed then none else s.file, printed) ∷ []))
