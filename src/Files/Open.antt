-- ===== src/Files/Open.antt =====
-- Course_MohanM/2_File_Operations/2_1_Opening_and_Creating_a_File/main.c
use linux_system_programming.Sys.{
  Fair, SafeIf-run, Kernel, run, Obeys, replay, SafeIf, failed, done, Prog, pure, call, ◌>>=◌, ◌>>◌,
}
use linux_system_programming.Base.{codes, ℕ, refl, arith, if◌then◌else◌, [], ◌∷◌, ◌++◌}
use linux_system_programming.Files.{
  Libc, Call, ExitType, open_file, fd, fd_stdout, log_error, close_file_safer, emit, err_file_open,
  err_write_encoding, err_file_close, success, is_success,
}
use linux_system_programming.Files.Descriptors.{rules, start, Possible, Returned}

-- What follows `open`.
unfoldable pub announce_and_close : Libc → (f : ℕ) → Prog Call ExitType ExitType
unfolding log_error close_file_safer emit
announce_and_close c f = do
  announced ←
      emit 100 fd_stdout
        (codes "open() system call succeeded, file descriptor = " ++ (c.decimal f ++ codes "\n"))
  if announced
      then (do
        closed ← close_file_safer c 256 "Error closing file" (fd f)
        pure (if is_success closed then success else err_file_close))
      else (log_error c 256 "Encoding error" >> pure err_write_encoding)

unfoldable pub main : Libc → Prog Call ExitType ExitType
unfolding log_error announce_and_close
main c = call (open_file "startup.txt") (elim [
  | failed e ↦ log_error c 256 "Error opening the file" >> pure err_file_open
  | done f bytes ↦ announce_and_close c f
])

main-Returned : (c : Libc) → SafeIf rules Possible (Returned (1 ∷ 2 ∷ [])) start (main c)
unfolding main announce_and_close close_file_safer log_error emit
main-Returned c = (
  tt,
  elim [
    | failed e ↦ λ _. (tt, λ _ _. (refl, λ _ _. (refl, refl)))
    | done f _ ↦ λ fresh. (
      ground arith,
      λ _ _. (
        ground arith,
        elim [
          | failed e ↦ λ _. (tt, λ _ _. (ground arith, λ _ _. refl))
          | done _ _ ↦ λ _. (ground arith, refl, refl, refl)
        ],
      ),
    )
  ],
)

-- Whatever calls fail, 2_1 uses only open descriptors and returns one of three codes: SUCCESS with its
-- file closed again when `open` and `close` both succeeded, ERR_FILE_OPEN when `open` failed and
-- ERR_FILE_CLOSE when `close` failed.
pub open_returns :
    (c : Libc) (k : Kernel Call)
    → Fair rules Possible start (run k 0 (main c)).events
    → Obeys rules start (run k 0 (main c)).events
      × Returned
          (1 ∷ 2 ∷ [])
          (replay rules start (run k 0 (main c)).events)
          (run k 0 (main c)).status
open_returns c k fair =
    SafeIf-run rules Possible (Returned (1 ∷ 2 ∷ [])) k 0 start (main c) fair (main-Returned c)
