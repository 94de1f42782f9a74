-- ===== src/Files/Write.antt =====
-- Course_MohanM/2_File_Operations/2_3_Writing_to_a_File/main.c: `write_to_a_file_safer` and `main`. The loop takes fuel: a `write`
-- may accept fewer bytes than it is asked to.
pub mod Complete
use linux_system_programming.Sys.{failed, done, Prog, pure, call, ◌>>=◌, ◌>>◌}
use linux_system_programming.Base.{
  length, drop, codes, ltb, ℕ, zero, suc, true, false, Option, none, some, List, if◌then◌else◌, ◌+◌,
  ◌++◌,
}
use linux_system_programming.Files.{
  ExitType, success, err_write_encoding, err_file_write, fd, fd_stdout, Call, write, Libc, emit,
  log_error, close_file_safer, is_success, open_file, err_file_close, err_file_open,
}

-- How the loop ends: with `total_written`, with an error code, or for want of fuel.
pub data Loop : Type 0 where
  finished : (total_written : ℕ) → Loop
  stopped : ExitType → Loop
  out_of_fuel : Loop

-- `while (total_written < len)`
unfoldable pub write_loop :
    {E : Type 0} → Libc → (fuel f : ℕ) → List ℕ → (total_written : ℕ) → Prog Call E Loop
unfolding log_error close_file_safer
write_loop c zero f buf total = pure out_of_fuel
write_loop c (suc fuel) f buf total = elim (ltb total (length buf)) [
  | true ↦ call (write (fd f) (drop total buf)) (elim [
    | failed e ↦ do
      log_error c 256 "Error writing to file"
      close_file_safer c 256 "Error closing file" (fd f)
      pure (stopped err_file_write)
    | done n bytes ↦ write_loop c fuel f buf (total + n)
  ])
  | false ↦ pure (finished total)
]

-- What follows the loop, and `none` where it ran out of fuel. An error has returned already.
unfoldable pub after_loop : {E : Type 0} → Libc → ℕ → Loop → Prog Call E (Option ExitType)
unfolding emit log_error
after_loop c f (finished total) = do
  written ← emit 256 fd_stdout (
      codes "Successfully wrote "
      ++ (c.decimal total
          ++ (codes " bytes written to file descriptor " ++ (c.decimal f ++ codes "\n"))))
  if written
      then pure (some success)
      else (log_error c 256 "Encoding error" >> pure (some err_write_encoding))
after_loop c f (stopped e) = pure (some e)
after_loop c f out_of_fuel = pure none

unfoldable pub write_to_a_file_safer :
    {E : Type 0} → Libc → (fuel f : ℕ) → List ℕ → Prog Call E (Option ExitType)
unfolding write_loop after_loop
write_to_a_file_safer c fuel f buf = do r ← write_loop c fuel f buf 0; after_loop c f r

-- `snprintf(tx_buf, sizeof(tx_buf), "Hello World\n")`, up to the terminator
abbrev pub tx_buf : List ℕ
tx_buf = codes "Hello World\n"

-- What `main` does with the result of `write_to_a_file_safer`.
unfoldable pub finish : Libc → ℕ → Option ExitType → Prog Call (Option ExitType) (Option ExitType)
unfolding close_file_safer
finish c f none = pure none
finish c f (some r) =
    if is_success r
    then (do
      closed ← close_file_safer c 256 "Error closing file" (fd f)
      pure (some (if is_success closed then success else err_file_close)))
    else pure (some err_file_write)

unfoldable pub main : Libc → (fuel : ℕ) → Prog Call (Option ExitType) (Option ExitType)
unfolding write_to_a_file_safer finish log_error
main c fuel = call (open_file "output.txt") (elim [
  | failed e ↦ log_error c 256 "Error opening the file" >> pure (some err_file_open)
  | done f bytes ↦ write_to_a_file_safer c fuel f tx_buf >>= finish c f
])
