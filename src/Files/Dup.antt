-- ===== src/Files/Dup.antt =====
-- Course_MohanM/2_File_Operations/2_6_Dup/main.c
use linux_system_programming.Sys.{
  Fair, SafeIf-run, Kernel, run, Obeys, replay, SafeIf, Reply, failed, done, Prog, pure, call,
  ◌>>=◌, ◌>>◌,
}
use linux_system_programming.Base.{
  some, refl, false, arith, true, ◌≡◌, length, codes, ℕ, String, List, if◌then◌else◌, ◌+◌, [], ◌∷◌,
  ◌++◌,
}
use linux_system_programming.Files.Descriptors.{
  Ledger, may_use, is_held, rules, start, Possible, Returned,
}
use linux_system_programming.Files.{
  Libc, Call, ExitType, Fd, fd, bad, show_fd, dup, write, open_file, fd_stdout, logged, log_error,
  close_file_safer, emit, err_file_open, err_file_write, err_write_encoding, err_file_close,
  success, is_success,
}

-- `write` of a text that `snprintf` has put into `buf`
unfoldable pub write_out : {E : Type 0} → Libc → Fd → List ℕ → Prog Call E ExitType
unfolding log_error
write_out c f [] = log_error c 100 "Error writing to file" >> pure err_write_encoding
write_out c f (x ∷ msg) = call (write f (logged (length (x ∷ msg) + 1) (x ∷ msg))) (elim [
  | failed e ↦ log_error c 100 "Error writing to file" >> pure err_file_write
  | done n bytes ↦ pure success
])

-- `write_to_file(msg, fd)`, whose buffer has room for the text and its terminator
abbrev pub write_to_file : {E : Type 0} → Libc → String → Fd → Prog Call E ExitType
write_to_file c msg f = write_out c f (codes msg)

-- `log_fd(msg_prefix, fd)`
unfoldable pub log_fd : {E : Type 0} → Libc → String → Fd → Prog Call E ExitType
unfolding emit log_error
log_fd c msg_prefix f = do
  written ← emit 100 fd_stdout (codes msg_prefix ++ (codes ": " ++ (show_fd c f ++ codes "\n")))
  if written
      then pure success
      else (log_error c 100 "Error writing to buf" >> pure err_write_encoding)

-- A descriptor that `dup` returned, which the program does not look at
abbrev pub fd_of : Reply → Fd
fd_of (failed e) = bad
fd_of (done n bytes) = fd n

-- The two closes that end `main`
unfoldable pub close_both : Libc → (old : ℕ) → (new : Fd) → Prog Call ExitType ExitType
unfolding close_file_safer
close_both c old new = do
  closed ← close_file_safer c 100 "Error closing the file" (fd old)
  if is_success closed
      then (do
        closed_new ← close_file_safer c 100 "Error closing the file" new
        pure (if is_success closed_new then success else err_file_close))
      else pure err_file_close

-- What follows `dup`.
unfoldable pub write_twice : Libc → (old : ℕ) → (new : Fd) → Prog Call ExitType ExitType
unfolding write_out log_fd close_both
write_twice c old new = do
  log_fd c "New fd value after dup()" new
  log_fd c "Old fd value after dup()" (fd old)
  write_to_file c "Writing to file using new file descriptor\n" new
  write_to_file c "Writing to file using old file descriptor\n" (fd old)
  close_both c old new

unfoldable pub main : Libc → Prog Call ExitType ExitType
unfolding log_error log_fd write_twice
main c = call (open_file "newFile.log") (elim [
  | failed e ↦ log_error c 100 "Error opening the file" >> pure err_file_open
  | done f bytes ↦ do log_fd c "Initial fd" (fd f); call (dup (fd f)) λ r. write_twice c f (fd_of r)
])

-- A `write_to_file` passes, and what follows starts where it started.
write_out-SafeIf :
    (c : Libc) (s : Ledger) (f : Fd) (msg : List ℕ) (rest : Prog Call ExitType ExitType)
    → may_use s f ≡ true
    → is_held 2 s.held ≡ true
    → SafeIf rules Possible (Returned (1 ∷ 2 ∷ [])) s rest
    → SafeIf rules Possible (Returned (1 ∷ 2 ∷ [])) s (write_out c f msg >> rest)
unfolding write_out log_error emit
write_out-SafeIf c s f [] rest use_f use_err h = (tt, λ _ _. (use_err, λ _ _. h))
write_out-SafeIf c s f (x ∷ msg) rest use_f use_err h =
    (use_f, elim [ failed e ↦ λ _. (tt, λ _ _. (use_err, λ _ _. h)) | done n bytes ↦ λ _. h ])

abbrev after_dup : (old : ℕ) → (new : Fd) → Ledger
after_dup f (fd b) = record start { file = some (fd f); held = b ∷ f ∷ 1 ∷ 2 ∷ [] }
after_dup f bad = record start { file = some (fd f); held = f ∷ 1 ∷ 2 ∷ []; dup_failed = true }

close_both-Returned :
    (c : Libc) (f b : ℕ)
    → is_held f (1 ∷ 2 ∷ []) ≡ false
    → is_held b (f ∷ 1 ∷ 2 ∷ []) ≡ false
    → SafeIf rules Possible (Returned (1 ∷ 2 ∷ [])) (after_dup f (fd b)) (close_both c f (fd b))
unfolding close_both close_file_safer log_error emit
close_both-Returned c f b fresh_old fresh_new = (
  ground arith,
  elim [
    | failed e ↦ λ _. (tt, λ _ _. (ground arith, λ _ _. refl))
    | done _ _ ↦ λ _. (
      ground arith,
      elim [
        | failed e ↦ λ _. (tt, λ _ _. (ground arith, λ _ _. refl))
        | done _ _ ↦ λ _. (ground arith, refl, refl, refl)
      ],
    )
  ],
)

close_bad-Returned :
    (c : Libc) (f : ℕ)
    → is_held f (1 ∷ 2 ∷ []) ≡ false
    → SafeIf rules Possible (Returned (1 ∷ 2 ∷ [])) (after_dup f bad) (close_both c f bad)
unfolding close_both close_file_safer log_error emit
close_bad-Returned c f fresh_old = (
  ground arith,
  elim [
    | failed e ↦ λ _. (tt, λ _ _. (ground arith, λ _ _. refl))
    | done _ _ ↦ λ _. (
      ground arith,
      elim [ failed e ↦ λ _. (tt, λ _ _. (ground arith, λ _ _. refl)) | done _ _ ↦ λ p. absurd p ],
    )
  ],
)

write_twice-Returned :
    (c : Libc) (f : ℕ) (new : Fd)
    → is_held 1 (after_dup f new).held ≡ true
    → is_held 2 (after_dup f new).held ≡ true
    → may_use (after_dup f new) (fd f) ≡ true
    → may_use (after_dup f new) new ≡ true
    → SafeIf rules Possible (Returned (1 ∷ 2 ∷ [])) (after_dup f new) (close_both c f new)
    → SafeIf rules Possible (Returned (1 ∷ 2 ∷ [])) (after_dup f new) (write_twice c f new)
unfolding write_twice log_fd emit write_out log_error
write_twice-Returned c f new out err old_open new_open h =
    let second : SafeIf rules Possible (Returned (1 ∷ 2 ∷ [])) (after_dup f new) (
        write_to_file c "Writing to file using old file descriptor\n" (fd f)
        >> close_both c f new) =
      write_out-SafeIf c (after_dup f new) (fd f)
        (codes "Writing to file using old file descriptor\n") (close_both c f new) old_open err h in
    (
      out,
      λ _ _. (
        out,
        λ _ _. (
          new_open,
          elim [ failed e ↦ λ _. (tt, λ _ _. (err, λ _ _. second)) | done n bytes ↦ λ _. second ],
        ),
      ),
    )

main-Returned : (c : Libc) → SafeIf rules Possible (Returned (1 ∷ 2 ∷ [])) start (main c)
unfolding main log_fd log_error emit
main-Returned c = (
  tt,
  elim [
    | failed e ↦ λ _. (tt, λ _ _. (refl, λ _ _. (refl, refl)))
    | done f _ ↦ λ fresh. (
      ground arith,
      λ _ _. (
        ground arith,
        elim [
          | failed e ↦ λ _.
              write_twice-Returned c f bad (ground arith) (ground arith) (ground arith) refl
                (close_bad-Returned c f fresh)
          | done b _ ↦ λ new_fresh.
              write_twice-Returned c f (fd b) (ground arith) (ground arith) (ground arith)
                (ground arith) (close_both-Returned c f b fresh new_fresh)
        ],
      ),
    )
  ],
)

-- Whatever calls fail, 2_6_Dup uses only open descriptors or the -1 of a failed `dup`, and returns one
-- of three codes: SUCCESS with both its descriptors closed when `open`, `dup` and both `close`
-- succeeded, ERR_FILE_OPEN when `open` failed and ERR_FILE_CLOSE when a `close` failed.
pub dup_returns :
    (c : Libc) (k : Kernel Call)
    → Fair rules Possible start (run k 0 (main c)).events
    → Obeys rules start (run k 0 (main c)).events
      × Returned
          (1 ∷ 2 ∷ [])
          (replay rules start (run k 0 (main c)).events)
          (run k 0 (main c)).status
dup_returns c k fair =
    SafeIf-run rules Possible (Returned (1 ∷ 2 ∷ [])) k 0 start (main c) fair (main-Returned c)
