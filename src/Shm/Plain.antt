-- ===== src/Shm/Plain.antt =====
-- The programs without synchronisation: `main` of 13_1_1_P_Writer/main.c, of
-- 13_1_2_P_Reader/main.c and of 13_1_3_Cleaner/main.c.
use linux_system_programming.Base.{
  length, inl, inr, ◌==◌, ◌+◌, [], ◌∷◌, ◌++◌, if◌then◌else◌, true, false, refl, ℕ, arith, List,
  Bool-cases, not,
}
use linux_system_programming.Sys.{Prog, pure, exit, do_call, attempt, next, pass, ◌>>=◌, ◌>>◌, Safe}
use linux_system_programming.Shm.{
  Ledger, existing, create, Status, success, failure, Call, perror, shm_open, mmap, close, load,
  munmap, rules, fresh, die, Detached, fstat, shm_unlink, fputs_stderr, ftruncate, store,
}

-- `argc` and the bytes of `argv[1]`, without the terminator.
unfoldable pub plain_writer : (argc : ℕ) (arg : List ℕ) → Prog Call Status Status
plain_writer argc arg =
    if not (argc == 2) then do_call (fputs_stderr "Usage: %s <message>\n") >> exit failure else do
      fd ← attempt (shm_open create) (die "W: shm_open")
      let len_bytes = length arg + 1
      attempt (ftruncate fd len_bytes)
          (do_call (perror "W: Error (ftruncate)") >> do_call (close fd) >> exit failure)
      attempt (mmap len_bytes fd) (do_call (perror "W: mmap") >> do_call (close fd) >> exit failure)
      attempt (close fd)
          (do_call (perror "W: Error closing fd") >> do_call (munmap len_bytes) >> exit failure)
      do_call (store (arg ++ (0 ∷ [])))
      do_call load
      attempt (munmap len_bytes) (die "W: munmap")
      pure success

-- What follows `fstat` when it gives the size `st_size`.
unfoldable pub plain_reader_map : (fd st_size : ℕ) → Prog Call Status Status
plain_reader_map fd st_size =
    if st_size == 0
    then do_call (fputs_stderr "R: shared memory size is invalid: %ld\n")
      >> do_call (close fd)
      >> exit failure
    else do
      attempt (mmap st_size fd) (do_call (perror "mmap") >> do_call (close fd) >> exit failure)
      do_call load
      attempt (close fd)
          (do_call (perror "R: Error closing fd") >> do_call (munmap st_size) >> exit failure)
      attempt (munmap st_size) (die "R: munmap")
      pure success

-- `fstat`'s value stands for the `st_size` that it stores, which is no negative number for an object
-- that exists.
unfoldable pub plain_reader : Prog Call Status Status
unfolding plain_reader_map
plain_reader = do
  fd ← attempt (shm_open existing) (die "R: shm_open")
  st_size ← attempt (fstat fd) (do_call (perror "R: fstat") >> do_call (close fd) >> exit failure)
  plain_reader_map fd st_size

unfoldable pub cleaner : Prog Call Status Status
cleaner = do attempt shm_unlink (die "cleanup: shm_unlink"); pure success

-- An object whose name is there, as `plain_writer` leaves it.
abbrev pub left_over : Ledger
left_over = record (fresh true) { named = true }

pub plain_writer-Safe :
    (argc : ℕ) (arg : List ℕ) → Safe rules Detached (fresh true) (plain_writer argc arg)
unfolding plain_writer
plain_writer-Safe argc arg = elim (Bool-cases (argc == 2)) [
  | inr usage ↦ rw usage (ground arith)
  | inl two ↦ rw two (
      next refl (λ _. ground arith)
        λ fd _.
          next (ground arith) (λ _. ground arith)
            λ _ _.
              next (ground arith) (λ _. ground arith)
                λ _ _.
                  next (ground arith) (λ _. ground arith)
                    λ _ _. pass refl λ _.
                      pass refl λ _. next (ground arith) (λ _. ground arith) λ _ _. ground arith)
]

pub plain_reader-Safe : Safe rules Detached (fresh false) plain_reader
unfolding plain_reader
plain_reader-Safe =
    next refl (λ _. ground arith)
      λ fd _.
        next (ground arith) (λ _. ground arith)
          λ n _. elim (Bool-cases (n == 0)) [
            | inl empty ↦ rw empty (ground arith)
            | inr sized ↦ rw sized (
                next (ground arith) (λ _. ground arith)
                  λ _ _. pass refl λ _.
                    next (ground arith) (λ _. ground arith)
                      λ _ _. next (ground arith) (λ _. ground arith) λ _ _. ground arith)
          ]

pub cleaner-Safe : Safe rules Detached left_over cleaner
unfolding cleaner
cleaner-Safe = ground arith
