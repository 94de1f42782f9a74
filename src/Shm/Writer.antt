-- ===== src/Shm/Writer.antt =====
-- `main` of 12_2_2_1_P_Writer/main.c.
use linux_system_programming.Base.{
  inl, inr, ℕ, refl, ◌-◌, leb, ◌++◌, ◌∷◌, [], length, take, true, if◌then◌else◌, arith, List,
  Bool-cases,
}
use linux_system_programming.Sys.{
  failed, done, Prog, pure, exit, call, do_call, attempt, ◌>>=◌, ◌>>◌, Safe, next, pass,
}
use linux_system_programming.Shm.{
  create_new, data_ready, reader_done, between_processes, Status, success, failure, Call, perror,
  fputs_stderr, shm_open, ftruncate, mmap, close, sem_init, store, load, sem_post, sem_wait,
  sem_destroy, munmap, shm_unlink, rules, fresh, die, Cleaned,
}

abbrev pub message_max_len : ℕ
message_max_len = 256

-- `snprintf(buf, size, "%s", s)`: at most size - 1 bytes and the terminator.
abbrev pub snprintf_s : ℕ → List ℕ → List ℕ
snprintf_s size s = take (size - 1) s ++ (0 ∷ [])

-- `len_shr`, the size of the region, depends on the platform's `sem_t`.
unfoldable pub shm_writer : (len_shr : ℕ) → (msg_to_send : List ℕ) → Prog Call Status Status
shm_writer len_shr msg =
    if leb message_max_len (length msg)
    then do_call (fputs_stderr "W: Message too long. Max allowed length is %d bytes.\n")
      >> exit failure
    else do
      fd ← attempt (shm_open create_new) (die "W: shm_open")
      attempt (ftruncate fd len_shr)
          (do do_call (perror "W: ftruncate"); do_call (close fd); do_call shm_unlink; exit failure)
      attempt (mmap len_shr fd)
          (do do_call (perror "W: mmap"); do_call (close fd); do_call shm_unlink; exit failure)
      attempt (close fd) (do
        do_call (perror "W: close")
        do_call (munmap len_shr)
        do_call shm_unlink
        exit failure)
      attempt (sem_init data_ready between_processes 0) (do
        do_call (perror "W: sem_init sem_data_ready")
        do_call (munmap len_shr)
        do_call shm_unlink
        exit failure)
      attempt (sem_init reader_done between_processes 0) (do
        do_call (perror "W: sem_init sem_reader_done")
        do_call (sem_destroy data_ready)
        do_call (munmap len_shr)
        do_call shm_unlink
        exit failure)
      do_call (store (snprintf_s message_max_len msg))
      do_call load
      attempt (sem_post data_ready) (do
        do_call (perror "W: sem_post sem_data_ready")
        do_call (sem_destroy reader_done)
        do_call (sem_destroy data_ready)
        do_call (munmap len_shr)
        do_call shm_unlink
        exit failure)
      attempt (sem_wait reader_done) (do
        do_call (perror "W: sem_wait sem_reader_done")
        do_call (sem_destroy reader_done)
        do_call (sem_destroy data_ready)
        do_call (munmap len_shr)
        do_call shm_unlink
        exit failure)
      call (sem_destroy reader_done) (elim [
        | failed e ↦ do_call (perror "W: sem_destroy sem_reader_done")
        | done n bytes ↦ pure tt
      ])
      call (sem_destroy data_ready) (elim [
        | failed e ↦ do_call (perror "W: sem_destroy sem_data_ready")
        | done n bytes ↦ pure tt
      ])
      attempt (munmap len_shr) (do do_call (perror "W: munmap"); do_call shm_unlink; exit failure)
      attempt shm_unlink (die "W: shm_unlink")
      pure success

pub writer-Safe : (n : ℕ) (m : List ℕ) → Safe rules Cleaned (fresh true) (shm_writer n m)
unfolding shm_writer
writer-Safe n m = elim (Bool-cases (leb message_max_len (length m))) [
  | inl long ↦ rw long (ground arith)
  | inr fits ↦ rw fits (
      next refl (λ _. ground arith)
        λ fd _.
          next (ground arith) (λ _. ground arith)
            λ _ _.
              next (ground arith) (λ _. ground arith)
                λ _ _.
                  next (ground arith) (λ _. ground arith)
                    λ _ _.
                      next refl (λ _. ground arith)
                        λ _ _.
                          next refl (λ _. ground arith)
                            λ _ _. pass refl λ _. pass refl λ _.
                              next refl (λ _. ground arith)
                                λ _ _.
                                  next refl (λ _. ground arith)
                                    λ _ _.
                                      next refl (λ _. ground arith)
                                        λ _ _. next refl (λ _. ground arith) λ _ _. ground arith)
]
