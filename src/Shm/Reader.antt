-- ===== src/Shm/Reader.antt =====
-- `main` of 12_2_2_2_P_Reader/main.c.
use linux_system_programming.Base.{refl, ℕ, arith, false}
use linux_system_programming.Sys.{Prog, pure, exit, do_call, attempt, next, pass, ◌>>=◌, ◌>>◌, Safe}
use linux_system_programming.Shm.{
  existing, data_ready, reader_done, Status, success, failure, Call, perror, shm_open, mmap, close,
  load, sem_post, sem_wait, munmap, rules, fresh, die, Detached,
}

unfoldable pub shm_reader : (len_shr : ℕ) → Prog Call Status Status
shm_reader len_shr = do
  fd ← attempt (shm_open existing) (die "R: shm_open")
  attempt (mmap len_shr fd) (do_call (perror "R: mmap") >> do_call (close fd) >> exit failure)
  attempt (close fd) (do_call (perror "R: close") >> do_call (munmap len_shr) >> exit failure)
  attempt (sem_wait data_ready)
      (do_call (perror "R: sem_wait sem_data_ready") >> do_call (munmap len_shr) >> exit failure)
  do_call load
  attempt (sem_post reader_done)
      (do_call (perror "R: sem_post sem_reader_done") >> do_call (munmap len_shr) >> exit failure)
  attempt (munmap len_shr) (die "R: munmap")
  pure success

pub reader-Safe : (n : ℕ) → Safe rules Detached (fresh false) (shm_reader n)
unfolding shm_reader
reader-Safe n =
    next refl (λ _. ground arith)
      λ fd _.
        next (ground arith) (λ _. ground arith)
          λ _ _.
            next (ground arith) (λ _. ground arith)
              λ _ _.
                next refl (λ _. ground arith)
                  λ _ _. pass refl λ _. next refl (λ _. ground arith) λ _ _. ground arith
