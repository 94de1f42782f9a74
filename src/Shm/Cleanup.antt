-- ===== src/Shm/Cleanup.antt =====
-- What the shared-memory programs give back, on every path: each program is run against a kernel
-- that replies as it likes.
use linux_system_programming.Sys.{Prog, Kernel, run, Obeys, replay, Safe-run}
use linux_system_programming.Base.{ℕ, true, false, List}
use linux_system_programming.Shm.{Call, Status, Cleaned, Detached, rules, fresh, Ledger}
use linux_system_programming.Shm.Writer.{shm_writer, writer-Safe}
use linux_system_programming.Shm.Reader.{shm_reader, reader-Safe}
use linux_system_programming.Shm.Plain.{
  plain_writer, plain_reader, plain_writer-Safe, plain_reader-Safe, left_over, cleaner,
  cleaner-Safe,
}

-- A run of `p` makes only calls that the ledger allows, and ends as `F` says.
abbrev pub Runs :
    (Ledger → Status → Type 0) → Ledger → Kernel Call → Prog Call Status Status → Type 0
Runs F s k p =
    Obeys rules s (run k 0 p).events × F (replay rules s (run k 0 p).events) (run k 0 p).status

-- Whatever calls fail, the writer uses the descriptor, the mapping, the semaphores and the name only
-- while it holds them, gives each back once, and exits with EXIT_SUCCESS exactly when no call but
-- `sem_destroy` failed and the message was short enough.
writer_cleans :
    (k : Kernel Call) (len_shr : ℕ) (msg : List ℕ)
    → Runs Cleaned (fresh true) k (shm_writer len_shr msg)
writer_cleans k n m = Safe-run rules Cleaned k 0 (fresh true) (shm_writer n m) (writer-Safe n m)

-- Whatever calls fail, the reader uses its descriptor and mapping only while it holds them, gives
-- both back once, never unlinks the object nor initialises or destroys a semaphore, and exits with
-- EXIT_SUCCESS exactly when no call failed.
reader_detaches :
    (k : Kernel Call) (len_shr : ℕ) → Runs Detached (fresh false) k (shm_reader len_shr)
reader_detaches k n = Safe-run rules Detached k 0 (fresh false) (shm_reader n) (reader-Safe n)

-- Whatever calls fail, the unsynchronised writer and reader and the cleaner make only calls that
-- their ledger allows, hold no descriptor and no mapping at the end, and each exits with
-- EXIT_SUCCESS exactly when no call failed and its input was accepted.
plain_detach :
    (k : Kernel Call) (argc : ℕ) (arg : List ℕ)
    → Runs Detached (fresh true) k (plain_writer argc arg)
      × Runs Detached (fresh false) k plain_reader
      × Runs Detached left_over k cleaner
plain_detach k argc arg = (
  Safe-run rules Detached k 0 (fresh true) (plain_writer argc arg) (plain_writer-Safe argc arg),
  Safe-run rules Detached k 0 (fresh false) plain_reader plain_reader-Safe,
  Safe-run rules Detached k 0 left_over cleaner cleaner-Safe,
)

-- Whatever calls fail, every one of the five shared-memory programs uses what it holds only while it holds
-- it, gives back its descriptor and its mapping once, and exits with EXIT_SUCCESS exactly when no call of it
-- failed and its input was accepted; for the synchronised writer a failed `sem_destroy` does not count. That
-- writer also gives back the semaphores and the name, and the synchronised reader leaves both to it.
pub all_give_back :
    (k : Kernel Call) (len_shr argc : ℕ) (msg arg : List ℕ)
    → Runs Cleaned (fresh true) k (shm_writer len_shr msg)
      × Runs Detached (fresh false) k (shm_reader len_shr)
      × Runs Detached (fresh true) k (plain_writer argc arg)
      × Runs Detached (fresh false) k plain_reader
      × Runs Detached left_over k cleaner
all_give_back k len_shr argc msg arg =
    let plain = plain_detach k argc arg in
    (writer_cleans k len_shr msg, reader_detaches k len_shr, plain.0, plain.1, plain.2)
