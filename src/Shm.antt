-- ===== src/Shm.antt =====
-- The calls of the shared-memory programs (Course_MohanM/13_Shared_Memory and
-- Course_MohanM/12_Semaphore/12_2_Unnamed_Semaphores/12_2_2_Inter_Processes_with_Shared_Memory),
-- and the ledger of what a process holds.
pub mod Writer
pub mod Reader
pub mod Plain
pub mod Handshake
pub mod Cleanup
mod Tests
pub use linux_system_programming.Sys.{◌>>=◌, Status, success, failure, Reports}
use linux_system_programming.Base.{
  ℕ, Bool, true, false, not, ◌&&◌, ◌==◌, ◌≡◌, Option, none, some, List, String, if◌then◌else◌,
}
use linux_system_programming.Sys.{Reply, failed, done, Prog, Rules, exit, do_call, ◌>>◌}

-- `shm_open` with O_RDWR | O_CREAT | O_EXCL, with O_RDWR | O_CREAT, and without O_CREAT
pub data OpenMode : Type 0 where
  create_new create existing : OpenMode

pub data Sem : Type 0 where
  data_ready reader_done : Sem

-- PSHARED_SETTING
pub data Pshared : Type 0 where
  between_threads between_processes : Pshared

-- `fputs_stderr` stands for `fprintf(stderr, …)`, and `store` and `load` for what the program does
-- to the mapped bytes. The name is "/shm1" in every program.
pub data Call : Type 0 where
  perror fputs_stderr : String → Call
  shm_open : OpenMode → Call
  ftruncate : (fd len : ℕ) → Call
  fstat : (fd : ℕ) → Call
  mmap : (len fd : ℕ) → Call
  close : (fd : ℕ) → Call
  sem_init : Sem → Pshared → (value : ℕ) → Call
  store : List ℕ → Call
  load : Call
  sem_post sem_wait sem_destroy : Sem → Call
  munmap : (len : ℕ) → Call
  shm_unlink : Call

-- `owner`: the process created the object, so it may size, unlink and destroy. `fd`, `map`: the open
-- descriptor, and the length of the mapping. `named`: the name is there for this process to use.
-- `ready`, `acked`: the two semaphores are initialised. `fault`: some call failed, or the program refused its input.
pub record Ledger : Type 0 where
  pub owner : Bool
  pub fd : Option ℕ
  pub map : Option ℕ
  pub named : Bool
  pub ready : Bool
  pub acked : Bool
  pub fault : Bool

abbrev pub is_some {ℓ} : {A : Type ℓ} → Option A → Bool
is_some none = false
is_some (some a) = true

abbrev pub holds : Option ℕ → ℕ → Bool
holds none n = false
holds (some m) n = m == n

abbrev pub live : Ledger → Sem → Bool
live s data_ready = s.ready
live s reader_done = s.acked

abbrev pub set_live : Ledger → Sem → Bool → Ledger
set_live s data_ready b = record s { ready = b }
set_live s reader_done b = record s { acked = b }

abbrev pub allowed : Ledger → Call → Bool
allowed s (perror m) = true
allowed s (fputs_stderr m) = true
allowed s (shm_open m) = not (is_some s.fd)
allowed s (ftruncate f n) = s.owner && holds s.fd f
allowed s (fstat f) = holds s.fd f
allowed s (mmap n f) = holds s.fd f && not (is_some s.map)
allowed s (close f) = holds s.fd f
allowed s (sem_init x p v) = s.owner && is_some s.map && not (live s x)
allowed s (store bs) = is_some s.map
allowed s load = is_some s.map
allowed s (sem_post x) = is_some s.map && live s x
allowed s (sem_wait x) = is_some s.map && live s x
allowed s (sem_destroy x) = s.owner && is_some s.map && live s x
allowed s (munmap n) = holds s.map n
allowed s shm_unlink = s.owner && s.named

abbrev pub flag : Ledger → Reply → Ledger
flag s (failed e) = record s { fault = true }
flag s (done n bytes) = s

-- A release counts when it is asked for, whatever its reply: it is not to be asked for twice.
-- A failing `sem_destroy` is reported and is no fault.
abbrev pub step : Ledger → Call → Reply → Ledger
step s (perror m) r = s
step s (fputs_stderr m) r = record s { fault = true }
step s (shm_open m) (failed e) = record s { fault = true }
step s (shm_open m) (done f bytes) = record s { fd = some f; named = true }
step s (ftruncate f n) r = flag s r
step s (fstat f) r = flag s r
step s (mmap n f) (failed e) = record s { fault = true }
step s (mmap n f) (done a bytes) = record s { map = some n }
step s (close f) r = flag (record s { fd = none }) r
step s (sem_init x p v) (failed e) = record s { fault = true }
step s (sem_init x p v) (done n bytes) = set_live s x true
step s (store bs) r = s
step s load r = s
step s (sem_post x) r = flag s r
step s (sem_wait x) r = flag s r
step s (sem_destroy x) r = set_live s x false
step s (munmap n) r = flag (record s { map = none }) r
step s shm_unlink r = flag (record s { named = false }) r

abbrev pub rules : Rules Call
rules = record { Ledger = Ledger; Allowed = λ s c. allowed s c ≡ true; step = step }

-- A process that has called nothing yet. Only the creator is the owner.
abbrev pub fresh : Bool → Ledger
fresh own = record {
  owner = own;
  fd = none;
  map = none;
  named = false;
  ready = not own;
  acked = not own;
  fault = false;
}

-- Every descriptor, mapping, semaphore and name that the owner made has been given back.
pub record Cleaned (s : Ledger) (e : Status) : Type 0 where
  pub closed : s.fd ≡ none
  pub unmapped : s.map ≡ none
  pub unlinked : s.named ≡ false
  pub destroyed : (s.ready ≡ false) × (s.acked ≡ false)
  pub reported : Reports s.fault e

-- A process that owns no name gives back its descriptor and its mapping.
pub record Detached (s : Ledger) (e : Status) : Type 0 where
  pub closed : s.fd ≡ none
  pub unmapped : s.map ≡ none
  pub reported : Reports s.fault e

-- `perror(m); exit(EXIT_FAILURE)`
abbrev pub die : {A : Type 0} → String → Prog Call Status A
die m = do_call (perror m) >> exit failure
