-- ===== src/NamedSem.antt =====
-- The three processes of Course_MohanM/12_Semaphore/12_1_Named_Semaphore: Process_1/main.c creates
-- and removes two named semaphores, Process_2/main.c and Process_3/main.c join it.
use linux_system_programming.Base.{
  ℕ, zero, suc, String, Bool, true, false, Option, none, some, if◌then◌else◌, ◌||◌,
}
pub mod Discipline
pub mod Together
mod Tests
use linux_system_programming.Sys.{
  Reply, failed, done, Prog, pure, exit, call, do_call, ◌>>=◌, ◌>>◌, Status, success, failure,
}

-- "/sem1" and "/sem_done_cnt"
pub data Sem : Type 0 where
  sem sem_done_cnt : Sem

-- `sem_open` with an initial value passes O_CREAT too.
pub data Call : Type 0 where
  perror : String → Call
  sem_open : Sem → (initial : Option ℕ) → Call
  sem_getvalue sem_wait sem_post sem_close sem_unlink : Sem → Call
  sleep : (seconds : ℕ) → Call

abbrev pub is_failed : Reply → Bool
is_failed (failed e) = true
is_failed (done n bytes) = false

-- for (int i = 0; i < CNT_JOINERS_EXPECTED; ++i), by the rounds left
unfoldable pub wait_for_joiners : ℕ → Prog Call Status (Unit {0})
wait_for_joiners zero = pure tt
wait_for_joiners (suc rounds) = call (sem_wait sem_done_cnt) (elim [
  | failed e ↦ do_call (perror "sem_wait sem_done_cnt failed") >> exit failure
  | done n bytes ↦ wait_for_joiners rounds
])

abbrev pub cnt_joiners_expected : ℕ
cnt_joiners_expected = 2

-- What Process 1 does after its critical section.
unfoldable pub retire : Prog Call Status Status
unfolding wait_for_joiners
retire = do
  wait_for_joiners cnt_joiners_expected
  do_call (sem_getvalue sem_done_cnt)
  do_call (sem_close sem_done_cnt)
  do_call (sem_close sem)
  do_call (sem_unlink sem_done_cnt)
  do_call (sem_unlink sem)
  exit success

-- What Process 1 does once both semaphores are open.
unfoldable pub manage : Prog Call Status Status
unfolding retire
manage = do
  do_call (sem_getvalue sem)
  do_call (sem_wait sem)
  do_call (sem_getvalue sem)
  do_call (sleep 10)
  do_call (sem_post sem)
  do_call (sem_getvalue sem)
  retire

-- Both `sem_open` calls are made before either result is looked at.
unfoldable pub process_1 : Prog Call Status Status
unfolding manage
process_1 = call (sem_open sem (some 2)) λ r. call (sem_open sem_done_cnt (some 0)) λ r'.
    if is_failed r || is_failed r'
    then do_call (perror "sem_open failed") >> exit failure
    else manage

-- What Processes 2 and 3 do once both semaphores are open.
unfoldable pub join : (sleep_time_s : ℕ) → Prog Call Status Status
join sleep_time_s = do
  do_call (sem_getvalue sem)
  do_call (sem_wait sem)
  do_call (sem_getvalue sem)
  do_call (sleep sleep_time_s)
  do_call (sem_post sem)
  do_call (sem_getvalue sem)
  do_call (sem_post sem_done_cnt)
  do_call (sem_close sem_done_cnt)
  do_call (sem_close sem)
  exit success

unfoldable pub joiner : (sleep_time_s : ℕ) → Prog Call Status Status
unfolding join
joiner sleep_time_s = call (sem_open sem none) λ r. call (sem_open sem_done_cnt none) λ r'.
    if is_failed r || is_failed r'
    then do_call (perror "sem_open failed") >> exit failure
    else join sleep_time_s

-- SLEEP_TIME_S is 7 in Process 2 and 5 in Process 3.
abbrev pub process_2 : Prog Call Status Status
process_2 = joiner 7

abbrev pub process_3 : Prog Call Status Status
process_3 = joiner 5
