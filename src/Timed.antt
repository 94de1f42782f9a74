-- ===== src/Timed.antt =====
-- Course_MohanM/10_Threads/10_6_Avoiding_Deadlocks_with_timedlock_and_trylock/main.c: `main`, a thread t1 that keeps the
-- mutex, and a thread t2 that wants it for two seconds at most. One call at a time; but for
-- `pthread_mutex_timedlock` the pthread calls succeed. The sleep of `main` leaves every order of the calls possible.
use linux_system_programming.Base.{Bool, true, false, Option, none, some, if◌then◌else◌, ◌≡◌}
use linux_system_programming.Sys.{Status, success, failure}
pub mod Safety
mod Tests

pub data Who : Type 0 where
  by_t1 by_t2 : Who

pub data MainPc : Type 0 where
  create_t1 detach_t1 nap create_t2 detach_t2 main_exited : MainPc

-- `spin`: the `while (1)` after the lock
pub data T1Pc : Type 0 where
  t1_absent lock_t1 spin : T1Pc

pub data T2Pc : Type 0 where
  t2_absent read_clock timed_lock unlock_t2 t2_exited : T2Pc

-- `status`: `exit` has ended the process, all threads with it.
pub record System : Type 0 where
  pub mutex : Option Who
  pub status : Option Status
  pub main : MainPc
  pub t1 : T1Pc
  pub t2 : T2Pc

abbrev pub is_free : System → Bool
is_free s = elim s.mutex [ none ↦ true | some w ↦ false ]

unfoldable pub main_step : System → MainPc → Option System
main_step s create_t1 = some (record s { t1 = lock_t1; main = detach_t1 })
main_step s detach_t1 = some (record s { main = nap })
main_step s nap = some (record s { main = create_t2 })
main_step s create_t2 = some (record s { t2 = read_clock; main = detach_t2 })
main_step s detach_t2 = some (record s { main = main_exited })
main_step s main_exited = none

-- t1 never comes to its unlock.
unfoldable pub t1_step : System → T1Pc → Option System
t1_step s t1_absent = none
t1_step s lock_t1 = if is_free s then some (record s { mutex = some by_t1; t1 = spin }) else none
t1_step s spin = some s

-- `late`: the two seconds are over, and `pthread_mutex_timedlock` gives ETIMEDOUT where the mutex is taken.
-- CHECK_ERR then ends the process.
unfoldable pub t2_step : (late : Bool) → System → T2Pc → Option System
t2_step late s t2_absent = none
t2_step late s read_clock = some (record s { t2 = timed_lock })
t2_step late s timed_lock =
    if is_free s
    then some (record s { mutex = some by_t2; t2 = unlock_t2 })
    else if late
    then some (record s { status = some failure })
    else none
t2_step late s unlock_t2 = some (record s { mutex = none; t2 = t2_exited })
t2_step late s t2_exited = none

-- One step of a thread, while the process has not ended.
pub data Step (s : System) : System → Type 0 where
  main_runs : {t : System} → s.status ≡ none → main_step s s.main ≡ some t → Step s t
  t1_runs : {t : System} → s.status ≡ none → t1_step s s.t1 ≡ some t → Step s t
  t2_runs : {t : System} (late : Bool) → s.status ≡ none → t2_step late s s.t2 ≡ some t → Step s t

abbrev pub init : System
init = record { mutex = none; status = none; main = create_t1; t1 = t1_absent; t2 = t2_absent }

pub data Reach : System → Type 0 where
  start : Reach init
  later : {s t : System} → Reach s → Step s t → Reach t

-- `t` comes after `s`, any number of steps later.
pub data Later (s : System) : System → Type 0 where
  now : Later s s
  further : {t u : System} → Later s t → Step t u → Later s u
