-- ===== src/Cancel.antt =====
-- Course_MohanM/10_Threads/10_5_Canceling_a_Thread/main.c: `main` cancels the thread t1, which counts.
-- One call or one access to a shared variable at a time; a failing pthread call ends the process by
-- CHECK_ERR. Cancellation is deferred: t1 ends by it at `pthread_testcancel`, in a wait or in the
-- printf after its loop; those before the loop come before the cancellation. The handler that t1
-- pushes and pops between lock and unlock runs in none of them. `pthread_cancel` of a thread that
-- has ended does nothing.
use linux_system_programming.Base.{
  ltb, ℕ, Bool, true, false, not, Option, none, some, if◌then◌else◌, ◌+◌, ◌≡◌, ◌&&◌,
}
pub mod Invariant
pub mod Safety
mod Tests

abbrev pub max_count : ℕ
max_count = 150

abbrev pub count_to_stop : ℕ
count_to_stop = 50

pub data Who : Type 0 where
  by_main by_t1 : Who

-- `main_waits` for `cond_from_t1`, `t1_waits` for `cond_from_main`. `cancelled`: `pthread_cancel` was
-- called.
pub record Shared : Type 0 where
  pub mutex : Option Who
  pub t1_ready : Bool
  pub t1_to_continue : Bool
  pub counter : ℕ
  pub cancelled : Bool
  pub main_waits : Bool
  pub t1_waits : Bool

pub data MainPc : Type 0 where
  lock_first : MainPc  -- line 88
  test_ready : MainPc
  asleep_ready : MainPc
  set_continue : MainPc
  signal_continue : MainPc
  unlock_first : MainPc
  lock_second : MainPc  -- line 100
  test_counter : MainPc
  asleep_counter : MainPc
  cancel : MainPc  -- line 106
  unlock_second : MainPc
  main_exited : MainPc

-- `i` is the loop variable of line 130.
pub data T1Pc : Type 0 where
  lock_ready : T1Pc  -- line 118
  set_ready : T1Pc
  signal_ready : T1Pc
  test_continue : T1Pc
  asleep_continue : T1Pc
  unlock_ready : T1Pc
  test_loop lock_count count_one signal_count unlock_count test_cancel : (i : ℕ) → T1Pc
  print_end : T1Pc  -- line 147
  t1_exited : T1Pc  -- by `pthread_exit`
  t1_cancelled : (holding : Bool) → T1Pc  -- by `pthread_cancel`; `holding`: with the mutex

abbrev pub is_free : Shared → Bool
is_free s = elim s.mutex [ none ↦ true | some w ↦ false ]

abbrev pub is_own : Shared → Bool
is_own s = elim s.mutex [ none ↦ false | some by_main ↦ false | some by_t1 ↦ true ]

-- The next step of `main`; `none` where it is blocked or has ended.
unfoldable pub main_step : Shared → MainPc → Option (Shared × MainPc)
main_step s lock_first =
    if is_free s then some (record s { mutex = some by_main }, test_ready) else none
main_step s test_ready =
    if s.t1_ready
    then some (s, set_continue)
    else some (record s { mutex = none; main_waits = true }, asleep_ready)
main_step s asleep_ready =
    if not s.main_waits && is_free s
    then some (record s { mutex = some by_main }, test_ready)
    else none
main_step s set_continue = some (record s { t1_to_continue = true }, signal_continue)
main_step s signal_continue = some (record s { t1_waits = false }, unlock_first)
main_step s unlock_first = some (record s { mutex = none }, lock_second)
main_step s lock_second =
    if is_free s then some (record s { mutex = some by_main }, test_counter) else none
main_step s test_counter =
    if ltb s.counter count_to_stop
    then some (record s { mutex = none; main_waits = true }, asleep_counter)
    else some (s, cancel)
main_step s asleep_counter =
    if not s.main_waits && is_free s
    then some (record s { mutex = some by_main }, test_counter)
    else none
main_step s cancel = some (record s { cancelled = true }, unlock_second)
main_step s unlock_second = some (record s { mutex = none }, main_exited)
main_step s main_exited = none

-- The next step of t1. A wait is a cancellation point, and ends with the mutex taken again.
unfoldable pub t1_step : Shared → T1Pc → Option (Shared × T1Pc)
t1_step s lock_ready = if is_free s then some (record s { mutex = some by_t1 }, set_ready) else none
t1_step s set_ready = some (record s { t1_ready = true }, signal_ready)
t1_step s signal_ready = some (record s { main_waits = false }, test_continue)
t1_step s test_continue =
    if s.t1_to_continue
    then some (s, unlock_ready)
    else some (record s { mutex = none; t1_waits = true }, asleep_continue)
t1_step s asleep_continue =
    if is_free s
    then (if s.cancelled
        then some (record s { mutex = some by_t1 }, t1_cancelled true)
        else if s.t1_waits
        then none
        else some (record s { mutex = some by_t1 }, test_continue))
    else none
t1_step s unlock_ready = some (record s { mutex = none }, test_loop 0)
t1_step s (test_loop i) = if ltb i max_count then some (s, lock_count i) else some (s, print_end)
t1_step s (lock_count i) =
    if is_free s then some (record s { mutex = some by_t1 }, count_one i) else none
t1_step s (count_one i) = some (record s { counter = s.counter + 1 }, signal_count i)
t1_step s (signal_count i) = some (record s { main_waits = false }, unlock_count i)
t1_step s (unlock_count i) = some (record s { mutex = none }, test_cancel i)
t1_step s (test_cancel i) =
    if s.cancelled then some (s, t1_cancelled (is_own s)) else some (s, test_loop (i + 1))
t1_step s print_end = some (s, t1_exited)
t1_step s t1_exited = none
t1_step s (t1_cancelled holding) = none

pub record System : Type 0 where
  pub shared : Shared
  pub main : MainPc
  pub t1 : T1Pc

-- One step of either thread. A wait may also end with no signal, and the printf after the loop, which may
-- be a cancellation point, with the end of t1.
pub data Step (s : System) : System → Type 0 where
  main_runs :
      {m : Shared} {p : MainPc}
      → main_step s.shared s.main ≡ some (m, p)
      → Step s (record s { shared = m; main = p })
  t1_runs :
      {m : Shared} {p : T1Pc}
      → t1_step s.shared s.t1 ≡ some (m, p)
      → Step s (record s { shared = m; t1 = p })
  main_wakes : Step s (record s { shared = record (s.shared) { main_waits = false } })
  t1_wakes : Step s (record s { shared = record (s.shared) { t1_waits = false } })
  end_cancelled :
      s.t1 ≡ print_end
      → s.shared.cancelled ≡ true
      → Step s (record s { t1 = t1_cancelled (is_own s.shared) })

-- After `pthread_create` and `pthread_detach`
abbrev pub init : System
init = record {
  shared = record {
    mutex = none;
    t1_ready = false;
    t1_to_continue = false;
    counter = 0;
    cancelled = false;
    main_waits = false;
    t1_waits = false;
  };
  main = lock_first;
  t1 = lock_ready;
}

pub data Reach : System → Type 0 where
  start : Reach init
  later : {s t : System} → Reach s → Step s t → Reach t
