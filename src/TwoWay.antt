-- ===== src/TwoWay.antt =====
-- Course_MohanM/10_Threads/10_3_Two_Way_Handshake_Mutex_Condition_Variables/main.c: `main` and the
-- thread t1, one call or one access to a shared flag at a time. The pthread calls succeed, as
-- CHECK_ERR ends the process where one fails.
use linux_system_programming.Base.{
  Bool, true, false, not, Option, none, some, if◌then◌else◌, ◌≡◌, ◌&&◌,
}
pub mod Invariant
pub mod Safety
mod Tests

pub data Who : Type 0 where
  by_main by_t1 : Who

-- The mutex, the flags, and who waits on the condition variable of the other side: `main_waits` for
-- `cond_from_t1`, `t1_waits` for `cond_from_main`.
pub record Shared : Type 0 where
  pub mutex : Option Who
  pub t1_ready : Bool
  pub t1_to_proceed : Bool
  pub t1_done : Bool
  pub main_waits : Bool
  pub t1_waits : Bool

-- Where `main` stands. `asleep_…` is inside `pthread_cond_wait`.
pub data MainPc : Type 0 where
  lock_first : MainPc  -- line 53
  test_ready : MainPc  -- the `while` of line 54
  asleep_ready : MainPc
  set_proceed : MainPc  -- line 59
  signal_proceed : MainPc
  unlock_first : MainPc
  lock_second : MainPc  -- line 66
  test_done : MainPc  -- the `while` of line 68
  asleep_done : MainPc
  unlock_second : MainPc
  join : MainPc  -- line 78
  main_exited : MainPc

pub data T1Pc : Type 0 where
  lock_ready : T1Pc  -- line 95
  set_ready : T1Pc
  signal_ready : T1Pc
  test_proceed : T1Pc  -- the `while` of line 99
  asleep_proceed : T1Pc
  unlock_ready : T1Pc
  work : T1Pc  -- lines 106 to 109
  lock_done : T1Pc
  set_done : T1Pc
  signal_done : T1Pc
  unlock_done : T1Pc
  t1_exited : T1Pc

abbrev pub locked : Who → Shared → Shared
locked w s = record s { mutex = some w }

abbrev pub unlocked : Shared → Shared
unlocked s = record s { mutex = none }

abbrev pub is_free : Shared → Bool
is_free s = elim s.mutex [ none ↦ true | some w ↦ false ]

-- The next step of `main`; `none` where it is blocked or has ended. `joined`: t1 has ended.
unfoldable pub main_step : (joined : Bool) → Shared → MainPc → Option (Shared × MainPc)
main_step joined s lock_first = if is_free s then some (locked by_main s, test_ready) else none
main_step joined s test_ready =
    if s.t1_ready
    then some (s, set_proceed)
    else some (record s { mutex = none; main_waits = true }, asleep_ready)
main_step joined s asleep_ready =
    if not s.main_waits && is_free s then some (locked by_main s, test_ready) else none
main_step joined s set_proceed = some (record s { t1_to_proceed = true }, signal_proceed)
main_step joined s signal_proceed = some (record s { t1_waits = false }, unlock_first)
main_step joined s unlock_first = some (unlocked s, lock_second)
main_step joined s lock_second = if is_free s then some (locked by_main s, test_done) else none
main_step joined s test_done =
    if s.t1_done
    then some (s, unlock_second)
    else some (record s { mutex = none; main_waits = true }, asleep_done)
main_step joined s asleep_done =
    if not s.main_waits && is_free s then some (locked by_main s, test_done) else none
main_step joined s unlock_second = some (unlocked s, join)
main_step joined s join = if joined then some (s, main_exited) else none
main_step joined s main_exited = none

-- The next step of t1.
unfoldable pub t1_step : Shared → T1Pc → Option (Shared × T1Pc)
t1_step s lock_ready = if is_free s then some (locked by_t1 s, set_ready) else none
t1_step s set_ready = some (record s { t1_ready = true }, signal_ready)
t1_step s signal_ready = some (record s { main_waits = false }, test_proceed)
t1_step s test_proceed =
    if s.t1_to_proceed
    then some (s, unlock_ready)
    else some (record s { mutex = none; t1_waits = true }, asleep_proceed)
t1_step s asleep_proceed =
    if not s.t1_waits && is_free s then some (locked by_t1 s, test_proceed) else none
t1_step s unlock_ready = some (unlocked s, work)
t1_step s work = some (s, lock_done)
t1_step s lock_done = if is_free s then some (locked by_t1 s, set_done) else none
t1_step s set_done = some (record s { t1_done = true }, signal_done)
t1_step s signal_done = some (record s { main_waits = false }, unlock_done)
t1_step s unlock_done = some (unlocked s, t1_exited)
t1_step s t1_exited = none

pub record System : Type 0 where
  pub shared : Shared
  pub main : MainPc
  pub t1 : T1Pc

abbrev pub has_exited : T1Pc → Bool
has_exited t1_exited = true
has_exited p = false

-- One step of either thread. A wait may also end with no signal, by a spurious wakeup.
pub data Step (s : System) : System → Type 0 where
  main_runs :
      {m : Shared} {p : MainPc}
      → main_step (has_exited s.t1) s.shared s.main ≡ some (m, p)
      → Step s (record s { shared = m; main = p })
  t1_runs :
      {m : Shared} {p : T1Pc}
      → t1_step s.shared s.t1 ≡ some (m, p)
      → Step s (record s { shared = m; t1 = p })
  main_wakes : Step s (record s { shared = record (s.shared) { main_waits = false } })
  t1_wakes : Step s (record s { shared = record (s.shared) { t1_waits = false } })

-- After `pthread_create`
abbrev pub init : System
init = record {
  shared = record {
    mutex = none;
    t1_ready = false;
    t1_to_proceed = false;
    t1_done = false;
    main_waits = false;
    t1_waits = false;
  };
  main = lock_first;
  t1 = lock_ready;
}

pub data Reach : System → Type 0 where
  start : Reach init
  later : {s t : System} → Reach s → Step s t → Reach t
