-- ===== src/OneWay.antt =====
-- Course_MohanM/10_Threads/10_2_Introduction_to_Conditional_Variables_to_Signal_Anywhere_and_Mutex/main.c: `main` and
-- the thread t1, one call or one access to what they share at a time. The pthread calls succeed, as CHECK_ERR ends
-- the process where one fails.
use linux_system_programming.Base.{
  ℕ, Bool, true, false, not, Option, none, some, if◌then◌else◌, ◌≡◌, ◌&&◌,
}
pub mod Safety
mod Tests

pub data Who : Type 0 where
  by_main by_t1 : Who

-- The mutex, the flag, and whether `main` waits on `cond`. `passed`: `passed_val` of t1, when it has been read.
pub record Shared : Type 0 where
  pub mutex : Option Who
  pub work_done : Bool
  pub main_waits : Bool
  pub passed : Option ℕ

pub data MainPc : Type 0 where
  create : MainPc  -- line 100
  lock_first test_work : MainPc  -- lines 105 and 106
  asleep : MainPc  -- inside `pthread_cond_wait`
  unlock_last : MainPc  -- line 111
  join : MainPc  -- line 118
  main_exited : MainPc

-- `dangling`: t1 has read `val_to_pass` of a `main` that has ended.
pub data T1Pc : Type 0 where
  absent read_arg : T1Pc  -- line 132
  lock_work set_work signal_work unlock_work : T1Pc  -- lines 142 to 145
  t1_exited dangling : T1Pc

abbrev pub is_free : Shared → Bool
is_free s = elim s.mutex [ none ↦ true | some w ↦ false ]

-- `int val_to_pass = 5`
abbrev pub val_to_pass : ℕ
val_to_pass = 5

abbrev pub has_exited : T1Pc → Bool
has_exited t1_exited = true
has_exited p = false

-- The next step of `main`, and where t1 then stands; `none` where `main` is blocked or has ended.
unfoldable pub main_step : Shared → T1Pc → MainPc → Option (Shared × T1Pc × MainPc)
main_step s p create = some (s, read_arg, lock_first)
main_step s p lock_first =
    if is_free s then some (record s { mutex = some by_main }, p, test_work) else none
main_step s p test_work =
    if s.work_done
    then some (s, p, unlock_last)
    else some (record s { mutex = none; main_waits = true }, p, asleep)
main_step s p asleep =
    if not s.main_waits && is_free s
    then some (record s { mutex = some by_main }, p, test_work)
    else none
main_step s p unlock_last = some (record s { mutex = none }, p, join)
main_step s p join = if has_exited p then some (s, p, main_exited) else none
main_step s p main_exited = none

abbrev pub has_ended : MainPc → Bool
has_ended main_exited = true
has_ended q = false

-- The next step of t1.
unfoldable pub t1_step : (main_ended : Bool) → Shared → T1Pc → Option (Shared × T1Pc)
t1_step ended s absent = none
t1_step ended s read_arg =
    if ended then some (s, dangling) else some (record s { passed = some val_to_pass }, lock_work)
t1_step ended s lock_work =
    if is_free s then some (record s { mutex = some by_t1 }, set_work) else none
t1_step ended s set_work = some (record s { work_done = true }, signal_work)
t1_step ended s signal_work = some (record s { main_waits = false }, unlock_work)
t1_step ended s unlock_work = some (record s { mutex = none }, t1_exited)
t1_step ended s t1_exited = none
t1_step ended s dangling = none

pub record System : Type 0 where
  pub shared : Shared
  pub main : MainPc
  pub t1 : T1Pc

-- One step of either thread. The wait of `main` may also end by a spurious wakeup.
pub data Step (s : System) : System → Type 0 where
  main_runs :
      {m : Shared} {p : T1Pc} {q : MainPc}
      → main_step s.shared s.t1 s.main ≡ some (m, p, q)
      → Step s (record { shared = m; main = q; t1 = p })
  t1_runs :
      {m : Shared} {p : T1Pc}
      → t1_step (has_ended s.main) s.shared s.t1 ≡ some (m, p)
      → Step s (record s { shared = m; t1 = p })
  main_wakes : Step s (record s { shared = record (s.shared) { main_waits = false } })

abbrev pub init : System
init = record {
  shared = record { mutex = none; work_done = false; main_waits = false; passed = none };
  main = create;
  t1 = absent;
}

pub data Reach : System → Type 0 where
  start : Reach init
  later : {s t : System} → Reach s → Step s t → Reach t
