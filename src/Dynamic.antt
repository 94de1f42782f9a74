-- ===== src/Dynamic.antt =====
-- Course_MohanM/10_Threads/10_7_Dynamic_Mutex_and_Condition_Variables_Detachable/main.c and
-- 10_8_Dynamic_Mutex_and_Condition_Variables_Joinable_Safer/main.c: `main` and the thread t1 share a
-- heap object with a mutex and two condition variables, which t1 destroys in 10_7 and `main` in
-- 10_8. One call or one access at a time; a failing pthread call ends the process by CHECK_ERR.
use linux_system_programming.Sys.{next}
use linux_system_programming.Base.{
  Bool, true, false, not, Option, none, some, if◌then◌else◌, ◌≡◌, ◌&&◌,
}
pub mod Invariant
pub mod Safety
mod Tests

pub data Who : Type 0 where
  by_main by_t1 : Who

-- `shared_data_t`, after its initialisation. `…_live`: not yet destroyed; `allocated`: not yet freed.
-- `main_waits` for `cond_from_t1`, `t1_waits` for `cond_from_main`.
pub record Shared : Type 0 where
  pub mutex : Option Who
  pub t1_ready : Bool
  pub t1_to_proceed : Bool
  pub main_waits : Bool
  pub t1_waits : Bool
  pub mutex_live : Bool
  pub from_main_live : Bool
  pub from_t1_live : Bool
  pub allocated : Bool

-- The four steps of the clean-up, which either program has in one of its threads
pub data Cleanup : Type 0 where
  destroy_mutex destroy_from_main destroy_from_t1 free_data : Cleanup

pub data MainPc : Type 0 where
  lock : MainPc
  test_ready : MainPc  -- the `while` on `t1_ready`
  asleep_ready : MainPc
  set_proceed : MainPc
  signal_proceed : MainPc
  unlock : MainPc
  join : MainPc  -- 10_8 only
  main_cleans : Cleanup → MainPc  -- 10_8 only
  main_exited : MainPc

pub data T1Pc : Type 0 where
  t1_lock : T1Pc
  set_ready : T1Pc
  signal_ready : T1Pc
  test_proceed : T1Pc  -- the `while` on `t1_to_proceed`
  asleep_proceed : T1Pc
  t1_unlock : T1Pc
  work : T1Pc  -- reads `data->arg`
  t1_cleans : Cleanup → T1Pc  -- 10_7 only
  t1_exited : T1Pc

-- `fault`: an access to freed memory, a call on a destroyed object, or the destruction of an object
-- that is in use.
pub data Next (P : Type 0) : Type 0 where
  blocked : Next P
  fault : Next P
  moves : Shared → P → Next P

-- A step that needs the memory, the mutex or a condition variable.
abbrev pub needs : {P : Type 0} → Bool → Next P → Next P
needs true o = o
needs false o = fault

abbrev pub is_free : Shared → Bool
is_free s = elim s.mutex [ none ↦ true | some w ↦ false ]

abbrev pub take_mutex : {P : Type 0} → Who → Shared → P → Next P
take_mutex w s p =
    needs (s.allocated && s.mutex_live)
      (if is_free s then moves (record s { mutex = some w }) p else blocked)

abbrev pub drop_mutex : {P : Type 0} → Shared → P → Next P
drop_mutex s p = needs (s.allocated && s.mutex_live) (moves (record s { mutex = none }) p)

-- The step after it in the clean-up is given by `next`.
abbrev pub clean : {P : Type 0} → Shared → Cleanup → (next : Cleanup → P) → (after : P) → Next P
clean s destroy_mutex next after =
    needs (s.allocated && s.mutex_live && is_free s)
      (moves (record s { mutex_live = false }) (next destroy_from_main))
clean s destroy_from_main next after =
    needs (s.allocated && s.from_main_live && not s.t1_waits)
      (moves (record s { from_main_live = false }) (next destroy_from_t1))
clean s destroy_from_t1 next after =
    needs (s.allocated && s.from_t1_live && not s.main_waits)
      (moves (record s { from_t1_live = false }) (next free_data))
clean s free_data next after = needs s.allocated (moves (record s { allocated = false }) after)

-- What `main` does after its unlock: it joins t1 and cleans up in 10_8, and exits in 10_7.
abbrev pub after_unlock : (cleaner : Who) → MainPc
after_unlock by_main = join
after_unlock by_t1 = main_exited

-- What t1 does after its work.
abbrev pub after_work : (cleaner : Who) → T1Pc
after_work by_main = t1_exited
after_work by_t1 = t1_cleans destroy_mutex

-- The next step of `main`. `joined`: t1 has ended.
unfoldable pub main_step : (cleaner : Who) → (joined : Bool) → Shared → MainPc → Next MainPc
main_step c j s lock = take_mutex by_main s test_ready
main_step c j s test_ready = needs s.allocated (
    if s.t1_ready
    then moves s set_proceed
    else needs (s.mutex_live && s.from_t1_live)
        (moves (record s { mutex = none; main_waits = true }) asleep_ready))
main_step c j s asleep_ready = if s.main_waits then blocked else take_mutex by_main s test_ready
main_step c j s set_proceed =
    needs s.allocated (moves (record s { t1_to_proceed = true }) signal_proceed)
main_step c j s signal_proceed =
    needs (s.allocated && s.from_main_live) (moves (record s { t1_waits = false }) unlock)
main_step c j s unlock = drop_mutex s (after_unlock c)
main_step c j s join = if j then moves s (main_cleans destroy_mutex) else blocked
main_step c j s (main_cleans x) = clean s x main_cleans main_exited
main_step c j s main_exited = blocked

-- The next step of t1.
unfoldable pub t1_step : (cleaner : Who) → Shared → T1Pc → Next T1Pc
t1_step c s t1_lock = take_mutex by_t1 s set_ready
t1_step c s set_ready = needs s.allocated (moves (record s { t1_ready = true }) signal_ready)
t1_step c s signal_ready =
    needs (s.allocated && s.from_t1_live) (moves (record s { main_waits = false }) test_proceed)
t1_step c s test_proceed = needs s.allocated (
    if s.t1_to_proceed
    then moves s t1_unlock
    else needs (s.mutex_live && s.from_main_live)
        (moves (record s { mutex = none; t1_waits = true }) asleep_proceed))
t1_step c s asleep_proceed = if s.t1_waits then blocked else take_mutex by_t1 s test_proceed
t1_step c s t1_unlock = drop_mutex s work
t1_step c s work = needs s.allocated (moves s (after_work c))
t1_step c s (t1_cleans x) = clean s x t1_cleans t1_exited
t1_step c s t1_exited = blocked

pub record System : Type 0 where
  pub shared : Shared
  pub main : MainPc
  pub t1 : T1Pc

abbrev pub has_exited : T1Pc → Bool
has_exited t1_exited = true
has_exited p = false

-- One step of either thread. A wait may also end with no signal.
pub data Step (cleaner : Who) (s : System) : System → Type 0 where
  main_runs :
      {m : Shared} {p : MainPc}
      → main_step cleaner (has_exited s.t1) s.shared s.main ≡ moves m p
      → Step cleaner s (record s { shared = m; main = p })
  t1_runs :
      {m : Shared} {p : T1Pc}
      → t1_step cleaner s.shared s.t1 ≡ moves m p
      → Step cleaner s (record s { shared = m; t1 = p })
  main_wakes : Step cleaner s (record s { shared = record (s.shared) { main_waits = false } })
  t1_wakes : Step cleaner s (record s { shared = record (s.shared) { t1_waits = false } })

-- After `pthread_create`
abbrev pub init : System
init = record {
  shared = record {
    mutex = none;
    t1_ready = false;
    t1_to_proceed = false;
    main_waits = false;
    t1_waits = false;
    mutex_live = true;
    from_main_live = true;
    from_t1_live = true;
    allocated = true;
  };
  main = lock;
  t1 = t1_lock;
}

pub data Reach (cleaner : Who) : System → Type 0 where
  start : Reach cleaner init
  later : {s t : System} → Reach cleaner s → Step cleaner s t → Reach cleaner t
