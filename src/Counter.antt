-- ===== src/Counter.antt =====
-- Course_MohanM/12_Semaphore/12_2_Unnamed_Semaphores/12_2_1_Inter_Threads/main.c: `main` and its
-- threads, one call or one access to `glob` at a time. Calls whose result the code tests may fail;
-- those on the mutex succeed.
pub mod Tally
pub mod Invariant
pub mod Threads
pub mod Main
pub mod Result
mod Tests
use linux_system_programming.Base.{
  get_or, ltb, ℕ, zero, suc, List, ◌-◌, [], ◌∷◌, ◌++◌, Bool, true, false, Option, none, some,
  if◌then◌else◌, ◌≡◌, ◌+◌,
}

-- CNT_THREADS, SVAL_INITIAL and LOOP_COUNT
abbrev pub cnt_threads : ℕ
cnt_threads = 3

abbrev pub sval_initial : ℕ
sval_initial = 2

abbrev pub loop_count : ℕ
loop_count = 1000000

-- `for (int j = 0; j < LOOP_COUNT; j++) local++;`, by the rounds left
pub count_up : (rounds local : ℕ) → ℕ
count_up zero local = local
count_up (suc rounds) local = count_up rounds (local + 1)

-- Where `threadFunc` stands. `loaded` and `local` are the operands of `glob += local`.
pub data Pc : Type 0 where
  wait_sem : Pc  -- line 121
  counting : Pc  -- lines 128 to 132
  lock_mutex : (local : ℕ) → Pc
  load_glob : (local : ℕ) → Pc
  store_glob : (local loaded : ℕ) → Pc
  unlock_mutex : Pc
  post_sem : Pc  -- line 140
  returned : Pc

-- `refused` and `lost` count the calls of `sem_wait` and `sem_post` that failed.
pub record Shared : Type 0 where
  pub sem : ℕ
  pub mutex : Bool
  pub glob : ℕ
  pub refused : ℕ
  pub lost : ℕ

-- The next step of a thread; `none` where it is blocked or has ended. `ok`: the call does not fail.
-- A thread whose `sem_wait` fails reports that and goes on.
unfoldable pub thread_step : (ok : Bool) → Shared → Pc → Option (Shared × Pc)
thread_step true s wait_sem =
    if ltb 0 s.sem then some (record s { sem = s.sem - 1 }, counting) else none
thread_step false s wait_sem = some (record s { refused = s.refused + 1 }, counting)
thread_step ok s counting = some (s, lock_mutex (count_up loop_count 0))
thread_step ok s (lock_mutex local) =
    if s.mutex then none else some (record s { mutex = true }, load_glob local)
thread_step ok s (load_glob local) = some (s, store_glob local s.glob)
thread_step ok s (store_glob local loaded) = some (record s { glob = loaded + local }, unlock_mutex)
thread_step ok s unlock_mutex = some (record s { mutex = false }, post_sem)
thread_step true s post_sem = some (record s { sem = s.sem + 1 }, returned)
thread_step false s post_sem = some (record s { lost = s.lost + 1 }, returned)
thread_step ok s returned = none

-- Where `main` stands: `creating i` and `joining i` are the two loops.
pub data MainPc : Type 0 where
  creating joining : (i : ℕ) → MainPc
  printed : (glob : ℕ) → MainPc
  gone : MainPc  -- after `exit(EXIT_FAILURE)`

pub record System : Type 0 where
  pub shared : Shared
  pub threads : List Pc
  pub main : MainPc

abbrev pub is_returned : Pc → Bool
is_returned returned = true
is_returned p = false

unfoldable pub main_step : (ok : Bool) → System → MainPc → Option System
main_step ok s (creating i) =
    if ltb i cnt_threads
    then (if ok
        then some (record s { threads = s.threads ++ (wait_sem ∷ []); main = creating (i + 1) })
        else some (record s { main = gone }))
    else some (record s { main = joining 0 })
main_step ok s (joining i) =
    if ltb i cnt_threads
    then (if ok
        then (if is_returned (get_or s.threads i wait_sem)
            then some (record s { main = joining (i + 1) })
            else none)
        else some (record s { main = gone }))
    else some (record s { main = printed s.shared.glob })
main_step ok s (printed glob) = none
main_step ok s gone = none

-- After `sem_init`
abbrev pub init : System
init = record {
  shared = record { sem = sval_initial; mutex = false; glob = 0; refused = 0; lost = 0 };
  threads = [];
  main = creating 0;
}

-- One step of `main`, or of a thread that stands anywhere among the others.
pub data Step (s : System) : System → Type 0 where
  main_runs : {t : System} (ok : Bool) → main_step ok s s.main ≡ some t → Step s t
  thread_runs :
      {m : Shared} {p : Pc} (ok : Bool) (before after : List Pc) (q : Pc)
      → s.threads ≡ before ++ (q ∷ after)
      → thread_step ok s.shared q ≡ some (m, p)
      → Step s (record s { shared = m; threads = before ++ (p ∷ after) })

pub data Reach : System → Type 0 where
  start : Reach init
  later : {s t : System} → Reach s → Step s t → Reach t
