-- ===== src/ReadyQueue/Threads.antt =====
-- `main` and `thread_handler` of Course_MohanM/10_Threads/
-- 10_9_Dynamic_Mutex_and_Condition_Variables_Multiple_Threads_FIFO/main.c around the ready queue: one call or
-- one access at a time. A failing pthread call ends the process by CHECK_ERR, and is no step. The
-- pthread_*_destroy calls that `main` makes for a thread it has joined, whose objects nobody uses then, are left out.
use linux_system_programming.Base.{
  ltb, ℕ, Bool, true, false, not, Option, none, some, ◌==◌, if◌then◌else◌, ◌+◌, ◌<◌, ◌≡◌, ◌&&◌,
  ◌||◌,
}
use linux_system_programming.ReadyQueue.{
  Queue, count_of_threads, empty_queue, is_empty, ready_queue_push, ready_queue_pop,
}
pub mod Invariant
pub mod Totals
pub mod Preserved
pub mod Sums
pub mod Steps
pub mod Reachable
pub mod Safety
pub mod Progress
pub mod Liveness
mod Tests

-- Where `thread_handler` stands.
pub data Pc : Type 0 where
  lock_ready : Pc  -- line 164
  set_ready : Pc
  signal_ready : Pc
  unlock_ready : Pc
  lock_sync : Pc  -- line 169
  push : Pc
  signal_main : Pc
  unlock_sync : Pc
  lock_wait : Pc  -- line 176
  test_proceed : Pc
  asleep : Pc
  unlock_wait : Pc
  exited : Pc

-- A thread with its `thread_data_t`. `mutex`: it is taken; `waits` for `cond_to_t`; `joined`: `t[i]` is 0.
-- Nobody waits for `cond_from_t`; `arg` is only printed.
pub record Thread : Type 0 where
  pub pc : Pc
  pub ready : Bool
  pub to_proceed : Bool
  pub mutex : Bool
  pub waits : Bool
  pub joined : Bool

-- `sync`: `mutex_g_sync` is taken; `main_waits` for `cond_g_to_main`. Nobody waits for `cond_g_to_t`.
pub record Shared : Type 0 where
  pub queue : Queue
  pub sync : Bool
  pub main_waits : Bool

-- The next step of the thread `id`; `none` where it is blocked or has ended.
unfoldable pub thread_step : (id : ℕ) → Shared → Thread → Pc → Option (Shared × Thread)
thread_step id s t lock_ready =
    if t.mutex then none else some (s, record t { mutex = true; pc = set_ready })
thread_step id s t set_ready = some (s, record t { ready = true; pc = signal_ready })
thread_step id s t signal_ready = some (s, record t { pc = unlock_ready })
thread_step id s t unlock_ready = some (s, record t { mutex = false; pc = lock_sync })
thread_step id s t lock_sync =
    if s.sync then none else some (record s { sync = true }, record t { pc = push })
thread_step id s t push =
    some (record s { queue = ready_queue_push id s.queue }, record t { pc = signal_main })
thread_step id s t signal_main =
    some (record s { main_waits = false }, record t { pc = unlock_sync })
thread_step id s t unlock_sync = some (record s { sync = false }, record t { pc = lock_wait })
thread_step id s t lock_wait =
    if t.mutex then none else some (s, record t { mutex = true; pc = test_proceed })
thread_step id s t test_proceed =
    if t.to_proceed
    then some (s, record t { pc = unlock_wait })
    else some (s, record t { mutex = false; waits = true; pc = asleep })
thread_step id s t asleep =
    if t.waits || t.mutex then none else some (s, record t { mutex = true; pc = test_proceed })
thread_step id s t unlock_wait = some (s, record t { mutex = false; pc = exited })
thread_step id s t exited = none

-- Where `main` stands.
pub data MainPc : Type 0 where
  test_count : MainPc  -- line 82
  take_sync : MainPc
  test_queue : MainPc  -- line 85
  asleep_queue : MainPc
  pop : MainPc  -- line 91
  give_sync take_data test_told signal_data give_data : (id : ℕ) → MainPc  -- lines 93 to 103
  retake_sync : MainPc
  leave_sync : MainPc
  test_finished : MainPc  -- line 110
  collect : (i : ℕ) → MainPc  -- line 112
  main_exited : MainPc

-- `count` and `finished` are `count_of_ready_threads` and `finished_threads`.
pub record System : Type 0 where
  pub shared : Shared
  pub threads : ℕ → Thread
  pub count : ℕ
  pub finished : ℕ
  pub main : MainPc

abbrev pub replace : ℕ → Thread → (ℕ → Thread) → ℕ → Thread
replace i t threads j = if j == i then t else threads j

abbrev pub has_exited : Pc → Bool
has_exited exited = true
has_exited p = false

-- A turn of the inner loop of `main` begins by a pop.
abbrev pub popped : System → Option ℕ × Queue → System
popped s (none, q) = record s { shared = record (s.shared) { queue = q }; main = leave_sync }
popped s (some id, q) = record s { shared = record (s.shared) { queue = q }; main = give_sync id }

-- `main` where it does not touch the data of a thread.
unfoldable pub sync_step : System → MainPc → Option System
sync_step s test_count =
    some (record s { main = if ltb s.count count_of_threads then take_sync else test_finished })
sync_step s take_sync =
    if s.shared.sync
    then none
    else some (record s { shared = record (s.shared) { sync = true }; main = test_queue })
sync_step s test_queue =
    if is_empty s.shared.queue
    then some (record s {
      shared = record (s.shared) { sync = false; main_waits = true };
      main = asleep_queue;
    })
    else some (record s { main = pop })
sync_step s asleep_queue =
    if s.shared.main_waits || s.shared.sync
    then none
    else some (record s { shared = record (s.shared) { sync = true }; main = test_queue })
sync_step s pop = some (popped s (ready_queue_pop s.shared.queue))
sync_step s (give_sync id) =
    some (record s { shared = record (s.shared) { sync = false }; main = take_data id })
sync_step s retake_sync =
    if s.shared.sync
    then none
    else some (record s { shared = record (s.shared) { sync = true }; main = pop })
sync_step s leave_sync =
    some (record s { shared = record (s.shared) { sync = false }; main = test_count })
sync_step s test_finished =
    some (record s { main = if ltb s.finished count_of_threads then collect 0 else main_exited })
sync_step s p = none

-- `main` where it touches the data `t` of the thread `id`, or joins it: the new data, what is added to
-- the two counters, and where it goes on.
unfoldable pub data_step : (id : ℕ) → Thread → MainPc → Option (Thread × ℕ × ℕ × MainPc)
data_step id t (take_data id') =
    if t.mutex then none else some (record t { mutex = true }, 0, 0, test_told id)
data_step id t (test_told id') =
    if t.to_proceed
    then some (t, 0, 0, give_data id)
    else some (record t { to_proceed = true }, 1, 0, signal_data id)
data_step id t (signal_data id') = some (record t { waits = false }, 0, 0, give_data id)
data_step id t (give_data id') = some (record t { mutex = false }, 0, 0, retake_sync)
data_step id t (collect i) =
    if ltb i count_of_threads
    then (if not t.joined && has_exited t.pc
        then some (record t { joined = true }, 0, 1, collect (i + 1))
        else some (t, 0, 0, collect (i + 1)))
    else some (t, 0, 0, test_finished)
data_step id t p = none

-- The thread whose data `main` touches.
abbrev pub touched : MainPc → Option ℕ
touched (take_data id) = some id
touched (test_told id) = some id
touched (signal_data id) = some id
touched (give_data id) = some id
touched (collect i) = some i
touched p = none

-- One step of `main` or of one of the threads. A wait may also end with no signal.
pub data Step (s : System) : System → Type 0 where
  main_runs : {t : System} → sync_step s s.main ≡ some t → Step s t
  main_touches :
      (id : ℕ) {d : Thread} {told joined : ℕ} {m : MainPc}
      → touched s.main ≡ some id
      → data_step id (s.threads id) s.main ≡ some (d, told, joined, m)
      → Step s (record s {
        threads = replace id d s.threads;
        count = s.count + told;
        finished = s.finished + joined;
        main = m;
      })
  thread_runs :
      (id : ℕ) {m : Shared} {d : Thread}
      → id < count_of_threads
      → thread_step id s.shared (s.threads id) (s.threads id).pc ≡ some (m, d)
      → Step s (record s { shared = m; threads = replace id d s.threads })
  main_wakes : Step s (record s { shared = record (s.shared) { main_waits = false } })
  thread_wakes :
      (id : ℕ)
      → id < count_of_threads
      → Step s
          (record s { threads = replace id (record (s.threads id) { waits = false }) s.threads })

abbrev pub fresh : Thread
fresh = record {
  pc = lock_ready;
  ready = false;
  to_proceed = false;
  mutex = false;
  waits = false;
  joined = false;
}

-- The threads run from their creation on; a thread that is not created yet is one that has made no
-- step.
abbrev pub init : System
init = record {
  shared = record { queue = empty_queue; sync = false; main_waits = false };
  threads = λ _. fresh;
  count = 0;
  finished = 0;
  main = test_count;
}

pub data Reach : System → Type 0 where
  start : Reach init
  later : {s t : System} → Reach s → Step s t → Reach t
