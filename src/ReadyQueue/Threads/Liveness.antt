-- ===== src/ReadyQueue/Threads/Liveness.antt =====
-- No reachable state of 10_9 is stuck.
use linux_system_programming.Base.{ℕ, Bool, true, false, ◌≡◌}
use linux_system_programming.ReadyQueue.Threads.{
  Thread, MainPc, exited, main_exited, take_sync, retake_sync, asleep_queue, take_data,
}

-- All three threads have ended.
abbrev pub AllExited : (ℕ → Thread) → Type 0
AllExited ts = ((ts 0).pc ≡ exited) × ((ts 1).pc ≡ exited) × ((ts 2).pc ≡ exited)

-- `main` takes a mutex, sleeps or has ended.
abbrev may_block : MainPc → Bool
may_block take_sync = true
may_block retake_sync = true
may_block asleep_queue = true
may_block (take_data id) = true
may_block main_exited = true
may_block m = false
