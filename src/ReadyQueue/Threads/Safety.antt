-- ===== src/ReadyQueue/Threads/Safety.antt =====
-- What holds in every reachable state of 10_9.
use linux_system_programming.Base.{
  ℕ, ap, true, false, not, arith, ◌+◌, ◌≤◌, ◌<◌, ◌≡◌, ◌⊎◌, ◌&&◌, [], ◌∷◌, ◌++◌,
}
use linux_system_programming.ReadyQueue.{count_of_threads, ready_queue_push}
use linux_system_programming.ReadyQueue.Fifo.{items}
use linux_system_programming.ReadyQueue.Threads.{Thread, Pc, System, Reach, push, lock_ready}
use linux_system_programming.ReadyQueue.Threads.Invariant.{
  bit, total, occurrences, Own, has_pushed, has_proceeded, in_section, was_told, is_serving,
  main_holds_sync, has_reported,
}
use linux_system_programming.ReadyQueue.Threads.Totals.{push-room, bit-le}
use linux_system_programming.ReadyQueue.Threads.Preserved.{is_push}
use linux_system_programming.ReadyQueue.Threads.Steps.{push-fits}
use linux_system_programming.ReadyQueue.Threads.Reachable.{Reach-Inv}

reported-pushed : (p : Pc) → has_pushed p ≡ true → has_reported p ≡ true
reported-pushed lock_ready h = h
reported-pushed p h = ground arith

-- In every reachable state a thread that has pushed its id and was not told to proceed is queued once or
-- being served by `main`, and no other is. A thread is told to proceed only after it has reported
-- ready, and goes on only after it was told. At most one of `main` and the threads holds the
-- mutex of the queue, and `count_of_ready_threads` is the number of threads told to proceed.
pub served_once :
    {s : System} (j : ℕ)
    → Reach s
    → (occurrences j (items s.shared.queue) + bit (is_serving j s.main)
        ≡ bit (has_pushed (s.threads j).pc && not (s.threads j).to_proceed))
      × (((s.threads j).to_proceed ≡ false) ⊎ ((s.threads j).ready ≡ true))
      × ((has_proceeded (s.threads j).pc ≡ false) ⊎ ((s.threads j).to_proceed ≡ true))
      × (bit (main_holds_sync s.main) + total in_section s.threads ≤ 1)
      × (s.count ≡ total was_told s.threads)
served_once {s} j r =
    let inv = Reach-Inv r in
    let own = inv.own j in
    (
      own.once,
      told_ready (s.threads j) own,
      gone_told (s.threads j) own,
      omega (arith, inv.totals.sync_held, bit-le s.shared.sync),
      inv.totals.counted,
    )
  where
    told_ready :
        (t : Thread)
        → Own j (items s.shared.queue) s.main t
        → (t.to_proceed ≡ false) ⊎ (t.ready ≡ true)
    told_ready t own = let first = reported-pushed t.pc in ground (arith, first)

    gone_told :
        (t : Thread)
        → Own j (items s.shared.queue) s.main t
        → (has_proceeded t.pc ≡ false) ⊎ (t.to_proceed ≡ true)
    gone_told t own = ground arith

-- In every reachable state in which a thread is about to push its id, the push appends it: the queue does
-- not overflow.
pub never_overflows :
    {s : System} (id : ℕ)
    → id < count_of_threads
    → Reach s
    → (s.threads id).pc ≡ push
    → items (ready_queue_push id s.shared.queue) ≡ items s.shared.queue ++ (id ∷ [])
never_overflows {s} id lt r at =
    let inv = Reach-Inv r in
    push-room id s.shared.queue inv.valid (push-fits s inv id lt (ap is_push at))
