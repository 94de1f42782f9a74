-- ===== src/ReadyQueue/Threads/Tests.antt =====
-- Runs of 10_9.
use linux_system_programming.ReadyQueue.Threads.Invariant.{
  bit, total, occurrences, has_pushed, has_proceeded, in_section, was_told, is_serving,
  main_holds_sync,
}
use linux_system_programming.ReadyQueue.Threads.Safety.{served_once, never_overflows}
use linux_system_programming.Base.{
  true, false, not, ◌+◌, ◌≤◌, ◌⊎◌, ◌&&◌, ◌++◌, ℕ, zero, suc, refl, Option, none, some, arith, ◌<◌,
  ◌≡◌, [], ◌∷◌,
}
use linux_system_programming.ReadyQueue.{ready_queue_push, ready_queue_pop}
use linux_system_programming.ReadyQueue.Fifo.{items, window}
use linux_system_programming.ReadyQueue.Threads.{
  System, MainPc, Shared, Thread, Reach, init, start, later, main_runs, main_touches, thread_runs,
  sync_step, data_step, thread_step, touched, push, main_exited,
}

pub record Run : Type 0 where
  last : System
  reach : Reach last

-- Lets `main` run; where it is blocked it is passed over.
main_turn : Run → Run
unfolding sync_step data_step
main_turn r = by_sync (sync_step r.last r.last.main) refl
  where
    by_data :
        (id : ℕ)
        → touched r.last.main ≡ some id
        → (o : Option (Thread × ℕ × ℕ × MainPc)) → data_step id (r.last.threads id) r.last.main ≡ o
        → Run
    by_data id at none e = r
    by_data id at (some (d, told, joined, m)) e = record {
      last = _;
      reach = later r.reach (main_touches id at e);
    }

    by_touched : (o : Option ℕ) → touched r.last.main ≡ o → Run
    by_touched none e = r
    by_touched (some id) e = by_data id e (data_step id (r.last.threads id) r.last.main) refl

    by_sync : (o : Option System) → sync_step r.last r.last.main ≡ o → Run
    by_sync none e = by_touched (touched r.last.main) refl
    by_sync (some t) e = record { last = t; reach = later r.reach (main_runs e) }

thread_turn : (id : ℕ) → id < 3 → Run → Run
unfolding thread_step
thread_turn id lt r =
    go (thread_step id r.last.shared (r.last.threads id) (r.last.threads id).pc) refl
  where
    go :
        (o : Option (Shared × Thread))
        → thread_step id r.last.shared (r.last.threads id) (r.last.threads id).pc ≡ o
        → Run
    go none e = r
    go (some (m, d)) e = record { last = _; reach = later r.reach (thread_runs id lt e) }

-- `n` rounds in which thread 2, thread 0, thread 1 and `main` run.
rounds : ℕ → Run → Run
unfolding main_turn thread_turn
rounds zero r = r
rounds (suc n) r = rounds n (
    main_turn
      (thread_turn 1 (omega arith) (thread_turn 0 (omega arith) (thread_turn 2 (omega arith) r))))

abbrev begin : Run
begin = record { last = init; reach = start }

-- Thread 2 has pushed its id, and thread 0 is about to.
abbrev pushing : Run
pushing = rounds 8 begin

at_push : ((pushing.last.threads 0).pc ≡ push) × (items pushing.last.shared.queue ≡ 2 ∷ [])
unfolding rounds ready_queue_push ready_queue_pop items window
at_push = (refl, refl)

abbrev ended : Run
ended = rounds 60 begin

over : (ended.last.main ≡ main_exited) × (ended.last.count ≡ 3) × (ended.last.finished ≡ 3)
unfolding rounds ready_queue_push ready_queue_pop
over = (refl, refl, refl)

-- Thread 2 is queued, and thread 0 is about to be.
served_once_example :
    (occurrences 2 (items pushing.last.shared.queue) + bit (is_serving 2 pushing.last.main)
      ≡ bit (has_pushed (pushing.last.threads 2).pc && not (pushing.last.threads 2).to_proceed))
    × (((pushing.last.threads 2).to_proceed ≡ false) ⊎ ((pushing.last.threads 2).ready ≡ true))
    × ((has_proceeded (pushing.last.threads 2).pc ≡ false)
        ⊎ ((pushing.last.threads 2).to_proceed ≡ true))
    × (bit (main_holds_sync pushing.last.main) + total in_section pushing.last.threads ≤ 1)
    × (pushing.last.count ≡ total was_told pushing.last.threads)
served_once_example = served_once 2 pushing.reach

never_overflows_example :
    items (ready_queue_push 0 pushing.last.shared.queue)
    ≡ items pushing.last.shared.queue ++ (0 ∷ [])
never_overflows_example = never_overflows 0 (omega arith) pushing.reach at_push.0
