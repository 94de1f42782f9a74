-- ===== src/ReadyQueue/Threads/Reachable.antt =====
-- The steps of `main` of 10_9 that touch no data of a thread, and every reachable state.
use linux_system_programming.ReadyQueue.Threads.Steps.{thread-Inv, data-Inv, woken-Inv}
use linux_system_programming.Base.{Option, length, ℕ, refl, sym, ap, none, some, arith, ◌≡◌, ◌∙◌}
use mathlib.Core.Path.{subst}
use mathlib.Core.Option.{some-injective}
use linux_system_programming.ReadyQueue.{Queue, ready_queue_pop}
use linux_system_programming.ReadyQueue.Fifo.{IsValid, items, window, pop-IsValid}
use linux_system_programming.ReadyQueue.Threads.{
  main_wakes, start, pop, Thread, Shared, System, MainPc, sync_step, popped, Step, Reach, init,
  main_runs, later, main_touches, thread_runs, thread_wakes,
}
use linux_system_programming.ReadyQueue.Threads.Invariant.{
  Inv, has_pushed, has_queued, in_section, notifies, was_told, was_joined, Totals, total,
}
use linux_system_programming.ReadyQueue.Threads.Preserved.{sync-Own}
use linux_system_programming.ReadyQueue.Threads.Sums.{sync-Totals}

threads-kept :
    (sh : Shared) (ts : ℕ → Thread) (c f : ℕ) (m : MainPc) (s' : System)
    → sync_step (record { shared = sh; threads = ts; count = c; finished = f; main = m }) m
      ≡ some s'
    → s'.threads ≡ ts
unfolding sync_step
threads-kept sh ts c f pop s' e =
    sym (ap (λ u. u.threads) (some-injective _ _ e))
    ∙ by_pop (record { shared = sh; threads = ts; count = c; finished = f; main = pop })
        (ready_queue_pop sh.queue)
  where
    by_pop : (s : System) (r : Option ℕ × Queue) → (popped s r).threads ≡ s.threads
    by_pop s (none, q) = refl
    by_pop s (some id, q) = refl
threads-kept sh ts c f m s' e = ground arith

sync-IsValid :
    (sh : Shared) (ts : ℕ → Thread) (c f : ℕ) (m : MainPc) (s' : System)
    → sync_step (record { shared = sh; threads = ts; count = c; finished = f; main = m }) m
      ≡ some s'
    → IsValid sh.queue
    → IsValid s'.shared.queue
unfolding sync_step
sync-IsValid sh ts c f pop s' e v =
    subst (λ u. IsValid u.shared.queue) (some-injective _ _ e)
      (by_pop (record { shared = sh; threads = ts; count = c; finished = f; main = pop })
        (ready_queue_pop sh.queue) (pop-IsValid sh.queue v))
  where
    by_pop : (s : System) (r : Option ℕ × Queue) → IsValid r.1 → IsValid (popped s r).shared.queue
    by_pop s (none, q) h = h
    by_pop s (some id, q) h = h
sync-IsValid sh ts c f m s' e v =
    let same_queue : s'.shared.queue ≡ sh.queue = ground arith in subst IsValid (sym same_queue) v

sync-Inv : (s s' : System) → Inv s → sync_step s s.main ≡ some s' → Inv s'
sync-Inv s s' inv e =
    let threads = threads-kept s.shared s.threads s.count s.finished s.main s' e in
    record {
      valid = sync-IsValid s.shared s.threads s.count s.finished s.main s' e inv.valid;
      own = λ j. sync-Own j s.shared s.threads s.count s.finished s.main s' inv.valid e (inv.own j);
      absent = λ j far. ap (λ ts. has_pushed (ts j).pc) threads ∙ inv.absent j far;
      totals =
          subst
            (λ ts.
              Totals s' (length (items s'.shared.queue)) (total has_queued ts) (total in_section ts)
                (total notifies ts) (total was_told ts) (total was_joined ts))
            (sym threads)
            (sync-Totals _ _ _ _ _ s.shared s.threads s.count s.finished s.main s' inv.valid e
              inv.totals);
    }

Inv-init : Inv init
unfolding items window
Inv-init = record {
  valid = ground arith;
  own = λ j. ground arith;
  absent = λ j far. refl;
  totals = ground arith;
}

Step-Inv : {s t : System} → Step s t → Inv s → Inv t
Step-Inv {s} {t} (main_runs e) h = sync-Inv s t h e
Step-Inv {s} (main_touches id {d} {told} {joined} {m} at e) h = data-Inv s h id m d told joined at e
Step-Inv {s} (thread_runs id {m} {d} lt e) h = thread-Inv s h id m d lt e
Step-Inv {s} main_wakes h = record {
  valid = h.valid;
  own = h.own;
  absent = h.absent;
  totals = record {
    room = h.totals.room;
    sync_held = h.totals.sync_held;
    main_asleep = λ e. ground arith;
    counted = h.totals.counted;
    waiting = h.totals.waiting;
    all_joined = h.totals.all_joined;
    at_end = h.totals.at_end;
  };
}
Step-Inv {s} (thread_wakes id lt) h = woken-Inv s h id

pub Reach-Inv : {s : System} → Reach s → Inv s
Reach-Inv start = Inv-init
Reach-Inv (later r st) = Step-Inv st (Reach-Inv r)
