-- ===== src/ReadyQueue/Threads/Preserved.antt =====
-- The steps of 10_9 and the invariant of one thread.
use linux_system_programming.Base.{
  ap, Option, none, [], ◌∷◌, ℕ, Bool, true, false, some, List, arith, ◌==◌, ◌+◌, ◌≡◌,
}
use linux_system_programming.ReadyQueue.Fifo.{IsValid, items, dequeue, pop-items}
use mathlib.Core.Path.{subst}
use mathlib.Core.Option.{some-injective}
use linux_system_programming.ReadyQueue.Threads.{
  pop, Thread, Shared, MainPc, Pc, thread_step, data_step, touched, lock_ready, push, take_data,
  System, sync_step, Queue, pop, popped, leave_sync, give_sync, ready_queue_pop,
}
use linux_system_programming.ReadyQueue.Threads.Invariant.{bit, occurrences, Own}

abbrev pub is_push : Pc → Bool
is_push push = true
is_push p = false

module _ (j : ℕ) (ids ids' : List ℕ) (m : MainPc) where
  -- Only the number of times that a thread is queued matters to it.
  pub Own-ids :
      (t : Thread) → occurrences j ids' ≡ occurrences j ids → Own j ids m t → Own j ids' m t
  Own-ids t e h = ground arith

  moved-Own :
      (sh sh' : Shared) (p : Pc) (ready told mutex waits joined : Bool) (t' : Thread)
      → Own j ids m (record {
        pc = p;
        ready = ready;
        to_proceed = told;
        mutex = mutex;
        waits = waits;
        joined = joined;
      })
      → thread_step j sh
          (record {
            pc = p;
            ready = ready;
            to_proceed = told;
            mutex = mutex;
            waits = waits;
            joined = joined;
          })
          p
        ≡ some (sh', t')
      → occurrences j ids' ≡ occurrences j ids + bit (is_push p)
      → Own j ids' m t'
  unfolding thread_step
  moved-Own sh sh' lock_ready ready told mutex waits joined t' h e n = ground arith
  moved-Own sh sh' p ready told mutex waits joined t' h e n = ground arith

  pub thread-Own :
      (sh sh' : Shared) (t t' : Thread)
      → Own j ids m t
      → thread_step j sh t t.pc ≡ some (sh', t')
      → occurrences j ids' ≡ occurrences j ids + bit (is_push t.pc)
      → Own j ids' m t'
  thread-Own sh sh' t t' = moved-Own sh sh' t.pc t.ready t.to_proceed t.mutex t.waits t.joined t'

  pub woken-Own : (t : Thread) → Own j ids m t → Own j ids m (record t { waits = false })
  woken-Own t h = ground arith

module _ (j : ℕ) (ids : List ℕ) where
  -- `main` touches the data of the thread.
  pub data-Own :
      (m m' : MainPc) (t t' : Thread) (told joined : ℕ)
      → touched m ≡ some j
      → data_step j t m ≡ some (t', told, joined, m')
      → Own j ids m t
      → Own j ids m' t'
  unfolding data_step
  data-Own (take_data id) m' t t' told joined at e h = ground arith
  data-Own m m' t t' told joined at e h = ground arith

  -- `main` touches the data of another thread.
  pub other-Own :
      (id : ℕ) (m m' : MainPc) (t d d' : Thread) (told joined : ℕ)
      → (id == j) ≡ false
      → touched m ≡ some id
      → data_step id d m ≡ some (d', told, joined, m')
      → Own j ids m t
      → Own j ids m' t
  unfolding data_step
  other-Own id (take_data id') m' t d d' told joined ne at e h = ground arith
  other-Own id m m' t d d' told joined ne at e h = ground arith

-- A pop hands the first id over to `main`.
popped-Own :
    (j : ℕ) (s : System) (ids : List ℕ) (r : Option ℕ × Queue)
    → (r.0, items r.1) ≡ dequeue ids
    → Own j ids pop (s.threads j)
    → Own j (items (popped s r).shared.queue) (popped s r).main ((popped s r).threads j)
popped-Own j s [] (none, q) e h =
    Own-ids j [] (items q) leave_sync (s.threads j) (ap (λ x. occurrences j x.1) e) (ground arith)
popped-Own j s (id ∷ ids) (none, q) e h = absurd (let first = ap (λ x. x.0) e in ground arith)
popped-Own j s [] (some x, q) e h = absurd (let first = ap (λ x. x.0) e in ground arith)
popped-Own j s (id ∷ ids) (some x, q) e h =
    Own-ids j ids (items q) (give_sync x) (s.threads j) (ap (λ r. occurrences j r.1) e)
      (let first = ap (λ r. r.0) e in ground arith)

pub sync-Own :
    (j : ℕ) (sh : Shared) (ts : ℕ → Thread) (c f : ℕ) (m : MainPc) (s' : System)
    → IsValid sh.queue
    → sync_step (record { shared = sh; threads = ts; count = c; finished = f; main = m }) m
      ≡ some s'
    → Own j (items sh.queue) m (ts j)
    → Own j (items s'.shared.queue) s'.main (s'.threads j)
unfolding sync_step
sync-Own j sh ts c f pop s' v e h =
    let s : System = record { shared = sh; threads = ts; count = c; finished = f; main = pop } in
    subst (λ u. Own j (items u.shared.queue) u.main (u.threads j)) (some-injective _ _ e)
      (popped-Own j s (items sh.queue) (ready_queue_pop sh.queue) (pop-items sh.queue v).1 h)
sync-Own j sh ts c f m s' v e h = ground arith
