-- ===== src/ReadyQueue/Threads/Sums.antt =====
-- The steps of 10_9 and the totals.
use linux_system_programming.Base.{
  length, ℕ, refl, ap, Bool, true, false, Option, none, some, List, arith, ◌+◌, ◌≤◌, ◌≡◌, [], ◌∷◌,
}
use linux_system_programming.ReadyQueue.{count_of_threads, Queue, ready_queue_pop, is_empty}
use linux_system_programming.ReadyQueue.Fifo.{length-items, IsValid, items, dequeue, pop-items}
use linux_system_programming.ReadyQueue.Threads.{
  Thread, Shared, MainPc, Pc, thread_step, data_step, sync_step, touched, System, lock_ready, pop,
  popped, test_queue, take_data,
}
use linux_system_programming.ReadyQueue.Threads.Invariant.{
  bit, Own, Totals, has_pushed, holds_sync, is_signalling,
}
use linux_system_programming.ReadyQueue.Threads.Preserved.{is_push}
use linux_system_programming.ReadyQueue.Threads.Totals.{Changes}
use mathlib.Core.Path.{subst}
use mathlib.Core.Option.{some-injective}

module _ (n n' P P' H H' S S' T T' J J' : ℕ) (sh : Shared) (ts ts' : ℕ → Thread) (c f : ℕ) where
  pub moved-Totals :
      (id : ℕ) (m : MainPc) (sh' : Shared) (p : Pc) (ready told mutex waits joined : Bool)
      (t' : Thread)
      → thread_step id sh
          (record {
            pc = p;
            ready = ready;
            to_proceed = told;
            mutex = mutex;
            waits = waits;
            joined = joined;
          })
          p
        ≡ some (sh', t')
      → n' ≡ n + bit (is_push p)
      → Changes P P' (has_pushed p) (has_pushed t'.pc)
      → Changes H H' (holds_sync p) (holds_sync t'.pc)
      → Changes S S' (is_signalling p) (is_signalling t'.pc)
      → Changes T T' told t'.to_proceed
      → Changes J J' joined t'.joined
      → Totals (record { shared = sh; threads = ts; count = c; finished = f; main = m }) n P H S T J
      → Totals
          (record { shared = sh'; threads = ts'; count = c; finished = f; main = m })
          n'
          P'
          H'
          S'
          T'
          J'
  unfolding thread_step
  moved-Totals id m sh' lock_ready ready told mutex waits joined t' e en eP eH eS eT eJ h =
      ground arith
  moved-Totals id m sh' p ready told mutex waits joined t' e en eP eH eS eT eJ h = ground arith

  pub data-Totals :
      (id : ℕ) (m m' : MainPc) (d d' : Thread) (told joined : ℕ)
      → data_step id d m ≡ some (d', told, joined, m')
      → Changes P P' (has_pushed d.pc) (has_pushed d'.pc)
      → Changes H H' (holds_sync d.pc) (holds_sync d'.pc)
      → Changes S S' (is_signalling d.pc) (is_signalling d'.pc)
      → Changes T T' d.to_proceed d'.to_proceed
      → Changes J J' d.joined d'.joined
      → Totals (record { shared = sh; threads = ts; count = c; finished = f; main = m }) n P H S T J
      → Totals
          (record {
            shared = sh;
            threads = ts';
            count = c + told;
            finished = f + joined;
            main = m';
          })
          n
          P'
          H'
          S'
          T'
          J'
  unfolding data_step
  data-Totals id (take_data x) m' d d' told joined e eP eH eS eT eJ h = ground arith
  data-Totals id m m' d d' told joined e eP eH eS eT eJ h = ground arith

-- A wait that ends leaves the sums as they are.
pub woken-Totals :
    (n P P' H H' S S' T T' J J' : ℕ) (a b c d e : Bool) (s : System) (ts : ℕ → Thread)
    → Changes P P' a a
    → Changes H H' b b
    → Changes S S' c c
    → Changes T T' d d
    → Changes J J' e e
    → Totals s n P H S T J
    → Totals (record s { threads = ts }) n P' H' S' T' J'
woken-Totals n P P' H H' S S' T T' J J' a b c d e s ts eP eH eS eT eJ h = ground arith

-- Outside the array of threads nothing counts.
pub data-out :
    (id : ℕ) (ids : List ℕ) (m m' : MainPc) (d d' : Thread) (told joined : ℕ)
    → data_step id d m ≡ some (d', told, joined, m')
    → touched m ≡ some id
    → count_of_threads ≤ id
    → has_pushed d.pc ≡ false
    → Own id ids m d
    → (d'.to_proceed ≡ d.to_proceed) × (d'.joined ≡ d.joined) × (d'.pc ≡ d.pc)
unfolding data_step
data-out id ids (take_data x) m' d d' told joined e at h absent own = ground arith
data-out id ids m m' d d' told joined e at h absent own = ground arith

empty-length : (q : Queue) → IsValid q → is_empty q ≡ true → length (items q) ≡ 0
empty-length q v h = let n = length-items q in ground (arith, n)

length-popped :
    (s : System) (ids : List ℕ) (r : Option ℕ × Queue)
    → (r.0, items r.1) ≡ dequeue ids
    → length (items (popped s r).shared.queue) ≤ length ids
length-popped s [] (none, q) e = let same = ap (λ x. length x.1) e in omega (arith, same)
length-popped s (id ∷ ids) (none, q) e = absurd (let first = ap (λ x. x.0) e in ground arith)
length-popped s [] (some x, q) e = absurd (let first = ap (λ x. x.0) e in ground arith)
length-popped s (id ∷ ids) (some x, q) e = let same = ap (λ r. length r.1) e in omega (arith, same)

module _ (P H S T J : ℕ) where
  popped-Totals :
      (s : System) (n n' : ℕ) (r : Option ℕ × Queue)
      → s.main ≡ pop
      → n' ≤ n
      → Totals s n P H S T J
      → Totals (popped s r) n' P H S T J
  popped-Totals s n n' (none, q) e le h = ground arith
  popped-Totals s n n' (some id, q) e le h = ground arith

  pub sync-Totals :
      (sh : Shared) (ts : ℕ → Thread) (c f : ℕ) (m : MainPc) (s' : System)
      → IsValid sh.queue
      → sync_step (record { shared = sh; threads = ts; count = c; finished = f; main = m }) m
        ≡ some s'
      → Totals
          (record { shared = sh; threads = ts; count = c; finished = f; main = m })
          (length (items sh.queue))
          P
          H
          S
          T
          J
      → Totals s' (length (items s'.shared.queue)) P H S T J
  unfolding sync_step
  sync-Totals sh ts c f pop s' v e h =
      let s : System = record { shared = sh; threads = ts; count = c; finished = f; main = pop } in
      let r = ready_queue_pop sh.queue in
      subst (λ u. Totals u (length (items u.shared.queue)) P H S T J) (some-injective _ _ e)
        (popped-Totals s (length (items sh.queue)) (length (items (popped s r).shared.queue)) r refl
          (length-popped s (items sh.queue) r (pop-items sh.queue v).1) h)
  sync-Totals sh ts c f test_queue s' v e h =
      let none_left = empty-length sh.queue v in ground arith
  sync-Totals sh ts c f m s' v e h = ground arith
