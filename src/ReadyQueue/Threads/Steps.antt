-- ===== src/ReadyQueue/Threads/Steps.antt =====
-- The steps of 10_9 that touch the data of a thread keep the invariant.
use linux_system_programming.Base.{
  List, ◌≤◌, length, length-append, ℕ, refl, sym, ap, true, false, none, some, arith, ◌==◌, ◌+◌,
  ◌<◌, ◌≡◌, ◌∙◌, ◌&&◌, [], ◌∷◌,
}
use native.Mathlib.Decide.{ℕ_discrete}
use mathlib.Core.Path.{subst}
use linux_system_programming.ReadyQueue.{count_of_threads, Queue, ready_queue_push}
use linux_system_programming.ReadyQueue.Fifo.{IsValid, items, push-IsValid}
use linux_system_programming.ReadyQueue.Threads.{
  Thread, Shared, Pc, thread_step, replace, System, push, MainPc, touched, data_step,
}
use linux_system_programming.ReadyQueue.Threads.Invariant.{
  bit, occurrences, Own, Inv, has_pushed, has_queued, in_section, notifies, was_told, was_joined,
  holds_sync, is_signalling,
}
use linux_system_programming.ReadyQueue.Threads.Totals.{
  total-replace, total-le, occurrences-append, push-room, total-Changes,
}
use linux_system_programming.ReadyQueue.Threads.Preserved.{
  is_push, Own-ids, thread-Own, woken-Own, data-Own, other-Own,
}
use linux_system_programming.ReadyQueue.Threads.Sums.{
  woken-Totals, moved-Totals, data-out, data-Totals,
}

same : (i : ℕ) → (i == i) ≡ true
same i = ground arith

-- What holds of the new data of thread `i` and of the data of the others.
replace-All :
    (Q : ℕ → Thread → Type 0) (i : ℕ) (t : Thread) (ts : ℕ → Thread)
    → Q i t
    → ((j : ℕ) → (i == j) ≡ false → Q j (ts j))
    → (j : ℕ) → Q j (replace i t ts j)
replace-All Q i t ts h others j = elim (ℕ_discrete j i) [
  | yes e ↦ subst (λ k. Q k (replace i t ts k)) (sym e) (rw (same i) h)
  | no ne ↦ let differs : (j == i) ≡ false = ground arith in rw (differs) (others j (ground arith))
]

-- What a step of the thread `id` does to the queue.
record Queued (id : ℕ) (p : Pc) (q q' : Queue) : Type 0 where
  pub valid : IsValid q'
  counts :
      (j : ℕ) → occurrences j (items q') ≡ occurrences j (items q) + bit (is_push p && (id == j))
  size : length (items q') ≡ length (items q) + bit (is_push p)

kept : (id : ℕ) (q : Queue) (p : Pc) → is_push p ≡ false → IsValid q → Queued id p q q
kept id q p e v = record {
  valid = v;
  counts = λ j. rw (e) (omega arith);
  size = rw (e) (omega arith);
}

pushed :
    (id : ℕ) (q : Queue)
    → IsValid q
    → length (items q) < count_of_threads
    → Queued id push q (ready_queue_push id q)
pushed id q v h = record {
  valid = push-IsValid id q v;
  counts = λ j. ap (occurrences j) (push-room id q v h) ∙ occurrences-append j (items q) id;
  size = ap length (push-room id q v h) ∙ length-append (items q) (id ∷ []);
}

thread-Queued :
    (id : ℕ) (sh sh' : Shared) (t t' : Thread) (p : Pc)
    → thread_step id sh t p ≡ some (sh', t')
    → IsValid sh.queue
    → (is_push p ≡ true → length (items sh.queue) < count_of_threads)
    → Queued id p sh.queue sh'.queue
unfolding thread_step
thread-Queued id sh sh' t t' push e v h =
    subst
      (λ o. elim o as (λ x. Type 0) [ some r ↦ Queued id push sh.queue r.0.queue | none ↦ Unit ]) e
      (pushed id sh.queue v (h refl))
thread-Queued id sh sh' t t' p e v h =
    let same_queue : sh'.queue ≡ sh.queue = ground arith in
    subst (λ q. Queued id p sh.queue q) (sym same_queue) (kept id sh.queue p refl v)

module _ (s : System) (inv : Inv s) (id : ℕ) where
  abbrev ids : List ℕ
  ids = items s.shared.queue

  abbrev pub t : Thread
  t = s.threads id

  -- A thread that has not pushed leaves room for its id.
  pub push-fits : id < count_of_threads → is_push t.pc ≡ true → length ids < count_of_threads
  push-fits lt e =
      let unpushed : has_pushed t.pc ≡ false = by_pc t.pc e in
      omega (arith, inv.totals.room, total-le has_queued s.threads id lt unpushed)
    where
      by_pc : (p : Pc) → is_push p ≡ true → has_pushed p ≡ false
      by_pc push e = refl
      by_pc p e = ground arith

  pub thread-Inv :
      (sh' : Shared) (t' : Thread)
      → id < count_of_threads
      → thread_step id s.shared t t.pc ≡ some (sh', t')
      → Inv (record s { shared = sh'; threads = replace id t' s.threads })
  thread-Inv sh' t' lt e =
      let q = thread-Queued id s.shared sh' t t' t.pc e inv.valid (push-fits lt) in
      record {
        valid = q.valid;
        own =
            replace-All (λ j d. Own j (items sh'.queue) s.main d) id t' s.threads
              (thread-Own id ids (items sh'.queue) s.main s.shared sh' t t' (inv.own id) e
                (q.counts id ∙ (let itself = same id in ground (arith, itself))))
              (λ j ne.
                Own-ids j ids (items sh'.queue) s.main (s.threads j)
                  (q.counts j ∙ (ground (arith, ne))) (inv.own j));
        absent =
            replace-All (λ j d. count_of_threads ≤ j → has_pushed d.pc ≡ false) id t' s.threads
              (λ out. absurd (omega (arith, lt, out))) (λ j _. inv.absent j);
        totals =
            moved-Totals _ _ _ _ _ _ _ _ _ _ _ _ s.shared s.threads (replace id t' s.threads)
              s.count s.finished id s.main sh' t.pc t.ready t.to_proceed t.mutex t.waits t.joined t'
              e q.size (total-replace has_queued s.threads id t' lt)
              (total-replace in_section s.threads id t' lt)
              (total-replace notifies s.threads id t' lt)
              (total-replace was_told s.threads id t' lt)
              (total-replace was_joined s.threads id t' lt) inv.totals;
      }

  -- `main` touches the data of `id`, or joins it.
  pub data-Inv :
      (m' : MainPc) (d : Thread) (told joined : ℕ)
      → touched s.main ≡ some id
      → data_step id t s.main ≡ some (d, told, joined, m')
      → Inv (record s {
        threads = replace id d s.threads;
        count = s.count + told;
        finished = s.finished + joined;
        main = m';
      })
  data-Inv m' d told joined at e =
      let out : count_of_threads ≤ id
          → (d.to_proceed ≡ t.to_proceed) × (d.joined ≡ t.joined) × (d.pc ≡ t.pc) =
        λ far.
          data-out id ids s.main m' t d told joined e at far (inv.absent id far) (inv.own id) in
      record {
        valid = inv.valid;
        own =
            replace-All (λ j d. Own j ids m' d) id d s.threads
              (data-Own id ids s.main m' t d told joined at e (inv.own id))
              (λ j ne.
                other-Own j ids id s.main m' (s.threads j) t d told joined ne at e (inv.own j));
        absent =
            replace-All (λ j d. count_of_threads ≤ j → has_pushed d.pc ≡ false) id d s.threads
              (λ far. ap has_pushed (out far).2 ∙ inv.absent id far) (λ j _. inv.absent j);
        totals =
            data-Totals _ 0 _ _ _ _ _ _ _ _ _ _ s.shared s.threads (replace id d s.threads) s.count
              s.finished id s.main m' t d told joined e
              (total-Changes has_queued s.threads id d (λ far. ap has_pushed (out far).2))
              (total-Changes in_section s.threads id d (λ far. ap holds_sync (out far).2))
              (total-Changes notifies s.threads id d (λ far. ap is_signalling (out far).2))
              (total-Changes was_told s.threads id d (λ far. (out far).0))
              (total-Changes was_joined s.threads id d (λ far. (out far).1)) inv.totals;
      }

  pub woken-Inv : Inv (record s { threads = replace id (record t { waits = false }) s.threads })
  woken-Inv = record {
    valid = inv.valid;
    own =
        replace-All (λ j d. Own j ids s.main d) id _ s.threads
          (woken-Own id ids ids s.main t (inv.own id)) (λ j _. inv.own j);
    absent =
        replace-All (λ j d. count_of_threads ≤ j → has_pushed d.pc ≡ false) id _ s.threads
          (inv.absent id) (λ j _. inv.absent j);
    totals =
        let woken : Thread = record t { waits = false } in
        woken-Totals _ _ _ _ _ _ _ _ _ _ _ (has_queued t) (in_section t) (notifies t) (was_told t)
          (was_joined t) s (replace id woken s.threads)
          (total-Changes has_queued s.threads id woken (λ _. refl))
          (total-Changes in_section s.threads id woken (λ _. refl))
          (total-Changes notifies s.threads id woken (λ _. refl))
          (total-Changes was_told s.threads id woken (λ _. refl))
          (total-Changes was_joined s.threads id woken (λ _. refl)) inv.totals;
  }
