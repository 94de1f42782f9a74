-- ===== src/ReadyQueue/Fifo.antt =====
-- The circular array is a bounded first-in-first-out queue.
use mathlib.Core.Path.{ap₂}
use native.Mathlib.Decide.{ℕ_discrete}
use linux_system_programming.Base.{
  sym, ◌∙◌, ◌≢◌, get_or-set_self, get_or-set_ne, length-set, Option, none, some, arith, ◌==◌,
  if◌then◌else◌, length, get_or, set, ℕ, zero, suc, refl, ap, List, ◌+◌, ◌-◌, ◌%◌, ◌<◌, ◌≡◌, [],
  ◌∷◌, ◌++◌,
}
use linux_system_programming.ReadyQueue.{
  Queue, ready_queue_size, count_of_threads, ready_queue_push, ready_queue_pop,
}

pub record IsValid (q : Queue) : Type 0 where
  pub sized : length q.cells ≡ ready_queue_size
  pub head_in : q.head < ready_queue_size
  pub tail_in : q.tail < ready_queue_size

-- The `n` cells from index `i` on, around the end.
unfoldable pub window : List ℕ → (i n : ℕ) → List ℕ
window cells i zero = []
window cells i (suc n) = get_or cells i 0 ∷ window cells ((i + 1) % ready_queue_size) n

-- How many ids are queued.
abbrev pub count : Queue → ℕ
count q = (q.tail + ready_queue_size - q.head) % ready_queue_size

-- The ids in the order in which they will be popped.
unfoldable pub items : Queue → List ℕ
unfolding window
items q = window q.cells q.head (count q)

length-window : (cells : List ℕ) (i n : ℕ) → length (window cells i n) ≡ n
unfolding window
length-window cells i zero = refl
length-window cells i (suc n) = ap suc (length-window cells ((i + 1) % ready_queue_size) n)

-- A write at the end of a window that is not the whole array adds an element to it.
window-set :
    (cells : List ℕ) (i t id n : ℕ)
    → length cells ≡ ready_queue_size
    → i < ready_queue_size
    → t < ready_queue_size
    → (i + n) % ready_queue_size ≡ t
    → n < ready_queue_size
    → window (set cells t id) i (suc n) ≡ window cells i n ++ (id ∷ [])
unfolding window
window-set cells i t id zero len hi ht e h =
    ap (λ x. x ∷ []) (rw same (get_or-set_self cells i id 0 (omega arith)))
  where
    same : t ≡ i
    same = omega arith
window-set cells i t id (suc n) len hi ht e h =
    ap₂ (λ x w. x ∷ w) (get_or-set_ne cells t i id 0 (λ p. omega arith))
      (window-set cells ((i + 1) % ready_queue_size) t id n len (omega arith) ht (omega arith)
        (omega arith))

pub push-IsValid : (id : ℕ) (q : Queue) → IsValid q → IsValid (ready_queue_push id q)
unfolding ready_queue_push
push-IsValid id q v = ground (arith, length-set q.cells q.tail id)

pub pop-IsValid : (q : Queue) → IsValid q → IsValid (ready_queue_pop q).1
unfolding ready_queue_pop
pop-IsValid q v = ground arith

-- What a bounded queue of COUNT_OF_THREADS ids does on a push.
abbrev pub enqueue : ℕ → List ℕ → List ℕ
enqueue id ids = if length ids == count_of_threads then ids else ids ++ (id ∷ [])

-- And on a pop.
abbrev pub dequeue : List ℕ → Option ℕ × List ℕ
dequeue [] = (none, [])
dequeue (id ∷ ids) = (some id, ids)

pub length-items : (q : Queue) → length (items q) ≡ count q
unfolding items
length-items q = length-window q.cells q.head (count q)

abbrev seen : Option ℕ × Queue → Option ℕ × List ℕ
seen r = (r.0, items r.1)

module _ (q : Queue) (v : IsValid q) where
  -- One cell stays unused: the queue is full when the tail would run into the head.
  push_full : (id : ℕ) → count q ≡ count_of_threads → ready_queue_push id q ≡ q
  unfolding ready_queue_push
  push_full id full = ground arith

  push_room :
      (id : ℕ)
      → count q ≢ count_of_threads
      → ready_queue_push id q ≡ record {
        cells = set q.cells q.tail id;
        head = q.head;
        tail = (q.tail + 1) % ready_queue_size;
      }
  unfolding ready_queue_push
  push_room id room = ground arith

  items-push_room :
      (id : ℕ) → count q ≢ count_of_threads → items (ready_queue_push id q) ≡ items q ++ (id ∷ [])
  unfolding items
  items-push_room id room =
      ap items (push_room id room)
      ∙ ap (window (set q.cells q.tail id) q.head) {y = suc (count q)} (omega arith)
      ∙ window-set q.cells q.head q.tail id (count q) v.sized v.head_in v.tail_in (omega arith)
          (omega arith)

  abbrev popped : Queue
  popped = record { cells = q.cells; head = (q.head + 1) % ready_queue_size; tail = q.tail }

  pop_some : 0 < count q → ready_queue_pop q ≡ (some (get_or q.cells q.head 0), popped)
  unfolding ready_queue_pop
  pop_some h = ground arith

  pop_none : count q ≡ 0 → ready_queue_pop q ≡ (none, q)
  unfolding ready_queue_pop
  pop_none h = ground arith

  items-pop_some :
      (n : ℕ)
      → count q ≡ suc n
      → ((ready_queue_pop q).0, items (ready_queue_pop q).1) ≡ dequeue (items q)
  unfolding items window
  items-pop_some n e =
      ap seen (pop_some (omega arith))
      ∙ ap (λ w. (some (get_or q.cells q.head 0), window q.cells popped.head w)) {y = n}
          (omega arith)
      ∙ sym (ap (λ w. dequeue (window q.cells q.head w)) e)

  items-pop_none :
      count q ≡ 0 → ((ready_queue_pop q).0, items (ready_queue_pop q).1) ≡ dequeue (items q)
  unfolding items window
  items-pop_none e =
      ap seen (pop_none e)
      ∙ ap (λ w. (none, window q.cells q.head w)) e
      ∙ sym (ap (λ w. dequeue (window q.cells q.head w)) e)

  items-pop :
      (n : ℕ)
      → count q ≡ n
      → ((ready_queue_pop q).0, items (ready_queue_pop q).1) ≡ dequeue (items q)
  items-pop zero e = items-pop_none e
  items-pop (suc n) e = items-pop_some n e

-- On a valid queue a push appends the id to the queued ids, or changes nothing when COUNT_OF_THREADS
-- ids are queued, and the queue stays valid.
pub push-items :
    (id : ℕ) (q : Queue)
    → IsValid q
    → IsValid (ready_queue_push id q) × (items (ready_queue_push id q) ≡ enqueue id (items q))
push-items id q v = (
  push-IsValid id q v,
  elim (ℕ_discrete (count q) count_of_threads) [
    | yes full ↦ ap items (push_full q v id full) ∙ ground (arith, length-items q)
    | no room ↦ items-push_room q v id room ∙ ground (arith, length-items q)
  ],
)

-- On a valid queue a pop gives the id that was queued first and leaves the others in order, or gives
-- none when no id is queued, and the queue stays valid.
pub pop-items :
    (q : Queue)
    → IsValid q
    → IsValid (ready_queue_pop q).1
      × (((ready_queue_pop q).0, items (ready_queue_pop q).1) ≡ dequeue (items q))
pop-items q v = (pop-IsValid q v, items-pop q v (count q) refl)

-- The circular queue is a FIFO list of at most COUNT_OF_THREADS ids. On a valid queue a push appends the id
-- to the queued ids, or changes nothing when COUNT_OF_THREADS ids are queued; a pop gives the id that was
-- queued first and leaves the others in order, or gives none when no id is queued; and the queue stays valid.
pub queue-items :
    (id : ℕ) (q : Queue)
    → IsValid q
    → (IsValid (ready_queue_push id q) × (items (ready_queue_push id q) ≡ enqueue id (items q)))
      × IsValid (ready_queue_pop q).1
      × (((ready_queue_pop q).0, items (ready_queue_pop q).1) ≡ dequeue (items q))
queue-items id q v = (push-items id q v, (pop-items q v).0, (pop-items q v).1)
