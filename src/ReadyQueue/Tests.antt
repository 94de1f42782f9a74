-- ===== src/ReadyQueue/Tests.antt =====
-- The ready queue on concrete states.
use linux_system_programming.Base.{refl, some, arith, ◌≡◌, [], ◌∷◌}
use linux_system_programming.ReadyQueue.{Queue, empty_queue, ready_queue_push, ready_queue_pop}
use linux_system_programming.ReadyQueue.Fifo.{IsValid, items, enqueue, dequeue, queue-items}

-- Three ids around the end of the array: the queue is full.
abbrev full : Queue
full = record { cells = 1 ∷ 9 ∷ 2 ∷ 0 ∷ []; head = 2; tail = 1 }

full-IsValid : IsValid full
full-IsValid = omega arith

full-items : items full ≡ 2 ∷ 0 ∷ 1 ∷ []
unfolding items
full-items = refl

queue-items_example :
    (IsValid (ready_queue_push 7 full) × (items (ready_queue_push 7 full) ≡ enqueue 7 (items full)))
    × IsValid (ready_queue_pop full).1
    × (((ready_queue_pop full).0, items (ready_queue_pop full).1) ≡ dequeue (items full))
queue-items_example = queue-items 7 full full-IsValid

in_order : (ready_queue_pop (ready_queue_push 5 (ready_queue_push 4 empty_queue))).0 ≡ some 4
unfolding ready_queue_push ready_queue_pop
in_order = refl
