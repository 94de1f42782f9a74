-- ===== src/ReadyQueue.antt =====
-- The ready queue of Course_MohanM/10_Threads/
-- 10_9_Dynamic_Mutex_and_Condition_Variables_Multiple_Threads_FIFO/main.c: `ready_queue_push` and
-- `ready_queue_pop` on a circular array.
use linux_system_programming.Sys.{next}
pub mod Fifo
pub mod Threads
mod Tests
use linux_system_programming.Base.{
  get_or, set, replicate, Bool, Option, none, some, List, ◌==◌, if◌then◌else◌, ◌+◌, ◌%◌, ℕ,
}

abbrev pub count_of_threads : ℕ
count_of_threads = 3

-- READY_QUEUE_SIZE: one cell more than there are threads.
abbrev pub ready_queue_size : ℕ
ready_queue_size = count_of_threads + 1

-- The globals `ready_queue`, `rq_head` and `rq_tail`. `rq_count` is never used.
pub record Queue : Type 0 where
  pub cells : List ℕ
  pub head : ℕ
  pub tail : ℕ

abbrev pub empty_queue : Queue
empty_queue = record { cells = replicate ready_queue_size 0; head = 0; tail = 0 }

-- `rq_head == rq_tail`
abbrev pub is_empty : Queue → Bool
is_empty q = q.head == q.tail

-- When the queue is full, a message on stderr and no change.
unfoldable pub ready_queue_push : ℕ → Queue → Queue
ready_queue_push id q =
    let next = (q.tail + 1) % ready_queue_size in
    if next == q.head
    then q
    else record { cells = set q.cells q.tail id; head = q.head; tail = next }

-- 0 is `none`; 1 with `*popped_id` is `some`.
unfoldable pub ready_queue_pop : Queue → Option ℕ × Queue
ready_queue_pop q = if is_empty q then (none, q) else (
  some (get_or q.cells q.head 0),
  record { cells = q.cells; head = (q.head + 1) % ready_queue_size; tail = q.tail },
)
