-- ===== src/ReadyQueue/Threads/Totals.antt =====
-- Sums over the threads of 10_9 when one of them moves, and the queue as the list of its ids.
use linux_system_programming.Base.{
  length, ℕ, zero, suc, refl, Bool, true, false, List, arith, ◌==◌, ◌+◌, ◌≤◌, ◌<◌, ◌≡◌, ◌∙◌, [],
  ◌∷◌, ◌++◌,
}
use linux_system_programming.ReadyQueue.{count_of_threads, Queue, ready_queue_push}
use linux_system_programming.ReadyQueue.Fifo.{IsValid, items, push-items}
use linux_system_programming.ReadyQueue.Threads.{Thread, replace}
use linux_system_programming.ReadyQueue.Threads.Invariant.{bit, total, occurrences}

pub total-replace :
    (f : Thread → Bool) (ts : ℕ → Thread) (i : ℕ) (t : Thread)
    → i < count_of_threads
    → total f (replace i t ts) + bit (f (ts i)) ≡ total f ts + bit (f t)
total-replace f ts zero t h = omega arith
total-replace f ts (suc zero) t h = omega arith
total-replace f ts (suc (suc zero)) t h = omega arith
total-replace f ts (suc (suc (suc i))) t h = absurd (omega (arith, h))

pub bit-le : (b : Bool) → bit b ≤ 1
bit-le true = omega arith
bit-le false = omega arith

-- Where one thread does not count, there are two at most.
pub total-le :
    (f : Thread → Bool) (ts : ℕ → Thread) (i : ℕ)
    → i < count_of_threads
    → f (ts i) ≡ false
    → total f ts ≤ 2
total-le f ts zero h e = rw (e) (omega (arith, bit-le (f (ts 1)), bit-le (f (ts 2))))
total-le f ts (suc zero) h e = rw (e) (omega (arith, bit-le (f (ts 0)), bit-le (f (ts 2))))
total-le f ts (suc (suc zero)) h e = rw (e) (omega (arith, bit-le (f (ts 0)), bit-le (f (ts 1))))
total-le f ts (suc (suc (suc i))) h e = absurd (omega (arith, h))

pub occurrences-append :
    (j : ℕ) (ids : List ℕ) (id : ℕ)
    → occurrences j (ids ++ (id ∷ [])) ≡ occurrences j ids + bit (id == j)
occurrences-append j [] id = omega arith
occurrences-append j (x ∷ ids) id = omega (arith, occurrences-append j ids id)

-- With fewer ids than threads in the queue, a push appends.
pub push-room :
    (id : ℕ) (q : Queue)
    → IsValid q
    → length (items q) < count_of_threads
    → items (ready_queue_push id q) ≡ items q ++ (id ∷ [])
push-room id q v h =
    (push-items id q v).1
    ∙ (let few : (length (items q) == count_of_threads) ≡ false = ground arith in rw (few) refl)

-- A sum changes as one thread's share of it does.
abbrev pub Changes : (before after : ℕ) → (old new : Bool) → Type 0
Changes before after old new = after + bit old ≡ before + bit new

pub total-Changes :
    (f : Thread → Bool) (ts : ℕ → Thread) (i : ℕ) (t : Thread)
    → (count_of_threads ≤ i → f t ≡ f (ts i))
    → Changes (total f ts) (total f (replace i t ts)) (f (ts i)) (f t)
total-Changes f ts zero t h = total-replace f ts 0 t (omega arith)
total-Changes f ts (suc zero) t h = total-replace f ts 1 t (omega arith)
total-Changes f ts (suc (suc zero)) t h = total-replace f ts 2 t (omega arith)
total-Changes f ts (suc (suc (suc i))) t h =
    let not_0 : (0 == suc (suc (suc i))) ≡ false = ground arith in
    let not_1 : (1 == suc (suc (suc i))) ≡ false = ground arith in
    let not_2 : (2 == suc (suc (suc i))) ≡ false = ground arith in
    rw (not_0, not_1, not_2, h (omega arith)) refl
