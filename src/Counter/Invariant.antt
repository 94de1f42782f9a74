-- ===== src/Counter/Invariant.antt =====
-- What ties the semaphore, the mutex and `glob` to the places where the threads stand.
use linux_system_programming.Base.{
  length, take, All, ℕ, Bool, true, false, List, arith, ◌+◌, ◌*◌, ◌≤◌, ◌≡◌,
}
use linux_system_programming.Counter.{
  Pc, wait_sem, lock_mutex, load_glob, store_glob, unlock_mutex, post_sem, returned, loop_count,
  MainPc, creating, joining, printed, gone, System, init,
}
use linux_system_programming.Counter.Tally.{tally}

abbrev pub bit : Bool → ℕ
bit true = 1
bit false = 0

-- Between `sem_wait` and `sem_post`.
abbrev pub inside : Pc → ℕ
inside wait_sem = 0
inside returned = 0
inside p = 1

-- Between lock and unlock.
abbrev pub holds : Pc → ℕ
holds (load_glob l) = 1
holds (store_glob l r) = 1
holds unlock_mutex = 1
holds p = 0

-- What the thread has added to `glob`.
abbrev pub added : Pc → ℕ
added unlock_mutex = loop_count
added post_sem = loop_count
added returned = loop_count
added p = 0

abbrev pub running : Pc → ℕ
running returned = 0
running p = 1

-- A thread carries the right local values; what it has loaded is still the value of `glob`.
abbrev pub Fine : ℕ → Pc → Type 0
Fine glob (lock_mutex l) = l ≡ loop_count
Fine glob (load_glob l) = l ≡ loop_count
Fine glob (store_glob l r) = (l ≡ loop_count) × (r ≡ glob)
Fine glob p = Unit

abbrev pub Stage : List Pc → MainPc → Type 0
Stage ps (creating i) = (length ps ≡ i) × (i ≤ 3)
Stage ps (joining i) = (length ps ≡ 3) × (i ≤ 3) × (tally running (take i ps) ≡ 0)
Stage ps (printed g) = g ≡ 3 * loop_count
Stage ps gone = Unit

pub record Inv (s : System) : Type 0 where
  pub counted : s.shared.sem + tally inside s.threads + s.shared.lost ≡ 2 + s.shared.refused
  pub excluded : tally holds s.threads ≡ bit s.shared.mutex
  pub summed : s.shared.glob ≡ tally added s.threads
  pub fine : All (Fine s.shared.glob) s.threads
  pub stage : Stage s.threads s.main

pub Inv-init : Inv init
Inv-init = ground arith
