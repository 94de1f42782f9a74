-- ===== src/ReadyQueue/Threads/Invariant.antt =====
-- What ties the queue, the mutexes and the flags of 10_9 to the places where `main` and the threads stand.
use linux_system_programming.Base.{
  length, ℕ, Bool, true, false, not, List, ◌==◌, ◌+◌, ◌≤◌, ◌<◌, ◌≡◌, ◌⊎◌, ◌&&◌, [], ◌∷◌,
}
use linux_system_programming.ReadyQueue.Fifo.{IsValid, items}
use linux_system_programming.ReadyQueue.Threads.{
  Pc, lock_ready, set_ready, signal_ready, unlock_ready, lock_sync, push, signal_main, unlock_sync,
  test_proceed, asleep, unlock_wait, exited, Thread, System, MainPc, test_queue, take_sync,
  asleep_queue, pop, give_sync, take_data, test_told, signal_data, give_data, leave_sync,
  main_exited,
}
use linux_system_programming.ReadyQueue.{count_of_threads}

abbrev pub bit : Bool → ℕ
bit true = 1
bit false = 0

-- How often an id stands in a list.
abbrev pub occurrences : ℕ → List ℕ → ℕ
occurrences j [] = 0
occurrences j (id ∷ ids) = bit (id == j) + occurrences j ids

-- The thread has pushed its id.
abbrev pub has_pushed : Pc → Bool
has_pushed lock_ready = false
has_pushed set_ready = false
has_pushed signal_ready = false
has_pushed unlock_ready = false
has_pushed lock_sync = false
has_pushed push = false
has_pushed p = true

-- It has set `ready`.
abbrev pub has_reported : Pc → Bool
has_reported lock_ready = false
has_reported set_ready = false
has_reported p = true

-- It has seen `to_proceed`.
abbrev pub has_proceeded : Pc → Bool
has_proceeded unlock_wait = true
has_proceeded exited = true
has_proceeded p = false

abbrev pub holds_own : Pc → Bool
holds_own set_ready = true
holds_own signal_ready = true
holds_own unlock_ready = true
holds_own test_proceed = true
holds_own unlock_wait = true
holds_own p = false

abbrev pub holds_sync : Pc → Bool
holds_sync push = true
holds_sync signal_main = true
holds_sync unlock_sync = true
holds_sync p = false

abbrev pub is_signalling : Pc → Bool
is_signalling signal_main = true
is_signalling p = false

-- `main` has popped the id, and not yet set `to_proceed`.
abbrev pub is_serving : ℕ → MainPc → Bool
is_serving j (give_sync id) = id == j
is_serving j (take_data id) = id == j
is_serving j (test_told id) = id == j
is_serving j p = false

abbrev pub main_holds_data : ℕ → MainPc → Bool
main_holds_data j (test_told id) = id == j
main_holds_data j (signal_data id) = id == j
main_holds_data j (give_data id) = id == j
main_holds_data j p = false

abbrev pub main_holds_sync : MainPc → Bool
main_holds_sync test_queue = true
main_holds_sync pop = true
main_holds_sync (give_sync id) = true
main_holds_sync leave_sync = true
main_holds_sync p = false

abbrev pub main_signals : ℕ → MainPc → Bool
main_signals j (signal_data id) = id == j
main_signals j p = false

-- A thread, with the ids queued: each thread that has pushed and was not told to proceed is queued once
-- or being served, and no other.
pub record Own (j : ℕ) (ids : List ℕ) (m : MainPc) (t : Thread) : Type 0 where
  pub once : occurrences j ids + bit (is_serving j m) ≡ bit (has_pushed t.pc && not t.to_proceed)
  pub reported : t.ready ≡ has_reported t.pc
  pub ordered : t.to_proceed ≡ true → has_pushed t.pc ≡ true
  pub proceeded : has_proceeded t.pc ≡ true → t.to_proceed ≡ true
  pub held : bit t.mutex ≡ bit (holds_own t.pc) + bit (main_holds_data j m)
  pub asleep_for :
      t.waits ≡ true → (t.pc ≡ asleep) × ((t.to_proceed ≡ false) ⊎ (main_signals j m ≡ true))
  pub ended : t.joined ≡ true → t.pc ≡ exited

-- `main` may still go on without a pop.
abbrev pub is_waiting : MainPc → Bool
is_waiting take_sync = true
is_waiting test_queue = true
is_waiting asleep_queue = true
is_waiting p = false

-- Of all threads together: `queued` ids, `pushed`, `holding`, `signalling`, `told` and `joined` threads.
pub record Totals (s : System) (queued pushed holding signalling told joined : ℕ) : Type 0 where
  pub room : queued ≤ pushed
  pub sync_held : bit s.shared.sync ≡ bit (main_holds_sync s.main) + holding
  pub main_asleep : s.shared.main_waits ≡ true → (s.main ≡ asleep_queue) × (queued ≤ signalling)
  pub counted : s.count ≡ told
  pub waiting : is_waiting s.main ≡ true → s.count < count_of_threads
  pub all_joined : s.finished ≡ joined
  pub at_end : s.main ≡ main_exited → count_of_threads ≤ s.finished

abbrev pub total : (Thread → Bool) → (ℕ → Thread) → ℕ
total f ts = bit (f (ts 0)) + bit (f (ts 1)) + bit (f (ts 2))

abbrev pub in_section : Thread → Bool
in_section t = holds_sync t.pc

abbrev pub notifies : Thread → Bool
notifies t = is_signalling t.pc

abbrev pub was_told : Thread → Bool
was_told t = t.to_proceed

abbrev pub was_joined : Thread → Bool
was_joined t = t.joined

abbrev pub has_queued : Thread → Bool
has_queued t = has_pushed t.pc

pub record Inv (s : System) : Type 0 where
  pub valid : IsValid s.shared.queue
  pub own : (j : ℕ) → Own j (items s.shared.queue) s.main (s.threads j)
  pub absent : (j : ℕ) → count_of_threads ≤ j → has_pushed (s.threads j).pc ≡ false
  pub totals :
      Totals s
        (length (items s.shared.queue))
        (total has_queued s.threads)
        (total in_section s.threads)
        (total notifies s.threads)
        (total was_told s.threads)
        (total was_joined s.threads)
