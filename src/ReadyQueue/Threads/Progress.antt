-- ===== src/ReadyQueue/Threads/Progress.antt =====
-- In 10_9, who can go on while `main` is blocked.
use linux_system_programming.Base.{
  zero, suc, length, ℕ, refl, ap, inl, inr, Bool, true, false, not, Option, none, some, List, arith,
  ◌+◌, ◌<◌, ◌≡◌, ◌⊎◌, ◌||◌, [], ◌∷◌,
}
use native.Mathlib.Decide.{ℕ_discrete}
use mathlib.Core.Path.{subst}
use linux_system_programming.ReadyQueue.{count_of_threads}
use linux_system_programming.ReadyQueue.Fifo.{items}
use linux_system_programming.ReadyQueue.Threads.{
  Thread, Shared, Pc, MainPc, thread_step, data_step, sync_step, touched, System, lock_ready,
  asleep_queue, take_data,
}
use linux_system_programming.ReadyQueue.Threads.Invariant.{
  bit, total, occurrences, Own, Inv, has_pushed, in_section, notifies, was_told, main_holds_sync,
  holds_own, holds_sync, is_signalling, is_waiting,
}

abbrev pub is_some {ℓ} : {A : Type ℓ} → Option A → Bool
is_some none = false
is_some (some a) = true

abbrev pub touch_can : (ℕ → Thread) → MainPc → Option ℕ → Bool
touch_can ts m none = false
touch_can ts m (some id) = is_some (data_step id (ts id) m)

abbrev pub main_can : System → Bool
main_can s = is_some (sync_step s s.main) || touch_can s.threads s.main (touched s.main)

abbrev pub thread_can : System → ℕ → Bool
thread_can s id = is_some (thread_step id s.shared (s.threads id) (s.threads id).pc)

-- One of the three threads has the property.
abbrev pub SomeThread : (ℕ → Bool) → Type 0
SomeThread f = (f 0 ≡ true) ⊎ (f 1 ≡ true) ⊎ (f 2 ≡ true)

any-map :
    (f g : ℕ → Bool)
    → ((i : ℕ) → i < count_of_threads → f i ≡ true → g i ≡ true)
    → SomeThread f
    → SomeThread g
any-map f g h (inl a) = inl (h 0 (omega arith) a)
any-map f g h (inr (inl a)) = inr (inl (h 1 (omega arith) a))
any-map f g h (inr (inr a)) = inr (inr (h 2 (omega arith) a))

some-total : (a b c : Bool) → 0 < bit a + bit b + bit c → (a ≡ true) ⊎ (b ≡ true) ⊎ (c ≡ true)
some-total a b c h = ground arith

some-not-total :
    (a b c : Bool) → bit a + bit b + bit c < 3 → (not a ≡ true) ⊎ (not b ≡ true) ⊎ (not c ≡ true)
some-not-total a b c h = ground arith

-- Where a thread that holds a mutex, or that has been signalled, stands, it can go on.
holder_can :
    (id : ℕ) (sh : Shared) (t : Thread) (p : Pc)
    → holds_own p || holds_sync p ≡ true
    → is_some (thread_step id sh t p) ≡ true
unfolding thread_step
holder_can id sh t lock_ready h = absurd (ground arith)
holder_can id sh t p h = ground arith

-- Before its push a thread can go on where the mutexes are free.
unpushed_can :
    (id : ℕ) (sh : Shared) (t : Thread) (p : Pc)
    → has_pushed p ≡ false
    → sh.sync ≡ false
    → bit t.mutex ≡ bit (holds_own p) + 0
    → is_some (thread_step id sh t p) ≡ true
unfolding thread_step
unpushed_can id sh t lock_ready h free own = ground arith
unpushed_can id sh t p h free own = ground arith

no-occurrences : (j : ℕ) (ids : List ℕ) → length ids ≡ 0 → occurrences j ids ≡ 0
no-occurrences j [] h = refl
no-occurrences j (x ∷ ids) h = absurd (omega (arith, h))

signalling-holds : (p : Pc) → is_signalling p ≡ true → holds_own p || holds_sync p ≡ true
signalling-holds lock_ready h = absurd (ground arith)
signalling-holds p h = ground arith

-- While `main` waits and no id is queued, a thread that was not told to proceed has not pushed.
idle-unpushed :
    (j : ℕ) (ids : List ℕ) (t : Thread)
    → Own j ids asleep_queue t
    → occurrences j ids ≡ 0
    → not t.to_proceed ≡ true
    → has_pushed t.pc ≡ false
idle-unpushed j ids t own none_queued h = ground arith

module _ (s : System) (inv : Inv s) where
  section_can : 0 < total in_section s.threads → SomeThread (thread_can s)
  section_can h =
      any-map (λ i. in_section (s.threads i)) (thread_can s)
        (λ i lt e. holder_can i s.shared (s.threads i) (s.threads i).pc (ground (arith, e)))
        (some-total _ _ _ h)

  -- `main` does not hold the mutex of the queue and cannot take it.
  pub taken_can : main_holds_sync s.main ≡ false → s.shared.sync ≡ true → SomeThread (thread_can s)
  taken_can away e = section_can (
      let held : bit s.shared.sync ≡ bit (main_holds_sync s.main) + total in_section s.threads =
        inv.totals.sync_held in
      omega (arith, held, ap bit away, ap bit e))

  -- `main` waits for a signal.
  pub asleep_can :
      s.main ≡ asleep_queue
      → s.shared.main_waits ≡ true
      → s.shared.sync ≡ false
      → SomeThread (thread_can s)
  asleep_can at waits free = elim (ℕ_discrete (total notifies s.threads) 0) [
    | no some_signal ↦
        any-map (λ i. notifies (s.threads i)) (thread_can s)
          (λ i lt e.
            holder_can i s.shared (s.threads i) (s.threads i).pc
              (signalling-holds (s.threads i).pc e))
          (some-total _ _ _ (omega (arith, some_signal)))
    | yes none_signal ↦
        let none_queued : length (items s.shared.queue) ≡ 0 =
          omega (arith, (inv.totals.main_asleep waits).1, none_signal) in
        any-map (λ i. not (was_told (s.threads i))) (thread_can s)
          (λ i lt e.
            let own = subst (λ m. Own i (items s.shared.queue) m (s.threads i)) at (inv.own i) in
            let out = no-occurrences i (items s.shared.queue) none_queued in
            unpushed_can i s.shared (s.threads i) (s.threads i).pc
              (idle-unpushed i (items s.shared.queue) (s.threads i) own out e) free own.held)
          (some-not-total _ _ _
            (omega (arith, inv.totals.counted, inv.totals.waiting (ap is_waiting at))))
  ]

  -- A thread whose data `main` cannot lock holds its own mutex.
  pub owner_can :
      (id : ℕ) → s.main ≡ take_data id → (s.threads id).mutex ≡ true → SomeThread (thread_can s)
  owner_can id at e =
      let own = subst (λ m. Own id (items s.shared.queue) m (s.threads id)) at (inv.own id) in
      at_most_two id (served-pushed id (items s.shared.queue) (s.threads id) own) (
        holder_can id s.shared (s.threads id) (s.threads id).pc
          (owner-holds id (items s.shared.queue) (s.threads id) own e))
    where
      owner-holds :
          (id : ℕ) (ids : List ℕ) (t : Thread)
          → Own id ids (take_data id) t
          → t.mutex ≡ true
          → holds_own t.pc || holds_sync t.pc ≡ true
      owner-holds id ids t own e = ground arith

      served-pushed :
          (id : ℕ) (ids : List ℕ) (t : Thread)
          → Own id ids (take_data id) t
          → has_pushed t.pc ≡ true
      served-pushed id ids t own = ground arith

      at_most_two :
          (i : ℕ)
          → has_pushed (s.threads i).pc ≡ true
          → thread_can s i ≡ true
          → SomeThread (thread_can s)
      at_most_two zero h c = inl c
      at_most_two (suc zero) h c = inr (inl c)
      at_most_two (suc (suc zero)) h c = inr (inr c)
      at_most_two (suc (suc (suc i))) h c =
          absurd (let out = inv.absent (suc (suc (suc i))) (omega arith) in ground (arith, h, out))
