-- ===== src/Dynamic/Safety.antt =====
-- What holds in every reachable state of 10_7 and of 10_8.
use linux_system_programming.Base.{Bool, true, false, arith, ◌≡◌, ◌⊎◌, ◌||◌}
use linux_system_programming.Dynamic.{
  Who, by_main, by_t1, Shared, MainPc, main_exited, T1Pc, t1_exited, Next, fault, moves, main_step,
  t1_step, System, Reach, has_exited,
}
use linux_system_programming.Dynamic.Invariant.{Inv, Reach-Inv}

abbrev pub is_fault : {P : Type 0} → Next P → Bool
is_fault fault = true
is_fault n = false

abbrev pub can_move : {P : Type 0} → Next P → Bool
can_move (moves s p) = true
can_move n = false

sound :
    (c : Who) (m : Shared) (q : MainPc) (p : T1Pc)
    → Inv c (record { shared = m; main = q; t1 = p })
    → (is_fault (main_step c (has_exited p) m q) ≡ false) × (is_fault (t1_step c m p) ≡ false)
unfolding main_step t1_step
sound by_main m q p h = ground arith
sound by_t1 m q p h = ground arith

-- In both programs, whoever cleans up, no reachable state lets a thread touch the object after it is
-- freed, use a destroyed mutex or condition variable, or destroy one that is in use.
no_fault :
    {c : Who} {s : System}
    → Reach c s
    → (is_fault (main_step c (has_exited s.t1) s.shared s.main) ≡ false)
      × (is_fault (t1_step c s.shared s.t1) ≡ false)
no_fault {c} {s} r = sound c s.shared s.main s.t1 (Reach-Inv r)

some_step :
    (c : Who) (m : Shared) (q : MainPc) (p : T1Pc)
    → Inv c (record { shared = m; main = q; t1 = p })
    → ((q ≡ main_exited) × (p ≡ t1_exited) × (m.allocated ≡ false))
      ⊎ (can_move (main_step c (has_exited p) m q) || can_move (t1_step c m p) ≡ true)
unfolding main_step t1_step
some_step by_main m q p h = ground arith
some_step by_t1 m q p h = ground arith

-- In both programs, in every reachable state a thread can go on with no spurious wakeup, or both have
-- ended and the object has been freed.
no_leak :
    {c : Who} {s : System}
    → Reach c s
    → ((s.main ≡ main_exited) × (s.t1 ≡ t1_exited) × (s.shared.allocated ≡ false))
      ⊎ (can_move (main_step c (has_exited s.t1) s.shared s.main)
            || can_move (t1_step c s.shared s.t1)
          ≡ true)
no_leak {c} {s} r = some_step c s.shared s.main s.t1 (Reach-Inv r)

-- In both programs, whoever cleans up, no reachable state lets a thread touch the object after it is freed,
-- use a destroyed mutex or condition variable, or destroy one that is in use; and in every reachable state a
-- thread can go on with no spurious wakeup, or both have ended and the object has been freed.
pub clean_end :
    {c : Who} {s : System}
    → Reach c s
    → (is_fault (main_step c (has_exited s.t1) s.shared s.main) ≡ false)
      × (is_fault (t1_step c s.shared s.t1) ≡ false)
      × (((s.main ≡ main_exited) × (s.t1 ≡ t1_exited) × (s.shared.allocated ≡ false))
          ⊎ (can_move (main_step c (has_exited s.t1) s.shared s.main)
                || can_move (t1_step c s.shared s.t1)
              ≡ true))
clean_end r = ((no_fault r).0, (no_fault r).1, no_leak r)
