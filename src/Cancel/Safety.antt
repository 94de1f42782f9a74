-- ===== src/Cancel/Safety.antt =====
-- What holds in every reachable state of 10_5.
use linux_system_programming.Base.{
  Option, none, some, Bool, true, false, arith, ◌≡◌, ◌⊎◌, ◌||◌, ◌&&◌, ◌≤◌, ◌≢◌,
}
use linux_system_programming.Cancel.{
  Shared, MainPc, main_exited, T1Pc, main_step, t1_step, System, Reach, t1_cancelled, t1_exited,
  max_count, count_to_stop,
}
use linux_system_programming.Cancel.Invariant.{
  Inv, Reach-Inv, main_holds, t1_holds, has_stopped, has_cancelled, is_cancelled,
}

safe :
    (m : Shared) (q : MainPc) (p : T1Pc)
    → Inv (record { shared = m; main = q; t1 = p })
    → (main_holds q && t1_holds p ≡ false)
      × (p ≢ t1_cancelled true)
      × ((is_cancelled p ≡ false) ⊎ (has_cancelled q ≡ true))
      × ((has_stopped q ≡ false) ⊎ (count_to_stop ≤ m.counter))
      × (m.counter ≤ max_count)
safe m q p h = ground arith

-- In every reachable state the two threads do not both hold the mutex, t1 has not been cancelled with
-- the mutex in its hands, t1 has ended by cancellation only if `main` has cancelled it, `main` is past
-- its test of the counter only if the counter is at least COUNT_TO_STOP, and the counter is at most
-- MAX_COUNT.
cancel_safe :
    {s : System}
    → Reach s
    → (main_holds s.main && t1_holds s.t1 ≡ false)
      × (s.t1 ≢ t1_cancelled true)
      × ((is_cancelled s.t1 ≡ false) ⊎ (has_cancelled s.main ≡ true))
      × ((has_stopped s.main ≡ false) ⊎ (count_to_stop ≤ s.shared.counter))
      × (s.shared.counter ≤ max_count)
cancel_safe {s} r = safe s.shared s.main s.t1 (Reach-Inv r)

abbrev pub has_ended : T1Pc → Bool
has_ended t1_exited = true
has_ended (t1_cancelled h) = true
has_ended p = false

abbrev pub runs : {P : Type 0} → Option (Shared × P) → Bool
runs none = false
runs (some r) = true

some_run :
    (m : Shared) (q : MainPc) (p : T1Pc)
    → Inv (record { shared = m; main = q; t1 = p })
    → ((q ≡ main_exited) × (has_ended p ≡ true))
      ⊎ (runs (main_step m q) || runs (t1_step m p) ≡ true)
unfolding main_step t1_step
some_run m q p h = ground arith

-- In every reachable state a thread can go on with no spurious wakeup, or `main` has ended and t1 has
-- ended, by itself or by cancellation.
no_lost_wakeup :
    {s : System}
    → Reach s
    → ((s.main ≡ main_exited) × (has_ended s.t1 ≡ true))
      ⊎ (runs (main_step s.shared s.main) || runs (t1_step s.shared s.t1) ≡ true)
no_lost_wakeup {s} r = some_run s.shared s.main s.t1 (Reach-Inv r)

-- In every reachable state the two threads do not both hold the mutex, t1 has not been cancelled with the
-- mutex in its hands, t1 has ended by cancellation only if `main` has cancelled it, `main` is past its test
-- of the counter only if the counter is at least COUNT_TO_STOP, and the counter is at most MAX_COUNT; and a
-- thread can go on with no spurious wakeup, or `main` has ended and t1 has ended, by itself or by
-- cancellation.
pub cancel_correct :
    {s : System}
    → Reach s
    → ((main_holds s.main && t1_holds s.t1 ≡ false)
        × (s.t1 ≢ t1_cancelled true)
        × ((is_cancelled s.t1 ≡ false) ⊎ (has_cancelled s.main ≡ true))
        × ((has_stopped s.main ≡ false) ⊎ (count_to_stop ≤ s.shared.counter))
        × (s.shared.counter ≤ max_count))
      × (((s.main ≡ main_exited) × (has_ended s.t1 ≡ true))
          ⊎ (runs (main_step s.shared s.main) || runs (t1_step s.shared s.t1) ≡ true))
cancel_correct r = (cancel_safe r, no_lost_wakeup r)
