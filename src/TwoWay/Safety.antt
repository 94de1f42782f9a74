-- ===== src/TwoWay/Safety.antt =====
-- What holds in every reachable state of the handshake.
use linux_system_programming.Base.{
  Bool, true, false, Option, none, some, arith, ◌≡◌, ◌⊎◌, ◌&&◌, ◌||◌,
}
use linux_system_programming.TwoWay.{
  Shared, MainPc, lock_first, main_exited, T1Pc, t1_exited, main_step, t1_step, System, Reach,
  has_exited,
}
use linux_system_programming.TwoWay.Invariant.{
  main_holds, t1_holds, heard, commanded, started, finished, informed, Inv, Reach-Inv,
}

order :
    (m : Shared) (q : MainPc) (p : T1Pc)
    → Inv (record { shared = m; main = q; t1 = p })
    → (main_holds q && t1_holds p ≡ false)
      × ((started p ≡ false) ⊎ ((heard q ≡ true) × (commanded q ≡ true)))
      × ((informed q ≡ false) ⊎ (finished p ≡ true))
order m lock_first p h = ground arith
order m q p h = ground arith

-- In every reachable state at most one of the two is between a lock and its unlock, t1 has passed its
-- wait only if `main` has seen `t1_ready` and set `t1_to_proceed`, and `main` has passed its second
-- wait only if t1 has done its work and set `t1_done`.
handshake_order :
    {s : System}
    → Reach s
    → (main_holds s.main && t1_holds s.t1 ≡ false)
      × ((started s.t1 ≡ false) ⊎ ((heard s.main ≡ true) × (commanded s.main ≡ true)))
      × ((informed s.main ≡ false) ⊎ (finished s.t1 ≡ true))
handshake_order {s} r = order s.shared s.main s.t1 (Reach-Inv r)

abbrev pub can_run {ℓ} : {A : Type ℓ} → Option A → Bool
can_run none = false
can_run (some a) = true

some_step :
    (m : Shared) (q : MainPc) (p : T1Pc)
    → Inv (record { shared = m; main = q; t1 = p })
    → ((q ≡ main_exited) × (p ≡ t1_exited))
      ⊎ (can_run (main_step (has_exited p) m q) || can_run (t1_step m p) ≡ true)
unfolding main_step t1_step
some_step m lock_first p h = ground arith
some_step m q p h = ground arith

-- No wakeup is lost: in every reachable state both have ended, or one of them can run with no
-- spurious wakeup.
no_deadlock :
    {s : System}
    → Reach s
    → ((s.main ≡ main_exited) × (s.t1 ≡ t1_exited))
      ⊎ (can_run (main_step (has_exited s.t1) s.shared s.main) || can_run (t1_step s.shared s.t1)
          ≡ true)
no_deadlock {s} r = some_step s.shared s.main s.t1 (Reach-Inv r)

-- In every reachable state at most one of the two is between a lock and its unlock, t1 has passed its wait only
-- if `main` has seen `t1_ready` and set `t1_to_proceed`, and `main` has passed its second wait only if t1 has done
-- its work and set `t1_done`; and no wakeup is lost: both have ended, or one of them can run with no
-- spurious wakeup.
pub handshake_works :
    {s : System}
    → Reach s
    → (main_holds s.main && t1_holds s.t1 ≡ false)
      × ((started s.t1 ≡ false) ⊎ ((heard s.main ≡ true) × (commanded s.main ≡ true)))
      × ((informed s.main ≡ false) ⊎ (finished s.t1 ≡ true))
      × (((s.main ≡ main_exited) × (s.t1 ≡ t1_exited))
          ⊎ (can_run (main_step (has_exited s.t1) s.shared s.main)
                || can_run (t1_step s.shared s.t1)
              ≡ true))
handshake_works r = let order = handshake_order r in (order.0, order.1, order.2, no_deadlock r)
