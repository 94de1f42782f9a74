-- ===== src/Signals/Handshake/Safety.antt =====
-- What holds in every reachable state of 9_3.
use linux_system_programming.Base.{ℕ, Bool, true, false, Option, none, some, arith, ◌≡◌, ◌⊎◌, ◌||◌}
use linux_system_programming.Sys.{success}
use linux_system_programming.Signals.Handshake.{
  Process, ParentPc, block, parent_exited, ChildPc, child_exited, System, parent_step, child_step,
  Reach,
}
use linux_system_programming.Signals.Handshake.Invariant.{
  Inv, Reach-Inv, has_notified, has_commanded, is_answered, sent_usr1, sent_usr2, is_served,
}
use linux_system_programming.Signals.Handshake.Faultless.{Faultless, Reach-Faultless}

safe :
    (p c : Process) (pp : ParentPc) (cp : ChildPc) (n : ℕ)
    → Inv (record { parent = p; child = c; parent_pc = pp; child_pc = cp; faults = n })
    → (p.killed ≡ false)
      × (c.killed ≡ false)
      × ((sent_usr1 p ≡ false) ⊎ (has_notified cp ≡ true) × (c.handles_usr1 ≡ true))
      × ((sent_usr1 c ≡ false) ⊎ (has_commanded pp ≡ true) × (p.caught_usr1 ≡ true))
      × ((sent_usr2 p ≡ false) ⊎ (cp ≡ child_exited success) × (c.caught_usr1 ≡ true))
      × ((is_served pp ≡ false) ⊎ (p.caught_usr1 ≡ true))
      × ((is_answered pp ≡ false) ⊎ (p.caught_usr2 ≡ true))
safe p c pp cp n h = ground arith

-- In every reachable state, whatever calls fail, no signal kills a process. A SIGUSR1 is pending at the parent or
-- caught by it only if the child has come past its first `kill`, and handles SIGUSR1; one is pending at the child
-- or caught by it only if the parent has come past its `kill` without a failure there, and has caught the SIGUSR1
-- of the child; a SIGUSR2 is pending at the parent or caught by it only if the child has ended with EXIT_SUCCESS, and
-- has caught the SIGUSR1 of the parent; and the parent is past its two waits only if it has caught
-- SIGUSR1 and SIGUSR2.
pub signal_order :
    {s : System}
    → Reach s
    → (s.parent.killed ≡ false)
      × (s.child.killed ≡ false)
      × ((sent_usr1 s.parent ≡ false)
          ⊎ (has_notified s.child_pc ≡ true) × (s.child.handles_usr1 ≡ true))
      × ((sent_usr1 s.child ≡ false)
          ⊎ (has_commanded s.parent_pc ≡ true) × (s.parent.caught_usr1 ≡ true))
      × ((sent_usr2 s.parent ≡ false)
          ⊎ (s.child_pc ≡ child_exited success) × (s.child.caught_usr1 ≡ true))
      × ((is_served s.parent_pc ≡ false) ⊎ (s.parent.caught_usr1 ≡ true))
      × ((is_answered s.parent_pc ≡ false) ⊎ (s.parent.caught_usr2 ≡ true))
signal_order {s} r = safe s.parent s.child s.parent_pc s.child_pc s.faults (Reach-Inv r)

abbrev pub goes {ℓ} : {A : Type ℓ} → Option A → Bool
goes none = false
goes (some a) = true

some_process :
    (p c : Process) (pp : ParentPc) (cp : ChildPc) (n : ℕ)
    → Inv (record { parent = p; child = c; parent_pc = pp; child_pc = cp; faults = n })
    → Faultless (record { parent = p; child = c; parent_pc = pp; child_pc = cp; faults = n })
    → n ≡ 0
    → ((pp ≡ parent_exited success) × (cp ≡ child_exited success))
      ⊎ (goes (
              parent_step true
                (record { parent = p; child = c; parent_pc = pp; child_pc = cp; faults = n })
                pp)
            || goes (
                child_step true
                  (record { parent = p; child = c; parent_pc = pp; child_pc = cp; faults = n })
                  cp)
          ≡ true)
unfolding parent_step child_step
some_process p c block cp n h f q = ground arith
some_process p c pp cp n h f q = ground arith

-- As long as no call has failed, no signal is lost: the parent or the child can go on, or both have ended
-- with EXIT_SUCCESS.
pub no_signal_lost :
    {s : System}
    → Reach s
    → s.faults ≡ 0
    → ((s.parent_pc ≡ parent_exited success) × (s.child_pc ≡ child_exited success))
      ⊎ (goes (parent_step true s s.parent_pc) || goes (child_step true s s.child_pc) ≡ true)
no_signal_lost {s} r quiet =
    some_process s.parent s.child s.parent_pc s.child_pc s.faults (Reach-Inv r) (Reach-Faultless r)
      quiet
