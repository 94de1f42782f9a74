-- ===== src/Signals/Handshake/Faultless.antt =====
-- The signals of 9_3 while no call fails.
use linux_system_programming.Base.{ℕ, Bool, true, false, some, arith, ◌≡◌, ◌≢◌}
use linux_system_programming.Sys.{failure}
use linux_system_programming.Signals.Handshake.{
  Process, ParentPc, block, parent_exited, ChildPc, absent, child_exited, System, parent_step,
  child_step, init, parent_runs, child_runs, Reach, start, later, parent_failed, child_failed,
}
use linux_system_programming.Signals.Handshake.Invariant.{
  Inv, Reach-Inv, has_notified, has_commanded, has_answered, sent_usr1, sent_usr2,
}

-- With no fault each signal that was sent is pending or caught, and no process ends by a failure.
pub record Faultless (s : System) : Type 0 where
  pub notified : s.faults ≡ 0 → has_notified s.child_pc ≡ true → sent_usr1 s.parent ≡ true
  pub commanded : s.faults ≡ 0 → has_commanded s.parent_pc ≡ true → sent_usr1 s.child ≡ true
  pub answered : s.faults ≡ 0 → has_answered s.child_pc ≡ true → sent_usr2 s.parent ≡ true
  pub parent_unfailed : s.faults ≡ 0 → s.parent_pc ≢ parent_failed
  pub child_unfailed : s.faults ≡ 0 → s.child_pc ≢ child_failed
  pub parent_status : s.faults ≡ 0 → s.parent_pc ≢ parent_exited failure
  pub child_status : s.faults ≡ 0 → s.child_pc ≢ child_exited failure

Faultless-init : Faultless init
Faultless-init = ground arith

parent-Faultless :
    (ok : Bool) (p c : Process) (pp : ParentPc) (cp : ChildPc) (n : ℕ) (t : System)
    → Inv (record { parent = p; child = c; parent_pc = pp; child_pc = cp; faults = n })
    → Faultless (record { parent = p; child = c; parent_pc = pp; child_pc = cp; faults = n })
    → parent_step ok
        (record { parent = p; child = c; parent_pc = pp; child_pc = cp; faults = n })
        pp
      ≡ some t
    → Faultless t
unfolding parent_step
parent-Faultless true p c block cp n t h f e = ground arith
parent-Faultless true p c pp cp n t h f e = ground arith
parent-Faultless false p c block cp n t h f e = ground arith
parent-Faultless false p c pp cp n t h f e = ground arith

child-Faultless :
    (ok : Bool) (p c : Process) (pp : ParentPc) (cp : ChildPc) (n : ℕ) (t : System)
    → Inv (record { parent = p; child = c; parent_pc = pp; child_pc = cp; faults = n })
    → Faultless (record { parent = p; child = c; parent_pc = pp; child_pc = cp; faults = n })
    → child_step ok (record { parent = p; child = c; parent_pc = pp; child_pc = cp; faults = n }) cp
      ≡ some t
    → Faultless t
unfolding child_step
child-Faultless true p c pp absent n t h f e = ground arith
child-Faultless true p c pp cp n t h f e = ground arith
child-Faultless false p c pp absent n t h f e = ground arith
child-Faultless false p c pp cp n t h f e = ground arith

pub Reach-Faultless : {s : System} → Reach s → Faultless s
Reach-Faultless start = Faultless-init
Reach-Faultless {s = t} (later {s} r (parent_runs ok lives e)) =
    parent-Faultless ok s.parent s.child s.parent_pc s.child_pc s.faults t (Reach-Inv r)
      (Reach-Faultless r) e
Reach-Faultless {s = t} (later {s} r (child_runs ok lives e)) =
    child-Faultless ok s.parent s.child s.parent_pc s.child_pc s.faults t (Reach-Inv r)
      (Reach-Faultless r) e
