-- ===== src/Signals/Handshake/Invariant.antt =====
-- What ties the signals of 9_3 to the places where parent and child stand.
use linux_system_programming.Base.{ℕ, Bool, true, false, not, some, arith, ◌≡◌, ◌⊎◌, ◌||◌}
use linux_system_programming.Sys.{success}
use linux_system_programming.Signals.Handshake.{
  parent_failed, parent_failed, parent_failed, start, Process, ParentPc, block, handle_usr1,
  handle_usr2, fork, suspend_ready, command, test_answer, suspend_answer, wait, parent_exited,
  ChildPc, absent, notify, test_command, suspend_command, answer, child_exited, System, parent_step,
  init, child_step, Step, Reach, parent_runs, later, child_runs, parent_failed,
}

-- The parent prepares itself.
abbrev pub is_setup : ParentPc → Bool
is_setup block = true
is_setup handle_usr1 = true
is_setup handle_usr2 = true
is_setup fork = true
is_setup p = false

-- It has blocked the signals; it handles SIGUSR1; it handles SIGUSR2.
abbrev pub has_blocked : ParentPc → Bool
has_blocked block = false
has_blocked parent_failed = false
has_blocked p = true

abbrev pub has_usr1 : ParentPc → Bool
has_usr1 block = false
has_usr1 handle_usr1 = false
has_usr1 parent_failed = false
has_usr1 p = true

abbrev pub has_usr2 : ParentPc → Bool
has_usr2 fork = true
has_usr2 parent_failed = false
has_usr2 p = not (is_setup p)

-- It has seen that the child is ready, and the answer.
abbrev pub is_served : ParentPc → Bool
is_served command = true
is_served test_answer = true
is_served suspend_answer = true
is_served wait = true
is_served (parent_exited status) = true
is_served p = false

abbrev pub is_answered : ParentPc → Bool
is_answered wait = true
is_answered (parent_exited status) = true
is_answered p = false

-- It has come past its `kill`, and did not fail there.
abbrev pub has_commanded : ParentPc → Bool
has_commanded test_answer = true
has_commanded suspend_answer = true
has_commanded wait = true
has_commanded (parent_exited status) = true
has_commanded p = false

abbrev pub is_absent : ChildPc → Bool
is_absent absent = true
is_absent p = false

-- The child handles SIGUSR1.
abbrev pub can_handle : ChildPc → Bool
can_handle notify = true
can_handle test_command = true
can_handle suspend_command = true
can_handle answer = true
can_handle (child_exited status) = true
can_handle p = false

-- It has come past its first `kill`.
abbrev pub has_notified : ChildPc → Bool
has_notified test_command = true
has_notified suspend_command = true
has_notified answer = true
has_notified (child_exited status) = true
has_notified p = false

-- It has seen the SIGUSR1 of the parent, and it has sent its answer.
abbrev pub is_commanded : ChildPc → Bool
is_commanded answer = true
is_commanded (child_exited status) = true
is_commanded p = false

abbrev pub has_answered : ChildPc → Bool
has_answered (child_exited success) = true
has_answered p = false

-- The signal has been sent to the process, and is pending or caught.
abbrev pub sent_usr1 : Process → Bool
sent_usr1 p = p.pending_usr1 || p.caught_usr1

abbrev pub sent_usr2 : Process → Bool
sent_usr2 p = p.pending_usr2 || p.caught_usr2

pub record Inv (s : System) : Type 0 where
  pub parent_lives : s.parent.killed ≡ false
  pub child_lives : s.child.killed ≡ false
  pub blocked : has_blocked s.parent_pc ≡ true → s.parent.masked ≡ true
  pub handled_usr1 : has_usr1 s.parent_pc ≡ true → s.parent.handles_usr1 ≡ true
  pub handled_usr2 : has_usr2 s.parent_pc ≡ true → s.parent.handles_usr2 ≡ true
  pub setup : is_setup s.parent_pc ≡ true → is_absent s.child_pc ≡ true
  pub forked :
      is_absent s.child_pc ≡ true → (is_setup s.parent_pc ≡ true) ⊎ (s.parent_pc ≡ parent_failed)
  pub parent_masked : is_absent s.child_pc ≡ false → s.parent.masked ≡ true
  pub child_masked : is_absent s.child_pc ≡ false → s.child.masked ≡ true
  pub child_handles : can_handle s.child_pc ≡ true → s.child.handles_usr1 ≡ true
  pub no_usr2 : s.child.pending_usr2 ≡ false
  pub from_child : sent_usr1 s.parent ≡ true → has_notified s.child_pc ≡ true
  pub from_parent : sent_usr1 s.child ≡ true → has_commanded s.parent_pc ≡ true
  pub answer_from_child : sent_usr2 s.parent ≡ true → has_answered s.child_pc ≡ true
  pub saw_ready : is_served s.parent_pc ≡ true → s.parent.caught_usr1 ≡ true
  pub saw_answer : is_answered s.parent_pc ≡ true → s.parent.caught_usr2 ≡ true
  pub saw_command : is_commanded s.child_pc ≡ true → s.child.caught_usr1 ≡ true
  pub not_ready : s.parent_pc ≡ suspend_ready → s.parent.caught_usr1 ≡ false
  pub not_answered : s.parent_pc ≡ suspend_answer → s.parent.caught_usr2 ≡ false
  pub not_commanded : s.child_pc ≡ suspend_command → s.child.caught_usr1 ≡ false

Inv-init : Inv init
Inv-init = ground arith

parent-Inv :
    (ok : Bool) (p c : Process) (pp : ParentPc) (cp : ChildPc) (n : ℕ) (t : System)
    → Inv (record { parent = p; child = c; parent_pc = pp; child_pc = cp; faults = n })
    → parent_step ok
        (record { parent = p; child = c; parent_pc = pp; child_pc = cp; faults = n })
        pp
      ≡ some t
    → Inv t
unfolding parent_step
parent-Inv true p c block cp n t h e = ground arith
parent-Inv true p c pp cp n t h e = ground arith
parent-Inv false p c block cp n t h e = ground arith
parent-Inv false p c pp cp n t h e = ground arith

child-Inv :
    (ok : Bool) (p c : Process) (pp : ParentPc) (cp : ChildPc) (n : ℕ) (t : System)
    → Inv (record { parent = p; child = c; parent_pc = pp; child_pc = cp; faults = n })
    → child_step ok (record { parent = p; child = c; parent_pc = pp; child_pc = cp; faults = n }) cp
      ≡ some t
    → Inv t
unfolding child_step
child-Inv true p c pp absent n t h e = ground arith
child-Inv true p c pp cp n t h e = ground arith
child-Inv false p c pp absent n t h e = ground arith
child-Inv false p c pp cp n t h e = ground arith

Step-Inv : {s t : System} → Step s t → Inv s → Inv t
Step-Inv {s} {t} (parent_runs ok lives e) h =
    parent-Inv ok s.parent s.child s.parent_pc s.child_pc s.faults t h e
Step-Inv {s} {t} (child_runs ok lives e) h =
    child-Inv ok s.parent s.child s.parent_pc s.child_pc s.faults t h e

pub Reach-Inv : {s : System} → Reach s → Inv s
Reach-Inv start = Inv-init
Reach-Inv (later r st) = Step-Inv st (Reach-Inv r)
