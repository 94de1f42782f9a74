-- ===== src/Signals/Handshake.antt =====
-- Course_MohanM/9_Signals/9_3_Custom_Signals_with_SIGUSR: Program_1/main.c, the parent, and Program_2/main.c,
-- which its child runs. One call or one test of a flag at a time; calls whose result the code tests, and
-- `kill`, may fail.
use linux_system_programming.Sys.{Status, failure, success}
use linux_system_programming.Base.{
  ℕ, Bool, true, false, Option, none, some, if◌then◌else◌, ◌+◌, ◌≡◌,
}
pub mod Invariant
pub mod Faultless
pub mod Safety
mod Tests

pub data Signal : Type 0 where
  usr1 usr2 : Signal

-- What the kernel keeps of a process, and its flags. `masked`: both signals are blocked outside
-- `sigsuspend`. `killed`: the default action of a signal ended it.
pub record Process : Type 0 where
  pub masked : Bool
  pub handles_usr1 : Bool
  pub handles_usr2 : Bool
  pub pending_usr1 : Bool
  pub pending_usr2 : Bool
  pub caught_usr1 : Bool  -- `child_is_ready` of the parent, `got_sigusr1` of the child
  pub caught_usr2 : Bool  -- `got_sigusr2`
  pub killed : Bool

-- `signal_handler` runs for a signal that has it, else the default action.
abbrev pub deliver : Signal → Process → Process
deliver usr1 p =
    if p.handles_usr1 then record p { caught_usr1 = true } else record p { killed = true }
deliver usr2 p =
    if p.handles_usr2 then record p { caught_usr2 = true } else record p { killed = true }

-- `kill` of the process
abbrev pub send : Signal → Process → Process
send usr1 p = if p.masked then record p { pending_usr1 = true } else deliver usr1 p
send usr2 p = if p.masked then record p { pending_usr2 = true } else deliver usr2 p

-- `sigsuspend` with the empty mask returns when a handler has run.
abbrev pub suspend : Process → Option Process
suspend p =
    if p.pending_usr1
    then (if p.pending_usr2
        then some
            (deliver usr2 (deliver usr1 (record p { pending_usr1 = false; pending_usr2 = false })))
        else some (deliver usr1 (record p { pending_usr1 = false })))
    else if p.pending_usr2
    then some (deliver usr2 (record p { pending_usr2 = false }))
    else none

pub data ParentPc : Type 0 where
  block handle_usr1 handle_usr2 fork : ParentPc  -- lines 55 to 78
  test_ready suspend_ready : ParentPc  -- line 92
  command : ParentPc  -- line 98
  test_answer suspend_answer : ParentPc  -- line 105
  wait : ParentPc  -- line 113
  parent_failed : ParentPc  -- EXIT_FAILURE before or at line 98, with no signal sent
  parent_exited : Status → ParentPc

pub data ChildPc : Type 0 where
  absent : ChildPc  -- before the fork
  exec : ChildPc  -- line 87 of Program_1
  child_block child_handle : ChildPc  -- lines 43 and 54 of Program_2
  notify : ChildPc  -- line 61
  test_command suspend_command : ChildPc  -- line 65
  answer : ChildPc  -- line 73
  child_failed : ChildPc  -- EXIT_FAILURE before line 61 of Program_2
  child_exited : Status → ChildPc

-- `faults` counts the calls that failed.
pub record System : Type 0 where
  pub parent : Process
  pub child : Process
  pub parent_pc : ParentPc
  pub child_pc : ChildPc
  pub faults : ℕ

abbrev pub parent_fails : System → System
parent_fails s = record s { parent_pc = parent_failed; faults = s.faults + 1 }

abbrev pub child_fails : System → System
child_fails s = record s { child_pc = child_failed; faults = s.faults + 1 }

-- The next step of the parent; `none` where it sleeps or has ended. `ok`: the call does not fail. The
-- child of a `fork` has the mask of its parent.
unfoldable pub parent_step : (ok : Bool) → System → ParentPc → Option System
parent_step false s block = some (parent_fails s)
parent_step true s block =
    some (record s { parent = record (s.parent) { masked = true }; parent_pc = handle_usr1 })
parent_step false s handle_usr1 = some (parent_fails s)
parent_step true s handle_usr1 =
    some (record s { parent = record (s.parent) { handles_usr1 = true }; parent_pc = handle_usr2 })
parent_step false s handle_usr2 = some (parent_fails s)
parent_step true s handle_usr2 =
    some (record s { parent = record (s.parent) { handles_usr2 = true }; parent_pc = fork })
parent_step false s fork = some (parent_fails s)
parent_step true s fork = some (record s {
  child = record (s.parent) { pending_usr1 = false; pending_usr2 = false };
  child_pc = exec;
  parent_pc = test_ready;
})
parent_step ok s test_ready =
    some (record s { parent_pc = if s.parent.caught_usr1 then command else suspend_ready })
parent_step ok s suspend_ready = elim (suspend s.parent) [
  | none ↦ none
  | some p ↦ some (record s { parent = p; parent_pc = test_ready })
]
parent_step false s command = some (parent_fails s)
parent_step true s command = some (record s { child = send usr1 s.child; parent_pc = test_answer })
parent_step ok s test_answer =
    some (record s { parent_pc = if s.parent.caught_usr2 then wait else suspend_answer })
parent_step ok s suspend_answer = elim (suspend s.parent) [
  | none ↦ none
  | some p ↦ some (record s { parent = p; parent_pc = test_answer })
]
parent_step false s wait =
    some (record s { parent_pc = parent_exited failure; faults = s.faults + 1 })
parent_step true s wait = elim s.child_pc [
  | child_exited status ↦ some (record s { parent_pc = parent_exited success })
  | child_failed ↦ some (record s { parent_pc = parent_exited success })
  | _ ↦ if s.child.killed then some (record s { parent_pc = parent_exited success }) else none
]
parent_step ok s parent_failed = none
parent_step ok s (parent_exited status) = none

-- The next step of the child. `execl` keeps the mask and what is pending, and takes back the handlers; the
-- result of the first `kill` is not tested.
unfoldable pub child_step : (ok : Bool) → System → ChildPc → Option System
child_step ok s absent = none
child_step false s exec = some (child_fails s)
child_step true s exec = some (record s {
  child = record (s.child) {
    handles_usr1 = false;
    handles_usr2 = false;
    caught_usr1 = false;
    caught_usr2 = false;
  };
  child_pc = child_block;
})
child_step false s child_block = some (child_fails s)
child_step true s child_block =
    some (record s { child = record (s.child) { masked = true }; child_pc = child_handle })
child_step false s child_handle = some (child_fails s)
child_step true s child_handle =
    some (record s { child = record (s.child) { handles_usr1 = true }; child_pc = notify })
child_step false s notify = some (record s { child_pc = test_command; faults = s.faults + 1 })
child_step true s notify = some (record s { parent = send usr1 s.parent; child_pc = test_command })
child_step ok s test_command =
    some (record s { child_pc = if s.child.caught_usr1 then answer else suspend_command })
child_step ok s suspend_command = elim (suspend s.child) [
  | none ↦ none
  | some p ↦ some (record s { child = p; child_pc = test_command })
]
child_step false s answer =
    some (record s { child_pc = child_exited failure; faults = s.faults + 1 })
child_step true s answer =
    some (record s { parent = send usr2 s.parent; child_pc = child_exited success })
child_step ok s child_failed = none
child_step ok s (child_exited status) = none

-- One step of a process that has not been killed.
pub data Step (s : System) : System → Type 0 where
  parent_runs :
      {t : System} (ok : Bool)
      → s.parent.killed ≡ false
      → parent_step ok s s.parent_pc ≡ some t
      → Step s t
  child_runs :
      {t : System} (ok : Bool)
      → s.child.killed ≡ false
      → child_step ok s s.child_pc ≡ some t
      → Step s t

abbrev fresh : Process
fresh = record {
  masked = false;
  handles_usr1 = false;
  handles_usr2 = false;
  pending_usr1 = false;
  pending_usr2 = false;
  caught_usr1 = false;
  caught_usr2 = false;
  killed = false;
}

abbrev pub init : System
init = record { parent = fresh; child = fresh; parent_pc = block; child_pc = absent; faults = 0 }

pub data Reach : System → Type 0 where
  start : Reach init
  later : {s t : System} → Reach s → Step s t → Reach t
