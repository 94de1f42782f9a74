-- ===== src/Pipe/Sigpipe.antt =====
-- Course_MohanM/11_IPC/11_3_PIPE_demonstration_of_SIGPIPE/main.c: parent and child on one pipe, one call at a
-- time. Calls whose result the code tests may fail. What is printed is left out, but for the three ways in which
-- a `write` of the parent comes out. The sleep of the parent leaves every order of the calls possible.
use linux_system_programming.Base.{
  ℕ, zero, suc, Bool, true, false, Option, none, some, if◌then◌else◌, ◌+◌, ◌-◌, ◌≡◌, ◌||◌,
}
use linux_system_programming.Sys.{Status, success, failure}
pub mod Invariant
pub mod Safety
mod Tests

-- `write_first` and `write_second` are the two calls of `write`, at lines 131 and 151. `parent_killed`: by SIGPIPE.
pub data ParentPc : Type 0 where
  ignore make_pipe fork : ParentPc
  close_reading write_first write_second close_writing wait : ParentPc
  parent_killed : ParentPc
  parent_exited : Status → ParentPc

pub data ChildPc : Type 0 where
  absent : ChildPc
  child_close_writing read child_close_reading : ChildPc
  child_exited : Status → ChildPc

-- How a `write` came out
pub data Sent : Type 0 where
  not_yet accepted broken_pipe other_error : Sent

-- Who holds which end of the pipe, the bytes in it, and whether the parent ignores SIGPIPE.
pub record System : Type 0 where
  pub ignored : Bool
  pub parent_reads : Bool
  pub parent_writes : Bool
  pub child_reads : Bool
  pub child_writes : Bool
  pub unread : ℕ
  pub first : Sent
  pub second : Sent
  pub parent_pc : ParentPc
  pub child_pc : ChildPc

-- A process that has ended holds no end.
abbrev pub parent_exits : Status → System → System
parent_exits status s = record s {
  parent_reads = false;
  parent_writes = false;
  parent_pc = parent_exited status;
}

abbrev pub child_exits : Status → System → System
child_exits status s = record s {
  child_reads = false;
  child_writes = false;
  child_pc = child_exited status;
}

-- A `write` of four bytes to the pipe: what it does to the bytes in it, and how it comes out; `none`: the
-- writer is killed. `ok`: no error but EPIPE.
unfoldable pub write_end : (ok : Bool) → System → Option (ℕ × Sent)
write_end ok s =
    if s.parent_reads || s.child_reads
    then (if ok then some (s.unread + 4, accepted) else some (s.unread, other_error))
    else if s.ignored
    then some (s.unread, broken_pipe)
    else none

-- The calls up to the fork
unfoldable pub setup_step : (ok : Bool) → System → ParentPc → Option System
setup_step ok s ignore = some (record s { ignored = true; parent_pc = make_pipe })
setup_step false s make_pipe = some (parent_exits failure s)
setup_step true s make_pipe =
    some (record s { parent_reads = true; parent_writes = true; parent_pc = fork })
setup_step false s fork = some (parent_exits failure s)
setup_step true s fork = some (record s {
  child_reads = s.parent_reads;
  child_writes = s.parent_writes;
  child_pc = child_close_writing;
  parent_pc = close_reading;
})
setup_step ok s p = none

-- The parent after the fork; `none` where it waits or has ended. A `close` gives its end back even when it fails.
unfoldable pub parent_step : (ok : Bool) → System → ParentPc → Option System
unfolding setup_step write_end
parent_step ok s ignore = setup_step ok s ignore
parent_step ok s make_pipe = setup_step ok s make_pipe
parent_step ok s fork = setup_step ok s fork
parent_step ok s close_reading = some (record s { parent_reads = false; parent_pc = write_first })
parent_step ok s write_first = elim (write_end ok s) [
  | none ↦ some (record (parent_exits success s) { parent_pc = parent_killed })
  | some o ↦ some (record s { unread = o.0; first = o.1; parent_pc = write_second })
]
parent_step ok s write_second = elim (write_end ok s) [
  | none ↦ some (record (parent_exits success s) { parent_pc = parent_killed })
  | some o ↦ some (record s { unread = o.0; second = o.1; parent_pc = close_writing })
]
parent_step ok s close_writing = some (record s { parent_writes = false; parent_pc = wait })
parent_step false s wait = some (parent_exits failure s)
parent_step true s wait = elim s.child_pc [
  | child_exited status ↦ some (parent_exits success s)
  | _ ↦ none
]
parent_step ok s parent_killed = none
parent_step ok s (parent_exited status) = none

-- The child; `none` where it is not there, waits for bytes or has ended. BYTES_TO_READ_AT_ONCE is 4. After the
-- end of the data it closes the reading end as after data.
unfoldable pub child_step : (ok : Bool) → System → ChildPc → Option System
child_step ok s absent = none
child_step false s child_close_writing = some (child_exits failure s)
child_step true s child_close_writing = some (record s { child_writes = false; child_pc = read })
child_step false s read = some (child_exits failure s)
child_step true s read = elim s.unread [
  | zero ↦
      if s.parent_writes || s.child_writes
      then none
      else some (record s { child_pc = child_close_reading })
  | suc n ↦ some (record s { unread = suc n - 4; child_pc = child_close_reading })
]
child_step false s child_close_reading = some (child_exits failure s)
child_step true s child_close_reading = some (child_exits success s)
child_step ok s (child_exited status) = none

pub data Step (s : System) : System → Type 0 where
  parent_runs : {t : System} (ok : Bool) → parent_step ok s s.parent_pc ≡ some t → Step s t
  child_runs : {t : System} (ok : Bool) → child_step ok s s.child_pc ≡ some t → Step s t

abbrev pub init : System
init = record {
  ignored = false;
  parent_reads = false;
  parent_writes = false;
  child_reads = false;
  child_writes = false;
  unread = 0;
  first = not_yet;
  second = not_yet;
  parent_pc = ignore;
  child_pc = absent;
}

pub data Reach : System → Type 0 where
  start : Reach init
  later : {s t : System} → Reach s → Step s t → Reach t
