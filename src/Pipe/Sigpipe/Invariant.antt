-- ===== src/Pipe/Sigpipe/Invariant.antt =====
-- What ties the ends of the pipe of 11_3 to the places where parent and child stand.
use linux_system_programming.Base.{ℕ, Bool, true, false, some, arith, ◌≡◌, ◌⊎◌, ◌||◌}
use linux_system_programming.Pipe.Sigpipe.{
  start, ParentPc, ignore, make_pipe, fork, close_reading, write_first, write_second, close_writing,
  wait, parent_killed, parent_exited, ChildPc, absent, child_close_writing, read,
  child_close_reading, Sent, not_yet, broken_pipe, System, write_end, setup_step, parent_step, init,
  failure, child_step, Step, Reach, parent_runs, later, child_runs,
}

abbrev pub is_setup : ParentPc → Bool
is_setup ignore = true
is_setup make_pipe = true
is_setup fork = true
is_setup p = false

-- The parent holds its writing end.
abbrev pub can_write : ParentPc → Bool
can_write fork = true
can_write close_reading = true
can_write write_first = true
can_write write_second = true
can_write close_writing = true
can_write p = false

-- The parent holds its reading end.
abbrev pub can_read : ParentPc → Bool
can_read fork = true
can_read close_reading = true
can_read p = false

abbrev pub is_killed : ParentPc → Bool
is_killed parent_killed = true
is_killed p = false

-- The parent has not come to its second `write`.
abbrev pub before_second : ParentPc → Bool
before_second close_writing = false
before_second wait = false
before_second (parent_exited status) = false
before_second p = true

abbrev pub is_absent : ChildPc → Bool
is_absent absent = true
is_absent p = false

-- The child holds its reading end, and its writing end.
abbrev pub child_can_read : ChildPc → Bool
child_can_read child_close_writing = true
child_can_read read = true
child_can_read child_close_reading = true
child_can_read p = false

abbrev pub child_can_write : ChildPc → Bool
child_can_write child_close_writing = true
child_can_write p = false

abbrev pub is_broken : Sent → Bool
is_broken broken_pipe = true
is_broken x = false

abbrev pub is_not_yet : Sent → Bool
is_not_yet not_yet = true
is_not_yet x = false

pub record Inv (s : System) : Type 0 where
  pub lives : is_killed s.parent_pc ≡ false
  pub ignores : (s.parent_pc ≡ ignore) ⊎ (s.ignored ≡ true)
  pub writer : s.parent_writes ≡ can_write s.parent_pc
  pub reader : s.parent_reads ≡ can_read s.parent_pc
  pub child_writer : s.child_writes ≡ child_can_write s.child_pc
  pub child_reader : s.child_reads ≡ child_can_read s.child_pc
  pub unforked : is_setup s.parent_pc ≡ true → is_absent s.child_pc ≡ true
  pub forked :
      is_absent s.child_pc ≡ true
      → (is_setup s.parent_pc ≡ true) ⊎ (s.parent_pc ≡ parent_exited failure)
  pub no_reader :
      is_broken s.first || is_broken s.second ≡ true
      → (s.child_reads ≡ false) × (s.parent_reads ≡ false)
  pub broken_before : is_setup s.parent_pc ≡ true → is_not_yet s.first ≡ true
  pub second_before : before_second s.parent_pc ≡ true → is_not_yet s.second ≡ true
  pub broken_twice :
      is_broken s.first ≡ true → (is_not_yet s.second ≡ true) ⊎ (is_broken s.second ≡ true)

Inv-init : Inv init
Inv-init = ground arith

abbrev pub system : (ig pr pw cr cw : Bool) → ℕ → (x y : Sent) → ParentPc → ChildPc → System
system ig pr pw cr cw n x y pp cp = record {
  ignored = ig;
  parent_reads = pr;
  parent_writes = pw;
  child_reads = cr;
  child_writes = cw;
  unread = n;
  first = x;
  second = y;
  parent_pc = pp;
  child_pc = cp;
}

parent-Inv :
    (ok ig pr pw cr cw : Bool) (n : ℕ) (x y : Sent) (pp : ParentPc) (cp : ChildPc) (t : System)
    → Inv (system ig pr pw cr cw n x y pp cp)
    → parent_step ok (system ig pr pw cr cw n x y pp cp) pp ≡ some t
    → Inv t
unfolding parent_step setup_step write_end
parent-Inv true ig pr pw cr cw n x y pp cp t h e = ground arith
parent-Inv false ig pr pw cr cw n x y pp cp t h e = ground arith

child-Inv :
    (ok ig pr pw cr cw : Bool) (n : ℕ) (x y : Sent) (pp : ParentPc) (cp : ChildPc) (t : System)
    → Inv (system ig pr pw cr cw n x y pp cp)
    → child_step ok (system ig pr pw cr cw n x y pp cp) cp ≡ some t
    → Inv t
unfolding child_step
child-Inv true ig pr pw cr cw n x y pp cp t h e = ground arith
child-Inv false ig pr pw cr cw n x y pp cp t h e = ground arith

Step-Inv : {s t : System} → Step s t → Inv s → Inv t
Step-Inv {s} {t} (parent_runs ok e) h =
    parent-Inv ok s.ignored s.parent_reads s.parent_writes s.child_reads s.child_writes s.unread
      s.first s.second s.parent_pc s.child_pc t h e
Step-Inv {s} {t} (child_runs ok e) h =
    child-Inv ok s.ignored s.parent_reads s.parent_writes s.child_reads s.child_writes s.unread
      s.first s.second s.parent_pc s.child_pc t h e

pub Reach-Inv : {s : System} → Reach s → Inv s
Reach-Inv start = Inv-init
Reach-Inv (later r st) = Step-Inv st (Reach-Inv r)
