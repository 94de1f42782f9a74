-- ===== src/Files/Descriptors.antt =====
-- The descriptors that the programs of Course_MohanM/2_File_Operations hold: which they may use, and
-- what they give back.
use linux_system_programming.Sys.{Reply, failed, done, Rules}
use linux_system_programming.Base.{
  Option, none, some, ℕ, Bool, true, false, List, ◌==◌, if◌then◌else◌, ◌≡◌, ◌||◌, [], ◌∷◌, ◌++◌,
}
use linux_system_programming.Files.{
  Call, ExitType, Fd, fd, bad, open_file, write, close, dup, dup2, printf, success, err_file_open,
  err_file_close,
}

abbrev pub is_held : ℕ → List ℕ → Bool
is_held n [] = false
is_held n (m ∷ held) = n == m || is_held n held

abbrev pub remove : ℕ → List ℕ → List ℕ
remove n [] = []
remove n (m ∷ held) = if n == m then held else (m ∷ remove n held)

-- `held`: the open descriptors. `file`: the one that `open` gave. `stdout_of`: that of which `dup2` has made
-- descriptor 1 a copy. `printed`: the texts that `printf` got, each with `stdout_of` at that time.
pub record Ledger : Type 0 where
  pub held : List ℕ
  pub file : Option Fd
  pub stdout_of : Option Fd
  pub printed : List (Option Fd × List ℕ)
  pub open_failed : Bool
  pub dup_failed : Bool
  pub close_failed : Bool

-- The standard output and error are open.
abbrev pub start : Ledger
start = record {
  held = 1 ∷ 2 ∷ [];
  file = none;
  stdout_of = none;
  printed = [];
  open_failed = false;
  dup_failed = false;
  close_failed = false;
}

-- A descriptor in use is open, or the -1 of a `dup` that failed.
abbrev pub may_use : Ledger → Fd → Bool
may_use s (fd n) = is_held n s.held
may_use s bad = s.dup_failed

abbrev pub Allowed : Ledger → Call → Type 0
Allowed s (write f bs) = may_use s f ≡ true
Allowed s (close f) = may_use s f ≡ true
Allowed s (dup f) = may_use s f ≡ true
Allowed s (dup2 f g) = may_use s f ≡ true
Allowed s c = Unit

abbrev pub release : Ledger → Fd → Ledger
release s (fd n) = record s {
  held = remove n s.held;
  stdout_of = if n == 1 then none else s.stdout_of;
}
release s bad = s

abbrev pub step : Ledger → Call → Reply → Ledger
step s (open_file name) (failed e) = record s { open_failed = true }
step s (open_file name) (done n bs) = record s { held = n ∷ s.held; file = some (fd n) }
step s (dup f) (failed e) = record s { dup_failed = true }
step s (dup f) (done n bs) = record s { held = n ∷ s.held }
step s (dup2 f g) (failed e) = record s { dup_failed = true }
step s (dup2 f (fd m)) (done n bs) = record s {
  held = m ∷ remove m s.held;
  stdout_of = if m == 1 then some f else s.stdout_of;
}
step s (close f) (failed e) = record (release s f) { close_failed = true }
step s (close f) (done n bs) = release s f
step s (printf text) r = record s { printed = s.printed ++ ((s.stdout_of, text) ∷ []) }
step s c r = s

abbrev pub rules : Rules Call
rules = record { Ledger = Ledger; Allowed = Allowed; step = step }

-- `open` and `dup` give a descriptor that is not open, `dup2` the one asked for, and -1 cannot be
-- closed.
abbrev pub Possible : Ledger → Call → Reply → Type 0
Possible s (open_file name) (done n bs) = is_held n s.held ≡ false
Possible s (dup f) (done n bs) = is_held n s.held ≡ false
Possible s (dup2 f (fd m)) (done n bs) = n ≡ m
Possible s (close bad) (done n bs) = ⊥
Possible s c r = Unit

-- With SUCCESS no `open`, `dup` or `close` has failed and only `kept` are open; the other codes tell of
-- the call that failed.
abbrev pub Returned : (kept : List ℕ) → Ledger → ExitType → Type 0
Returned kept s success =
    (s.held ≡ kept) × (s.open_failed ≡ false) × (s.dup_failed ≡ false) × (s.close_failed ≡ false)
Returned kept s err_file_open = (s.held ≡ 1 ∷ 2 ∷ []) × (s.open_failed ≡ true)
Returned kept s err_file_close = s.close_failed ≡ true
Returned kept s e = ⊥
