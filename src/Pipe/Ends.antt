-- ===== src/Pipe/Ends.antt =====
-- Which ends a process holds, and that its read loop comes to the end of the data.
use linux_system_programming.Base.{
  Bool-cases, length, ℕ, zero, suc, min, refl, inl, inr, Bool, true, false, Option, none, some,
  arith, ◌==◌, ◌+◌, ◌-◌, ◌≤◌, ◌<◌, ◌≡◌,
}
use linux_system_programming.Sys.{
  Fair, SafeIf-run, Kernel, run, Obeys, replay, Safe, Safe-run, SafeIf, Reply, failed, done, pure,
  exit, attempt, Rules, ◌>>=◌, ◌>>◌, Status, success, failure,
}
use linux_system_programming.Pipe.{
  reading_end, writing_end, Call, pipe, wait, read, write, close, perror, die, Main, read_all,
  pipe_basics, listen, child, parent,
}

-- `unread`: bytes in the pipe that have been written and not read.
pub record Ledger : Type 0 where
  pub can_read : Bool
  pub can_write : Bool
  pub unread : ℕ

abbrev pub no_pipe : Ledger
no_pipe = record { can_read = false; can_write = false; unread = 0 }

-- A process reads only after it has closed its own writing end: while that is open, `read` waits for
-- more and never tells the end of the data. The parent waits for the child only after the same.
abbrev pub Allowed : Ledger → Call → Type 0
Allowed s (read reading_end n) = (s.can_read ≡ true) × (s.can_write ≡ false)
Allowed s (read writing_end n) = ⊥
Allowed s (write writing_end bs) = s.can_write ≡ true
Allowed s (write reading_end bs) = ⊥
Allowed s (close reading_end) = s.can_read ≡ true
Allowed s (close writing_end) = s.can_write ≡ true
Allowed s wait = s.can_write ≡ false
Allowed s c = Unit

abbrev pub step : Ledger → Call → Reply → Ledger
step s pipe (done n bs) = record { can_read = true; can_write = true; unread = 0 }
step s (close reading_end) r = record s { can_read = false }
step s (close writing_end) r = record s { can_write = false }
step s (write x bytes) (done n bs) = record s { unread = s.unread + n }
step s (read x m) (done n bs) = record s { unread = s.unread - n }
step s c r = s

abbrev pub rules : Rules Call
rules = record { Ledger = Ledger; Allowed = Allowed; step = step }

-- With no writer left, a `read` gives at least one byte while there is one, and 0 at the end.
abbrev pub Possible : Ledger → Call → Reply → Type 0
Possible s (write x bytes) (done n bs) = n ≤ length bytes
Possible s (read x m) (done n bs) = (n ≤ m) × (n ≤ s.unread) × (min 1 s.unread ≤ n)
Possible s c r = Unit

-- A result is there; EXIT_SUCCESS means that both ends are closed and all data has been read.
abbrev pub Drained : Ledger → Option Status → Type 0
Drained s none = ⊥
Drained s (some success) = (s.can_read ≡ false) × (s.can_write ≡ false) × (s.unread ≡ 0)
Drained s (some failure) = Unit

abbrev after_write : ℕ → Ledger
after_write n = record { can_read = true; can_write = false; unread = n }

-- What `pipe_basics` does from its read loop on.
read_and_close : (fuel : ℕ) → Main (Option Status)
read_and_close fuel = do
  read_all fuel
  attempt (close reading_end) (die (perror "close read end"))
  pure (some success)

read_all-Drained :
    (fuel n : ℕ) → n < fuel → SafeIf rules Possible Drained (after_write n) (read_and_close fuel)
unfolding read_all read_and_close
read_all-Drained zero n h = absurd (omega arith)
read_all-Drained (suc fuel) n h = (
  (refl, refl),
  elim [
    | failed e ↦ λ _. (tt, λ _ _. tt)
    | done m bs ↦ λ p. elim (Bool-cases (m == 0)) [
      | inl empty ↦
          rw (empty, SafeIf, ◌>>=◌)
            (
              refl,
              elim [ failed e ↦ λ _. (tt, λ _ _. tt) | done _ _ ↦ λ _. (refl, refl, ground arith) ],
            )
      | inr more ↦
          rw (more, SafeIf, ◌>>=◌) (tt, λ _ _. read_all-Drained fuel (n - m) (ground arith))
    ]
  ],
)

pipe_basics-Drained :
    (fuel : ℕ) → 20 < fuel → SafeIf rules Possible Drained no_pipe (pipe_basics fuel)
unfolding pipe_basics read_and_close
pipe_basics-Drained fuel enough = (
  tt,
  elim [
    | failed _ ↦ λ _. (tt, λ _ _. tt)
    | done _ _ ↦ λ _. (
      refl,
      elim [
        | failed _ ↦ λ _. (tt, λ _ _. tt)
        | done m _ ↦ λ p. (
          refl,
          elim [
            | failed _ ↦ λ _. (tt, λ _ _. tt)
            | done _ _ ↦ λ _. read_all-Drained fuel (0 + m) (omega (arith, p))
          ],
        )
      ],
    )
  ],
)

-- For a kernel that reads and writes as documented, fuel above 20 is enough for `pipe_basics`: it
-- comes to a result, uses each end only while it holds it and reads only after it has closed its
-- writing end; with EXIT_SUCCESS it has closed both ends and read all that it wrote.
pub pipe_basics_drains :
    (fuel : ℕ) (k : Kernel Call)
    → 20 < fuel
    → Fair rules Possible no_pipe (run k 0 (pipe_basics fuel)).events
    → Obeys rules no_pipe (run k 0 (pipe_basics fuel)).events
      × Drained
          (replay rules no_pipe (run k 0 (pipe_basics fuel)).events)
          (run k 0 (pipe_basics fuel)).status
pipe_basics_drains fuel k enough fair =
    SafeIf-run rules Possible Drained k 0 no_pipe (pipe_basics fuel) fair
      (pipe_basics-Drained fuel enough)

-- The state of both processes after `fork`, when `n` bytes are all that will be written.
abbrev pub forked : ℕ → Ledger
forked n = record { can_read = true; can_write = true; unread = n }

listen-Drained :
    (fuel n : ℕ)
    → n < fuel
    → SafeIf rules Possible Drained (after_write n) (listen fuel >> exit (some success))
unfolding listen
listen-Drained zero n h = absurd (omega arith)
listen-Drained (suc fuel) n h = (
  (refl, refl),
  elim [
    | failed e ↦ λ _. (tt, λ _ _. tt)
    | done m bs ↦ λ p. elim (Bool-cases (m == 0)) [
      | inl empty ↦
          rw (empty, SafeIf, ◌>>=◌)
            (
              refl,
              elim [ failed e ↦ λ _. (tt, λ _ _. tt) | done _ _ ↦ λ _. (refl, refl, ground arith) ],
            )
      | inr more ↦ rw (more, SafeIf, ◌>>=◌) (tt, λ _ _. listen-Drained fuel (n - m) (ground arith))
    ]
  ],
)

child-Drained : (fuel n : ℕ) → n < fuel → SafeIf rules Possible Drained (forked n) (child fuel)
unfolding child
child-Drained fuel n h =
    (refl, elim [ failed e ↦ λ _. (tt, λ _ _. tt) | done _ _ ↦ λ _. listen-Drained fuel n h ])

-- When the parent writes `n` bytes in all, fuel above `n` is enough for the child: it comes to a
-- result, closes its writing end before it reads, and with EXIT_SUCCESS has closed both ends and
-- read all `n` bytes.
child_drains :
    (fuel n : ℕ) (k : Kernel Call)
    → n < fuel
    → Fair rules Possible (forked n) (run k 0 (child fuel)).events
    → Obeys rules (forked n) (run k 0 (child fuel)).events
      × Drained
          (replay rules (forked n) (run k 0 (child fuel)).events)
          (run k 0 (child fuel)).status
child_drains fuel n k h fair =
    SafeIf-run rules Possible Drained k 0 (forked n) (child fuel) fair (child-Drained fuel n h)

-- The parent has closed both ends, whatever the replies, when it ends with EXIT_SUCCESS.
abbrev pub Closed : Ledger → Option Status → Type 0
Closed s none = ⊥
Closed s (some success) = (s.can_read ≡ false) × (s.can_write ≡ false)
Closed s (some failure) = s.can_read ≡ false

parent-Closed : (n : ℕ) → Safe rules Closed (forked n) parent
unfolding parent
parent-Closed n = ground arith

-- Whatever calls fail, the parent never reads, writes only while it holds the writing end, and waits
-- for the child only after it has closed that end; it comes to a result, and with EXIT_SUCCESS it
-- has closed both ends.
parent_closes :
    (n : ℕ) (k : Kernel Call)
    → Obeys rules (forked n) (run k 0 parent).events
      × Closed (replay rules (forked n) (run k 0 parent).events) (run k 0 parent).status
parent_closes n k = Safe-run rules Closed k 0 (forked n) parent (parent-Closed n)

-- When the parent writes `n` bytes in all and `read` and `write` reply as documented, fuel above `n` is
-- enough for the child: it comes to a result, closes its writing end before it reads, and with EXIT_SUCCESS
-- has closed both ends and read all `n` bytes. The parent, whatever calls fail, never reads, writes only
-- while it holds the writing end, waits for the child only after it has closed that end, comes to a result,
-- and with EXIT_SUCCESS has closed both ends.
pub both_close :
    (fuel n : ℕ) (k l : Kernel Call)
    → n < fuel
    → Fair rules Possible (forked n) (run k 0 (child fuel)).events
    → (Obeys rules (forked n) (run k 0 (child fuel)).events
        × Drained
            (replay rules (forked n) (run k 0 (child fuel)).events)
            (run k 0 (child fuel)).status)
      × Obeys rules (forked n) (run l 0 parent).events
      × Closed (replay rules (forked n) (run l 0 parent).events) (run l 0 parent).status
both_close fuel n k l h fair =
    (child_drains fuel n k h fair, (parent_closes n l).0, (parent_closes n l).1)
