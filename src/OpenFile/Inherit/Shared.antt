-- ===== src/OpenFile/Inherit/Shared.antt =====
-- What each process of 7_9 does with its descriptor, whatever calls fail.
use linux_system_programming.Base.{
  length, ℕ, zero, suc, refl, Bool, true, false, not, Option, none, some, List, ◌≤◌, ◌≡◌,
}
use linux_system_programming.Sys.{pure, exit, call, Reply, failed, done, Rules, SafeIf}
use linux_system_programming.OpenFile.{
  Call, open_file, lseek, read, write, close, log, read_errno, fork, waitpid, sleep, emit,
  log_error, close_file_safer,
}
use linux_system_programming.OpenFile.Inherit.{
  parent_text, child_text, write_to_a_file_safer, child, parent, main,
}
use linux_system_programming.Files.{
  ExitType, success, err_general, err_file_open, err_file_write, Libc,
}

-- `is_open`: the process holds its descriptor. `written`: how much of its text the `write` of the process
-- accepted. `begun`: it has called `open`, or inherited what that gave. `waited`: `waitpid` has returned.
pub record Ledger : Type 0 where
  pub begun : Bool
  pub is_open : Bool
  pub written : Option ℕ
  pub forked : Bool
  pub waited : Bool

-- Each process writes its text once at most and only while its descriptor is open, the parent before it forks.
abbrev pub Allowed : (text : List ℕ) → Ledger → Call → Type 0
Allowed text s (open_file name) = (s.begun ≡ false) × (s.written ≡ none) × (s.forked ≡ false)
Allowed text s (lseek n w) = ⊥
Allowed text s (read n) = ⊥
Allowed text s (write bytes) =
    (bytes ≡ text) × (s.is_open ≡ true) × (s.written ≡ none) × (s.forked ≡ false)
Allowed text s close = s.is_open ≡ true
Allowed text s (log stream bytes) = Unit
Allowed text s read_errno = Unit
Allowed text s fork = s.forked ≡ false
Allowed text s waitpid = s.forked ≡ true
Allowed text s (sleep n) = Unit

abbrev pub step : Ledger → Call → Reply → Ledger
step s (open_file name) (done f bs) = record s { begun = true; is_open = true }
step s (write bytes) (done n bs) = record s { written = some n }
step s close r = record s { is_open = false }
step s fork (done pid bs) = record s { forked = true }
step s waitpid (done pid bs) = record s { waited = true }
step s c r = s

abbrev pub rules : (text : List ℕ) → Rules Call
rules text = record { Ledger = Ledger; Allowed = Allowed text; step = step }

-- A `write` accepts a beginning of its bytes; `fork` gives the parent the number of the child, not 0.
abbrev pub Possible : Ledger → Call → Reply → Type 0
Possible s (write bytes) (done n bs) = n ≤ length bytes
Possible s fork (done zero bs) = ⊥
Possible s c r = Unit

abbrev pub start : Ledger
start = record { begun = false; is_open = false; written = none; forked = false; waited = false }

-- The child has its own copy of the open descriptor.
abbrev pub inherited : Ledger
inherited = record { begun = true; is_open = true; written = none; forked = false; waited = false }

abbrev pub is_some : Option ℕ → Bool
is_some none = false
is_some (some n) = true

-- SUCCESS: the parent has closed its descriptor, and waited for the child. The other codes: `open`, `write`,
-- or `fork` or `waitpid` has failed.
abbrev pub ParentEnded : Ledger → ExitType → Type 0
ParentEnded s success = (s.is_open ≡ false) × (s.waited ≡ true) × (is_some s.written ≡ true)
ParentEnded s err_file_open = (s.is_open ≡ false) × (s.written ≡ none)
ParentEnded s err_file_write = (s.is_open ≡ false) × (s.written ≡ none)
ParentEnded s err_general =
    (s.waited ≡ false) × (s.forked ≡ not s.is_open) × (is_some s.written ≡ true)
ParentEnded s e = ⊥

abbrev pub ChildEnded : Ledger → ExitType → Type 0
ChildEnded s success = (s.is_open ≡ false) × (is_some s.written ≡ true)
ChildEnded s err_file_write = (s.is_open ≡ false) × (s.written ≡ none)
ChildEnded s e = ⊥

-- The `waitpid` of the parent
abbrev after_close : ℕ → Ledger
after_close n = record {
  begun = true;
  is_open = false;
  written = some n;
  forked = true;
  waited = false;
}

waiting :
    (n : ℕ)
    → SafeIf
        (rules parent_text)
        Possible
        ParentEnded
        (after_close n)
        (call waitpid (elim [ failed e ↦ exit err_general | done m bs ↦ pure success ]))
waiting n =
    (refl, elim [ failed e ↦ λ _. (refl, refl, refl) | done m bs ↦ λ _. (refl, refl, refl) ])

pub main-Ended : (c : Libc) → SafeIf (rules parent_text) Possible ParentEnded start (main c)
unfolding main parent write_to_a_file_safer close_file_safer log_error emit
main-Ended c = (
  (refl, refl, refl),
  elim [
    | failed e ↦ λ _. (tt, λ _ _. (tt, λ _ _. (refl, refl)))
    | done f bs ↦ λ _. (
      (refl, refl, refl, refl),
      elim [
        | failed e ↦ λ _. (
          tt,
          λ _ _. (
            tt,
            λ _ _. (
              refl,
              elim [
                | failed e ↦ λ _. (tt, λ _ _. (tt, λ _ _. (refl, refl)))
                | done n bs ↦ λ _. (refl, refl)
              ],
            ),
          ),
        )
        | done n bs ↦ λ _. (
          refl,
          elim [
            | failed e ↦ λ _. (tt, λ _ _. (tt, λ _ _. (refl, refl, refl)))
            | done zero bs ↦ λ p. absurd p
            | done (suc pid) bs ↦ λ _. (
              refl,
              elim [
                | failed e ↦ λ _. (tt, λ _ _. (tt, λ _ _. waiting n))
                | done m bs ↦ λ _. waiting n
              ],
            )
          ],
        )
      ],
    )
  ],
)

pub child-Ended : (c : Libc) → SafeIf (rules child_text) Possible ChildEnded inherited (child c)
unfolding child write_to_a_file_safer close_file_safer log_error emit
child-Ended c = (
  tt,
  λ _ _. (
    (refl, refl, refl, refl),
    elim [
      | failed e ↦ λ _. (
        tt,
        λ _ _. (
          tt,
          λ _ _. (
            refl,
            elim [
              | failed e ↦ λ _. (tt, λ _ _. (tt, λ _ _. (refl, refl)))
              | done n bs ↦ λ _. (refl, refl)
            ],
          ),
        ),
      )
      | done n bs ↦ λ _. (
        refl,
        elim [
          | failed e ↦ λ _. (tt, λ _ _. (tt, λ _ _. (refl, refl)))
          | done n bs ↦ λ _. (refl, refl)
        ],
      )
    ],
  ),
)
