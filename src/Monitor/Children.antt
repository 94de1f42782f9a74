-- ===== src/Monitor/Children.antt =====
-- The children of a process, and which replies `fork` and the waits can give.
use linux_system_programming.Base.{
  Bool-cases, length, refl, inl, inr, List, arith, ◌==◌, if◌then◌else◌, [], ◌∷◌, ◌++◌, ℕ, zero, suc,
  Bool, true, false, Option, none, some, ◌+◌, ◌-◌, ◌≤◌, ◌<◌, ◌≡◌, ◌⊎◌, ◌||◌,
}
use linux_system_programming.Sys.{Reply, failed, done, Rules}
use linux_system_programming.Monitor.{Call, fork, wait, watch, waitpid, ExitCode, minus_1, code}

abbrev pub member : ℕ → List ℕ → Bool
member p [] = false
member p (q ∷ qs) = p == q || member p qs

abbrev pub remove : ℕ → List ℕ → List ℕ
remove p [] = []
remove p (q ∷ qs) = let rest = remove p qs in if p == q then qs else q ∷ rest

-- `child`: `fork` has given 0, and this is the child with that number; `none` in the parent. `made`: the pids
-- that `fork` has given; `children`: those of them that no wait has collected; `active`: those of which `waitpid`
-- has said that they had not ended. `idle` bounds the replies with WNOHANG that say that no child has ended.
pub record Ledger : Type 0 where
  pub child : Option ℕ
  pub made : List ℕ
  pub children : List ℕ
  pub active : List ℕ
  pub idle : ℕ
  pub fork_failed : Bool
  pub wait_failed : Bool

abbrev pub start : (idle : ℕ) → Ledger
start idle = record {
  child = none;
  made = [];
  children = [];
  active = [];
  idle = idle;
  fork_failed = false;
  wait_failed = false;
}

abbrev pub collected : (pid : ℕ) → Ledger → Ledger
collected pid s = record s { children = remove pid s.children }

abbrev pub no_news : Ledger → Ledger
no_news s = record s { idle = s.idle - 1 }

abbrev pub still_active : (pid : ℕ) → Ledger → Ledger
still_active pid s = record s { idle = s.idle - 1; active = s.active ++ (pid ∷ []) }

abbrev pub step : Ledger → Call → Reply → Ledger
step s fork (failed e) = record s { fork_failed = true }
step s fork (done zero bs) = record s { child = some (length s.made + 1); made = []; children = [] }
step s fork (done (suc pid) bs) = record s {
  made = s.made ++ (suc pid ∷ []);
  children = s.children ++ (suc pid ∷ []);
}
step s wait (failed e) = record s { wait_failed = true }
step s wait (done pid bs) = collected pid s
step s watch (failed e) = record s { wait_failed = true }
step s watch (done zero bs) = no_news s
step s watch (done (suc pid) bs) = collected (suc pid) s
step s (waitpid pid wnohang) (failed e) = record s { wait_failed = true }
step s (waitpid pid wnohang) (done zero bs) = still_active pid s
step s (waitpid pid wnohang) (done (suc n) bs) = collected (suc n) s
step s c r = s

-- A process waits only for children of its own that it has not collected.
abbrev pub Allowed : Ledger → Call → Type 0
Allowed s wait = (s.child ≡ none) × (0 < length s.children)
Allowed s watch = (s.child ≡ none) × (0 < length s.children)
Allowed s (waitpid pid wnohang) = (s.child ≡ none) × (member pid s.children ≡ true)
Allowed s c = Unit

abbrev pub rules : Rules Call
rules = record { Ledger = Ledger; Allowed = Allowed; step = step }

-- `fork` does not give the pid of a child that has not been collected. A wait gives such a child. `waitpid` gives
-- the child that it is asked for, and 0 only with WNOHANG.
abbrev pub Possible : Ledger → Call → Reply → Type 0
Possible s fork (done (suc pid) bs) = member (suc pid) s.children ≡ false
Possible s wait (done pid bs) = member pid s.children ≡ true
Possible s watch (done zero bs) = 0 < s.idle
Possible s watch (done (suc pid) bs) = member (suc pid) s.children ≡ true
Possible s (waitpid pid wnohang) (done zero bs) = (wnohang ≡ true) × (0 < s.idle)
Possible s (waitpid pid wnohang) (done (suc n) bs) =
    (suc n ≡ pid) × (member (suc n) s.children ≡ true)
Possible s c r = Unit

-- How a process ends, when the children exit with the codes `first` and `second`: with -1 only the parent, after a
-- `fork` or a wait has failed; with `first` the first child, with `second` the second one; with 0 the parent of two
-- children, of which it has not collected those that `waitpid` said were active, `left` at most. `falls`: or
-- with `second` the parent whose second `fork` has failed, with its first child left behind.
abbrev pub Ended : (falls : Bool) → (left first second : ℕ) → Ledger → Option ExitCode → Type 0
Ended falls left first second s none = ⊥
Ended falls left first second s (some minus_1) =
    (s.child ≡ none) × (s.fork_failed || s.wait_failed ≡ true)
Ended falls left first second s (some (code n)) =
    ((s.child ≡ some 1) × (n ≡ first))
    ⊎ ((s.child ≡ some 2) × (n ≡ second))
    ⊎ ((s.child ≡ none)
        × (n ≡ 0)
        × (length s.made ≡ 2)
        × (s.children ≡ s.active)
        × (length s.children ≤ left))
    ⊎ ((falls ≡ true)
        × (s.child ≡ none)
        × (n ≡ second)
        × (s.fork_failed ≡ true)
        × (length s.made ≡ 1)
        × (s.children ≡ s.made))

pub length-remove :
    (p : ℕ) (qs : List ℕ) → member p qs ≡ true → length (remove p qs) + 1 ≡ length qs
length-remove p [] h = absurd (ground (arith, h))
length-remove p (q ∷ qs) h = elim (Bool-cases (p == q)) [
  | inl same ↦ rw (same) (omega arith)
  | inr other ↦
      rw (other) (let ih = length-remove p qs (ground (arith, h, other)) in omega (arith, ih))
]

pub length-nil : (qs : List ℕ) → length qs ≡ 0 → qs ≡ []
length-nil [] h = refl
length-nil (q ∷ qs) h = absurd (omega (arith, h))
