-- ===== src/PollFifo/Shown.antt =====
-- What the reader that polls shows and gives back, when frames come in.
use linux_system_programming.Sys.{
  failure, success, SafeIf, Status, Reply, failed, done, Rules, ◌>>=◌,
}
use linux_system_programming.Base.{
  length, ℕ, String, refl, Bool, true, false, not, Option, none, some, List, ◌==◌, if◌then◌else◌,
  ◌-◌, ◌<◌, ◌≡◌, ◌&&◌, ◌||◌, ◌++◌,
}
use linux_system_programming.Fifo.Shown.{Ledger, Allowed, GaveBack, at}
use linux_system_programming.Fifo.Shown as Blocking
use linux_system_programming.Fifo.{Main, Call, perror, poll, read, eintr}
use linux_system_programming.PollFifo.{eagain, has_pollin}
use linux_system_programming.PollFifo.Reader.{die, cleanup}

-- `poll` found bytes to read.
abbrev pub is_ready : (n : ℕ) → (revents : List ℕ) → Bool
is_ready n revents = not (n == 0) && has_pollin revents

-- The calls that the loops make again after these errors
abbrev pub is_transient : (errno : ℕ) → Bool
is_transient errno = (errno == eintr) || (errno == eagain)

-- Here `interruptions` counts the calls of `read` and `poll` that bring nothing.
abbrev pub step : Ledger → Call → Reply → Ledger
step s (poll events) (failed e) = record s { interruptions = s.interruptions - 1 }
step s (poll events) (done n revents) = record s {
  interruptions = if is_ready n revents then s.interruptions else (s.interruptions - 1);
}
step s c r = Blocking.step s c r

abbrev pub rules : Rules Call
rules = record { Ledger = Ledger; Allowed = Allowed; step = step }

-- `poll` reports POLLIN only where there is something to read. Timeouts, POLLHUP and errors that are
-- transient come `interruptions` times at most.
abbrev pub Possible : Ledger → Call → Reply → Type 0
Possible s (poll events) (failed e) = is_transient e ≡ true → 0 < s.interruptions
Possible s (poll events) (done n revents) =
    if is_ready n revents then 0 < length s.incoming else 0 < s.interruptions
Possible s (read m) (failed e) = is_transient e ≡ true → 0 < s.interruptions
Possible s c r = Blocking.Possible s c r

-- The reader ends with EXIT_FAILURE only. Then everything is given back, and the lines shown are the
-- first of those sent.
abbrev pub Kept : List (List ℕ) → Ledger → Option Status → Type 0
Kept lines s none = ⊥
Kept lines s (some success) = ⊥
Kept lines s (some failure) = GaveBack s × ((rest : List (List ℕ)) × (lines ≡ s.shown ++ rest))

module _ {A : Type 0} (k : A → Main (Option Status)) where
  pub die-Kept :
      (text : String) (buffer : Bool) (incoming : List ℕ) (i : ℕ) (shown rest : List (List ℕ))
      → SafeIf rules Possible
          (Kept (shown ++ rest))
          (at buffer incoming i shown)
          (die (perror text) true buffer >>= k)
  unfolding die cleanup
  die-Kept text true incoming i shown rest =
      (tt, λ _ _. (refl, λ _ _. (refl, λ _ _. (tt, λ _ _. ((refl, refl, refl), (rest, refl))))))
  die-Kept text false incoming i shown rest =
      (tt, λ _ _. (refl, λ _ _. (tt, λ _ _. ((refl, refl, refl), (rest, refl)))))
