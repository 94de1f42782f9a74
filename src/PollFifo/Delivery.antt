-- ===== src/PollFifo/Delivery.antt =====
-- The whole run of the reader that polls.
use linux_system_programming.PollFifo.Turn.{serve-Kept}
use linux_system_programming.Sys.{
  Fair, SafeIf-run, attempt, Kernel, run, Obeys, replay, SafeIf, failed, done, ◌>>=◌,
}
use linux_system_programming.Base.{
  Bool-cases, length, All, ℕ, refl, inl, inr, false, List, ◌==◌, ◌+◌, ◌<◌, [],
}
use linux_system_programming.Fifo.{Call, open_fifo, perror}
use linux_system_programming.Fifo.Delivery.{Fine, before}
use linux_system_programming.PollFifo.Shown.{rules, Possible, Kept}
use linux_system_programming.PollFifo.Reader.{serve, die, cleanup, make_fifo, poll_reader}

opened-Kept :
    (read_fuel fuel : ℕ) (lines : List (List ℕ)) (i : ℕ)
    → All Fine lines
    → length lines + i < fuel
    → 300 + i < read_fuel
    → SafeIf rules Possible (Kept lines) (before lines i) (
        attempt open_fifo (die (perror "R : Opening FIFO failed") false false) >>= λ _.
        serve read_fuel fuel)
unfolding die cleanup
opened-Kept read_fuel fuel lines i fine h enough = (
  refl,
  elim [
    | failed e ↦ λ _. (tt, λ _ _. (tt, λ _ _. ((refl, refl, refl), (lines, refl))))
    | done _ _ ↦ λ _. serve-Kept read_fuel fuel lines [] i fine h enough
  ],
)

reader-Kept :
    (read_fuel fuel : ℕ) (lines : List (List ℕ)) (i : ℕ)
    → All Fine lines
    → length lines + i < fuel
    → 300 + i < read_fuel
    → SafeIf rules Possible (Kept lines) (before lines i) (poll_reader read_fuel fuel)
unfolding poll_reader make_fifo die cleanup
reader-Kept read_fuel fuel lines i fine h enough = (
  tt,
  λ _ _. (
    tt,
    λ _ _. (
      tt,
      λ _ _. (
        tt,
        elim [
          | failed e ↦ λ _. elim (Bool-cases (e == 17)) [
            | inl present ↦
                rw (present, SafeIf, ◌>>=◌)
                  (tt, λ _ _. opened-Kept read_fuel fuel lines i fine h enough)
            | inr fault ↦
                rw (fault, SafeIf, ◌>>=◌)
                  (tt, λ _ _. (tt, λ _ _. ((refl, refl, refl), (lines, refl))))
          ]
          | done _ _ ↦ λ _. (tt, λ _ _. opened-Kept read_fuel fuel lines i fine h enough)
        ],
      ),
    ),
  ),
)

-- When the frames of `lines` are all that is written, with fuel above the number of lines and the number
-- of calls of `poll` and `read` that bring nothing, and with 300 more for the loops on `read`, the
-- reader that polls comes to a result, in whatever pieces the bytes arrive and whatever calls fail. It
-- never reads a closed FIFO nor leaks or frees twice a buffer, it ends with EXIT_FAILURE and never by
-- the end of the file, and then the FIFO is closed and removed and the lines shown are the first of
-- `lines`, in order and unchanged.
pub poll_reader_keeps :
    (read_fuel fuel : ℕ) (lines : List (List ℕ)) (i : ℕ) (k : Kernel Call)
    → All Fine lines
    → length lines + i < fuel
    → 300 + i < read_fuel
    → Fair rules Possible (before lines i) (run k 0 (poll_reader read_fuel fuel)).events
    → Obeys rules (before lines i) (run k 0 (poll_reader read_fuel fuel)).events
      × Kept lines
          (replay rules (before lines i) (run k 0 (poll_reader read_fuel fuel)).events)
          (run k 0 (poll_reader read_fuel fuel)).status
poll_reader_keeps read_fuel fuel lines i k fine h enough fair =
    SafeIf-run rules Possible (Kept lines) k 0 (before lines i) (poll_reader read_fuel fuel) fair
      (reader-Kept read_fuel fuel lines i fine h enough)
