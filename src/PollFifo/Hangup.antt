-- ===== src/PollFifo/Hangup.antt =====
-- The reader that polls after the writer has closed its end of an empty FIFO: `poll` returns at once, with
-- POLLHUP and without POLLIN.
use linux_system_programming.Sys.{done, Kernel, run}
use linux_system_programming.Base.{ℕ, zero, suc, refl, none, ◌+◌, ◌≡◌, [], ◌∷◌}
use linux_system_programming.Fifo.{Call, poll, stop_flag}
use linux_system_programming.PollFifo.{pollin, pollhup, has_pollin}
use linux_system_programming.PollFifo.Reader.{serve}

-- While no signal has come and `poll` reports only POLLHUP, as it does on an empty FIFO whose writer has
-- closed its end, the loop of the reader comes to no result, however many turns it is given.
pub hangup_is_endless :
    (k : Kernel Call) (read_fuel fuel j : ℕ)
    → ((i : ℕ) → k i stop_flag ≡ done 0 [])
    → ((i : ℕ) → k i (poll pollin) ≡ done 1 (pollhup ∷ []))
    → (run k j (serve read_fuel fuel)).status ≡ none
unfolding run serve has_pollin
hangup_is_endless k read_fuel zero j quiet hup = refl
hangup_is_endless k read_fuel (suc fuel) j quiet hup =
    rw (quiet j, run)
      (rw (hup (j + 1), run) (hangup_is_endless k read_fuel fuel (j + 1 + 1) quiet hup))
