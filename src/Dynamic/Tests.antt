-- ===== src/Dynamic/Tests.antt =====
-- Runs of 10_7 and 10_8 to their ends.
use linux_system_programming.Base.{ℕ, zero, suc, refl, Bool, true, false, ◌≡◌, ◌⊎◌, ◌||◌}
use linux_system_programming.Dynamic.{
  Who, by_main, by_t1, MainPc, main_exited, T1Pc, t1_exited, Next, blocked, fault, moves, main_step,
  t1_step, System, init, Reach, start, later, main_runs, t1_runs, has_exited,
}
use linux_system_programming.Dynamic.Safety.{is_fault, can_move, clean_end}

pub record Run (c : Who) : Type 0 where
  last : System
  reach : Reach c last

-- Lets `main` (true) or t1 (false) run in turn; a blocked thread is passed over.
turn : {c : Who} → Run c → Bool → Run c
unfolding main_step t1_step
turn {c} r true = go (main_step c (has_exited r.last.t1) r.last.shared r.last.main) refl
  where
    go :
        (o : Next MainPc) → main_step c (has_exited r.last.t1) r.last.shared r.last.main ≡ o → Run c
    go blocked e = r
    go fault e = r
    go (moves m p) e = record { last = _; reach = later r.reach (main_runs e) }
turn {c} r false = go (t1_step c r.last.shared r.last.t1) refl
  where
    go : (o : Next T1Pc) → t1_step c r.last.shared r.last.t1 ≡ o → Run c
    go blocked e = r
    go fault e = r
    go (moves m p) e = record { last = _; reach = later r.reach (t1_runs e) }

-- `n` rounds in which both run.
rounds : {c : Who} → ℕ → Run c → Run c
unfolding turn
rounds zero r = r
rounds (suc n) r = rounds n (turn (turn r true) false)

abbrev begin : (c : Who) → Run c
begin c = record { last = init; reach = start }

-- In 10_7 t1 is about to destroy the mutex.
abbrev cleaning : Run by_t1
cleaning = rounds 12 (begin by_t1)

abbrev ended : Run by_main
ended = rounds 20 (begin by_main)

over : (ended.last.main ≡ main_exited) × (ended.last.t1 ≡ t1_exited)
unfolding rounds
over = (refl, refl)

clean_end_example :
    (is_fault
        (main_step by_t1 (has_exited cleaning.last.t1) cleaning.last.shared cleaning.last.main)
      ≡ false)
    × (is_fault (t1_step by_t1 cleaning.last.shared cleaning.last.t1) ≡ false)
    × (((cleaning.last.main ≡ main_exited)
          × (cleaning.last.t1 ≡ t1_exited)
          × (cleaning.last.shared.allocated ≡ false))
        ⊎ (can_move (
                main_step by_t1
                  (has_exited cleaning.last.t1)
                  cleaning.last.shared
                  cleaning.last.main)
              || can_move (t1_step by_t1 cleaning.last.shared cleaning.last.t1)
            ≡ true))
clean_end_example = clean_end cleaning.reach
