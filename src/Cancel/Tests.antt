-- ===== src/Cancel/Tests.antt =====
-- A run of 10_5 in which `main` cancels t1 at the count of 50.
use linux_system_programming.Base.{
  ◌≤◌, ◌≢◌, ◌&&◌, ℕ, zero, suc, refl, Bool, true, false, Option, none, some, ◌≡◌, ◌⊎◌, ◌||◌,
}
use linux_system_programming.Cancel.{
  Shared, MainPc, T1Pc, main_step, t1_step, System, init, Reach, start, later, main_runs, t1_runs,
  main_exited, t1_cancelled,
}
use linux_system_programming.Cancel.{main_exited, t1_cancelled, max_count, count_to_stop}
use linux_system_programming.Cancel.Invariant.{
  main_holds, t1_holds, is_cancelled, has_cancelled, has_stopped,
}
use linux_system_programming.Cancel.Safety.{cancel_correct, has_ended, runs}

pub record Run : Type 0 where
  last : System
  reach : Reach last

-- Lets `main` (true) or t1 (false) run in turn; a blocked thread is passed over.
turn : Run → Bool → Run
unfolding main_step t1_step
turn r true = go (main_step r.last.shared r.last.main) refl
  where
    go : (o : Option (Shared × MainPc)) → main_step r.last.shared r.last.main ≡ o → Run
    go none e = r
    go (some o) e = record { last = _; reach = later r.reach (main_runs e) }
turn r false = go (t1_step r.last.shared r.last.t1) refl
  where
    go : (o : Option (Shared × T1Pc)) → t1_step r.last.shared r.last.t1 ≡ o → Run
    go none e = r
    go (some o) e = record { last = _; reach = later r.reach (t1_runs e) }

-- `n` rounds in which both run.
rounds : ℕ → Run → Run
unfolding turn
rounds zero r = r
rounds (suc n) r = rounds n (turn (turn r true) false)

abbrev begin : Run
begin = record { last = init; reach = start }

abbrev ended : Run
ended = rounds 400 begin

over :
    (ended.last.main ≡ main_exited)
    × (ended.last.t1 ≡ t1_cancelled false)
    × (ended.last.shared.counter ≡ 51)
unfolding rounds
over = (refl, refl, refl)

cancel_correct_example :
    ((main_holds ended.last.main && t1_holds ended.last.t1 ≡ false)
      × (ended.last.t1 ≢ t1_cancelled true)
      × ((is_cancelled ended.last.t1 ≡ false) ⊎ (has_cancelled ended.last.main ≡ true))
      × ((has_stopped ended.last.main ≡ false) ⊎ (count_to_stop ≤ ended.last.shared.counter))
      × (ended.last.shared.counter ≤ max_count))
    × (((ended.last.main ≡ main_exited) × (has_ended ended.last.t1 ≡ true))
        ⊎ (runs (main_step ended.last.shared ended.last.main)
              || runs (t1_step ended.last.shared ended.last.t1)
            ≡ true))
cancel_correct_example = cancel_correct ended.reach
