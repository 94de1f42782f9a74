-- ===== src/TwoWay/Tests.antt =====
-- A run of the handshake to its end, and the theorems at a state on the way.
use linux_system_programming.TwoWay.Invariant.{
  main_holds, t1_holds, heard, commanded, started, finished, informed,
}
use linux_system_programming.TwoWay.Safety.{handshake_works, can_run}
use linux_system_programming.Base.{
  ◌⊎◌, ◌&&◌, ◌||◌, refl, Bool, true, false, Option, none, some, List, ◌≡◌, [], ◌∷◌,
}
use linux_system_programming.TwoWay.{
  main_exited, t1_exited, Shared, System, main_runs, t1_runs, Reach, start, later, init, MainPc,
  T1Pc, main_step, t1_step, has_exited, asleep_ready, asleep_proceed, main_exited, t1_exited,
}

pub record Run : Type 0 where
  last : System
  reach : Reach last

-- Lets `main` (true) or t1 (false) run in turn; a blocked thread is passed over.
turn : Run → Bool → Run
unfolding main_step t1_step
turn r true = go (main_step (has_exited r.last.t1) r.last.shared r.last.main) refl
  where
    go :
        (o : Option (Shared × MainPc))
        → main_step (has_exited r.last.t1) r.last.shared r.last.main ≡ o
        → Run
    go none e = r
    go (some (m, p)) e = record { last = _; reach = later r.reach (main_runs e) }
turn r false = go (t1_step r.last.shared r.last.t1) refl
  where
    go : (o : Option (Shared × T1Pc)) → t1_step r.last.shared r.last.t1 ≡ o → Run
    go none e = r
    go (some (m, p)) e = record { last = _; reach = later r.reach (t1_runs e) }

run_all : Run → List Bool → Run
unfolding turn
run_all r [] = r
run_all r (w ∷ ws) = run_all (turn r w) ws

-- `main` sleeps first; then t1 goes up to its own wait.
abbrev both_waited : Run
both_waited =
    run_all (record { last = init; reach = start })
      (true ∷ true ∷ false ∷ false ∷ false ∷ false ∷ [])

waiting : (both_waited.last.main ≡ asleep_ready) × (both_waited.last.t1 ≡ asleep_proceed)
unfolding run_all
waiting = (refl, refl)

handshake_works_example :
    (main_holds both_waited.last.main && t1_holds both_waited.last.t1 ≡ false)
    × ((started both_waited.last.t1 ≡ false)
        ⊎ ((heard both_waited.last.main ≡ true) × (commanded both_waited.last.main ≡ true)))
    × ((informed both_waited.last.main ≡ false) ⊎ (finished both_waited.last.t1 ≡ true))
    × (((both_waited.last.main ≡ main_exited) × (both_waited.last.t1 ≡ t1_exited))
        ⊎ (can_run (
                main_step
                  (has_exited both_waited.last.t1)
                  both_waited.last.shared
                  both_waited.last.main)
              || can_run (t1_step both_waited.last.shared both_waited.last.t1)
            ≡ true))
handshake_works_example = handshake_works both_waited.reach
