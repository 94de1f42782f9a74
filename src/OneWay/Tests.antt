-- ===== src/OneWay/Tests.antt =====
-- A run of 10_2 in which `main` waits.
use linux_system_programming.Base.{
  refl, Bool, true, false, Option, none, some, List, ◌≡◌, ◌⊎◌, ◌&&◌, ◌||◌, [], ◌∷◌,
}
use linux_system_programming.OneWay.{
  System, Shared, MainPc, T1Pc, main_step, t1_step, has_ended, init, Reach, start, later, main_runs,
  t1_runs, main_exited, t1_exited, asleep, val_to_pass,
}
use linux_system_programming.OneWay.Safety.{
  main_holds, t1_holds, is_informed, has_worked, is_dangling, has_read, can_run, work_signalled,
}

pub record Run : Type 0 where
  last : System
  reach : Reach last

-- Lets `main` (true) or t1 (false) run; a blocked thread is passed over.
turn : Run → Bool → Run
unfolding main_step t1_step
turn r true = go (main_step r.last.shared r.last.t1 r.last.main) refl
  where
    go :
        (o : Option (Shared × T1Pc × MainPc))
        → main_step r.last.shared r.last.t1 r.last.main ≡ o
        → Run
    go none e = r
    go (some (m, p, q)) e = record { last = _; reach = later r.reach (main_runs e) }
turn r false = go (t1_step (has_ended r.last.main) r.last.shared r.last.t1) refl
  where
    go :
        (o : Option (Shared × T1Pc))
        → t1_step (has_ended r.last.main) r.last.shared r.last.t1 ≡ o
        → Run
    go none e = r
    go (some (m, p)) e = record { last = _; reach = later r.reach (t1_runs e) }

turns : List Bool → Run → Run
unfolding turn
turns [] r = r
turns (b ∷ bs) r = turns bs (turn r b)

abbrev waited : Run
waited = turns (true ∷ true ∷ true ∷ false ∷ []) (record { last = init; reach = start })

abbrev ended : Run
ended = turns (false ∷ false ∷ false ∷ false ∷ true ∷ true ∷ true ∷ true ∷ true ∷ []) waited

asleep_first : waited.last.main ≡ asleep
unfolding turns
asleep_first = refl

over : (ended.last.main ≡ main_exited) × (ended.last.t1 ≡ t1_exited)
unfolding turns
over = (refl, refl)

work_signalled_example :
    (main_holds waited.last.main && t1_holds waited.last.t1 ≡ false)
    × ((is_informed waited.last.main ≡ false) ⊎ (has_worked waited.last.t1 ≡ true))
    × (is_dangling waited.last.t1 ≡ false)
    × ((has_read waited.last.t1 ≡ false) ⊎ (waited.last.shared.passed ≡ some val_to_pass))
    × (((waited.last.main ≡ main_exited) × (waited.last.t1 ≡ t1_exited))
        ⊎ (can_run (main_step waited.last.shared waited.last.t1 waited.last.main)
              || can_run (t1_step (has_ended waited.last.main) waited.last.shared waited.last.t1)
            ≡ true))
work_signalled_example = work_signalled waited.reach
