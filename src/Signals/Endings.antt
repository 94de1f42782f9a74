-- ===== src/Signals/Endings.antt =====
-- How the loops of 9_1 and 9_2 end.
use linux_system_programming.Base.{
  replicate, ℕ, Bool, true, none, some, List, ◌+◌, ◌*◌, ◌≤◌, ◌≡◌, ◌⊎◌, ◌&&◌, [], ◌∷◌, ◌++◌,
}
use linux_system_programming.Sys.{success, failure}
use linux_system_programming.Signals.Catch.{
  Delivery, sigint, continuing, has_term, last_lines, ends, main_catches,
}
use linux_system_programming.Signals.Timer.{
  counted, reached, t_end, t_initial, t_periodic, main_times,
}
use linux_system_programming.Signals.Catch
use linux_system_programming.Signals.Timer

-- In 9_1, after any number of SIGINT alone the program still catches signals, and has printed one line for each;
-- with the first SIGTERM, alone or together with a SIGINT, it prints its last line and ends with EXIT_SUCCESS,
-- whatever comes later; when a call of the setup has failed it ends at once with EXIT_FAILURE. In 9_2, with fuel
-- for five turns the program takes exactly five alarms, numbers them from 0 to 4, and ends with EXIT_SUCCESS six
-- seconds after the first call of `alarm` and the delays of the alarms.
pub loops_end :
    (n : ℕ) (d : Delivery) (later : List Delivery) (masked int_set term_set : Bool) (late : ℕ → ℕ)
    (fuel : ℕ)
    → has_term d ≡ true
    → t_end ≤ fuel
    → (Catch.main true true true (replicate n sigint)
        ≡ record { lines = replicate n continuing; status = none })
      × (Catch.main true true true (replicate n sigint ++ (d ∷ later))
          ≡ record { lines = replicate n continuing ++ last_lines d; status = some success })
      × ((masked && int_set && term_set ≡ true)
          ⊎ (Catch.main masked int_set term_set (replicate n sigint ++ (d ∷ later)) ≡ ends failure))
      × (Timer.main true true late fuel ≡ record {
        lines = counted 0 ∷ counted 1 ∷ counted 2 ∷ counted 3 ∷ counted 4 ∷ reached ∷ [];
        ended_at = t_initial + 4 * t_periodic + (late 0 + late 1 + late 2 + late 3 + late 4);
        status = some success;
      })
loops_end n d later masked int_set term_set late fuel h enough =
    let caught = main_catches n d later masked int_set term_set h in
    (caught.0, caught.1, caught.2, main_times late fuel enough)
