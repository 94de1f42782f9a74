-- ===== src/Signals/Timer.antt =====
-- Course_MohanM/9_Signals/9_2_Example_Timer_Interrupt_with_SIGALRM/main.c. Time is in seconds from the first
-- `alarm`.
use linux_system_programming.Base.{
  ℕ, zero, suc, Bool, true, false, Option, none, some, List, arith, ◌==◌, if◌then◌else◌, ◌+◌, ◌*◌,
  ◌≤◌, ◌≡◌, ◌&&◌, [], ◌∷◌,
}
use linux_system_programming.Sys.{Status, success, failure}

abbrev pub t_initial : ℕ
t_initial = 2

abbrev pub t_periodic : ℕ
t_periodic = 1

abbrev pub t_end : ℕ
t_end = 5

-- "Caught SIGALARM, seconds counter: %d" and "Threshold (%d seconds) is reached, exiting..."
pub data Line : Type 0 where
  counted : (counter : ℕ) → Line
  reached : Line

pub record Result : Type 0 where
  pub lines : List Line
  pub ended_at : ℕ
  pub status : Option Status

abbrev pub prints : Line → Result → Result
prints l o = record o { lines = l ∷ o.lines }

-- The `while` loop on fuel: `none` means that it ran out. `alarm_at`: when the alarm is due; the handler of
-- the alarm numbered `n` sets `caught_sigalrm` after a delay of `late n`.
unfoldable pub count_alarms :
    (late : ℕ → ℕ) → (fuel counter alarm_at now : ℕ) → (caught_sigalrm : Bool) → Result
count_alarms late zero counter alarm_at now caught = record {
  lines = [];
  ended_at = now;
  status = none;
}
count_alarms late (suc fuel) counter alarm_at now caught =
    let woken = alarm_at + late counter in
    let rest = count_alarms late fuel (counter + 1) (woken + t_periodic) woken false in
    if caught
    then record { lines = []; ended_at = now; status = some success }
    else prints (counted counter) (
        if counter + 1 == t_end
        then prints reached (record { lines = []; ended_at = woken; status = some success })
        else rest)

-- `masked` and `handled`: `sigprocmask` and `sigaction` did not fail.
unfoldable pub main : (masked handled : Bool) → (late : ℕ → ℕ) → (fuel : ℕ) → Result
unfolding count_alarms
main masked handled late fuel =
    if masked && handled
    then count_alarms late fuel 0 t_initial 0 false
    else record { lines = []; ended_at = 0; status = some failure }

-- With fuel for five turns the program takes exactly five alarms, numbers them from 0 to 4, and ends with
-- EXIT_SUCCESS six seconds after the first call of `alarm` and the delays of the alarms.
pub main_times :
    (late : ℕ → ℕ) (fuel : ℕ)
    → t_end ≤ fuel
    → main true true late fuel ≡ record {
      lines = counted 0 ∷ counted 1 ∷ counted 2 ∷ counted 3 ∷ counted 4 ∷ reached ∷ [];
      ended_at = t_initial + 4 * t_periodic + (late 0 + late 1 + late 2 + late 3 + late 4);
      status = some success;
    }
unfolding main
main_times late zero h = absurd (omega arith)
main_times late (suc zero) h = absurd (omega arith)
main_times late (suc (suc zero)) h = absurd (omega arith)
main_times late (suc (suc (suc zero))) h = absurd (omega arith)
main_times late (suc (suc (suc (suc zero)))) h = absurd (omega arith)
main_times late (suc (suc (suc (suc (suc fuel))))) h = ground arith
