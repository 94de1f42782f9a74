-- ===== src/Counter/Result.antt =====
-- What `main` prints, and how many threads are in the section.
use linux_system_programming.Base.{
  refl, ap, inl, inr, Option, none, some, ◌⊎◌, ℕ, Bool, true, false, arith, ◌+◌, ◌*◌, ◌≤◌, ◌≡◌,
}
use linux_system_programming.Counter.{MainPc, System, Reach, printed, loop_count, sval_initial}
use linux_system_programming.Counter.Invariant.{bit, Stage, inside, holds}
use linux_system_programming.Counter.Tally.{tally}
use linux_system_programming.Counter.Main.{Reach-Inv}
use mathlib.Core.Path.{subst}

-- However the threads interleave and whatever calls of `sem_wait` and `sem_post` fail, no update of
-- `glob` is lost: when `main` prints `glob`, it is 3000000.
glob_lem : (s : System) (g : ℕ) → Reach s → s.main ≡ printed g → g ≡ 3 * loop_count
glob_lem s g r e = subst (Stage s.threads) e (Reach-Inv r).stage

holds-le : (b : Bool) {n : ℕ} → n ≡ bit b → n ≤ 1
holds-le true h = omega (arith, h)
holds-le false h = omega (arith, h)

-- In every reachable state at most one thread is between lock and unlock, and at most SVAL_INITIAL
-- threads are between `sem_wait` and `sem_post`, but for one more with each `sem_wait` that failed.
section_bound :
    (s : System)
    → Reach s
    → (tally holds s.threads ≤ 1) × (tally inside s.threads ≤ sval_initial + s.shared.refused)
section_bound s r =
    let inv = Reach-Inv r in (holds-le s.shared.mutex inv.excluded, omega (arith, inv.counted))

abbrev pub printed_value : MainPc → Option ℕ
printed_value (printed g) = some g
printed_value p = none

printed_total :
    (s : System) (pc : MainPc)
    → ((g : ℕ) → pc ≡ printed g → g ≡ 3 * loop_count)
    → (printed_value pc ≡ none) ⊎ (printed_value pc ≡ some (3 * loop_count))
printed_total s (printed g) h = inr (ap some (h g refl))
printed_total s pc h = inl refl

-- However the threads interleave and whatever calls of `sem_wait` and `sem_post` fail: no update of `glob` is
-- lost, `main` prints 3000000 if it prints; at most one thread is between lock and unlock; and at most
-- SVAL_INITIAL threads are between `sem_wait` and `sem_post`, but for one more with each `sem_wait` that failed.
pub counts_all :
    (s : System)
    → Reach s
    → ((printed_value s.main ≡ none) ⊎ (printed_value s.main ≡ some (3 * loop_count)))
      × (tally holds s.threads ≤ 1)
      × (tally inside s.threads ≤ sval_initial + s.shared.refused)
counts_all s r =
    (printed_total s s.main (λ g e. glob_lem s g r e), (section_bound s r).0, (section_bound s r).1)
