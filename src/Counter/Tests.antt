-- ===== src/Counter/Tests.antt =====
-- A run in which two threads are in the section at once.
use mathlib.Core.List.{append_assoc}
use linux_system_programming.Counter.Tally.{tally}
use linux_system_programming.Counter.Invariant.{inside, holds}
use linux_system_programming.Base.{
  ◌⊎◌, ◌+◌, ◌≤◌, ℕ, zero, suc, refl, sym, true, Option, none, some, List, ◌≡◌, ◌∙◌, [], ◌∷◌, ◌++◌,
}
use linux_system_programming.Counter.{
  Pc, counting, wait_sem, Shared, System, init, Reach, start, later, main_runs, thread_runs,
  main_step, thread_step,
}
use linux_system_programming.Counter.Result.{printed_value, counts_all}

pub record Run : Type 0 where
  last : System
  reach : Reach last

-- `main` runs once.
by_main : Run → Run
unfolding main_step
by_main r = go (main_step true r.last r.last.main) refl
  where
    go : (o : Option System) → main_step true r.last r.last.main ≡ o → Run
    go none e = r
    go (some t) e = record { last = t; reach = later r.reach (main_runs true e) }

-- The thread at place `i` runs once.
by_thread : Run → ℕ → Run
unfolding thread_step
by_thread r i = split [] r.last.threads i refl
  where
    go :
        (before after : List Pc) (q : Pc) (here : r.last.threads ≡ before ++ (q ∷ after))
        (o : Option (Shared × Pc))
        → thread_step true r.last.shared q ≡ o
        → Run
    go before after q here none e = r
    go before after q here (some (m, p)) e = record {
      last = _;
      reach = later r.reach (thread_runs true before after q here e);
    }

    split : (before after : List Pc) → ℕ → r.last.threads ≡ before ++ after → Run
    split before [] i here = r
    split before (q ∷ after) zero here =
        go before after q here (thread_step true r.last.shared q) refl
    split before (q ∷ after) (suc i) here =
        split (before ++ (q ∷ [])) after i (here ∙ sym (append_assoc before (q ∷ []) after))

repeat : ℕ → (Run → Run) → Run → Run
repeat zero f r = r
repeat (suc n) f r = repeat n f (f r)

abbrev created : Run
created = repeat 4 by_main (record { last = init; reach = start })

abbrev two_inside : Run
two_inside = by_thread (by_thread created 0) 1

abbrev finished : Run
finished = repeat 4 by_main (
    repeat 7 (λ r. by_thread r 2)
      (repeat 6 (λ r. by_thread r 1) (repeat 6 (λ r. by_thread r 0) two_inside)))

in_section : two_inside.last.threads ≡ counting ∷ counting ∷ wait_sem ∷ []
unfolding repeat by_main by_thread
in_section = refl

counts_all_example :
    ((printed_value finished.last.main ≡ none) ⊎ (printed_value finished.last.main ≡ some 3000000))
    × (tally holds finished.last.threads ≤ 1)
    × (tally inside finished.last.threads ≤ 2 + finished.last.shared.refused)
counts_all_example = counts_all finished.last finished.reach
