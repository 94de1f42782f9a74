-- ===== src/Monitor/Watching.antt =====
-- 7_5: the loop on `waitpid(-1, &status, WNOHANG)` comes to an end.
use linux_system_programming.Base.{
  length, List, [], Bool, false, ◌≡◌, ℕ, zero, suc, refl, inl, inr, true, arith, ◌+◌, ◌-◌, ◌≤◌,
}
use linux_system_programming.Sys.{failed, done, SafeIf, SafeIf-run, Fair, Kernel, run}
use linux_system_programming.Monitor.{
  Call, watch_children, wnohang_example, multiple_processes, specific_children, falls_through,
}
use linux_system_programming.Monitor.Children.{
  start, rules, Possible, Ended, length-nil, length-remove, remove,
}
use linux_system_programming.Monitor.Reaping.{waiting, Run, parents_collect, left_by}

watch-Ended :
    (fuel count idle : ℕ) (made children : List ℕ)
    → length made ≡ 2
    → length children ≡ count
    → count + idle ≤ fuel
    → SafeIf rules Possible
        (Ended true 0 2 1)
        (waiting idle made children [])
        (watch_children fuel count)
unfolding watch_children
watch-Ended fuel zero idle made children two same enough =
    inr (inr (inl (refl, refl, two, length-nil children same, omega (arith, same))))
watch-Ended zero (suc count) idle made children two same enough = absurd (omega arith)
watch-Ended (suc fuel) (suc count) idle made children two same enough = (
  (refl, omega (arith, same)),
  elim [
    | failed e ↦ λ _. (tt, λ _ _. (refl, refl))
    | done zero bs ↦ λ q. (
      tt,
      λ _ _. (
        tt,
        λ _ _. watch-Ended fuel (suc count) (idle - 1) made children two same (omega (arith, q)),
      ),
    )
    | done (suc pid) bs ↦ λ q. (
      tt,
      λ _ _.
          let one_less = length-remove (suc pid) children q in
          watch-Ended fuel count idle made (remove (suc pid) children) two
            (omega (arith, one_less, same)) (omega arith),
    )
  ],
)

example-Ended :
    (fuel idle : ℕ)
    → 2 + idle ≤ fuel
    → SafeIf rules Possible (Ended true 0 2 1) (start idle) (wnohang_example fuel)
unfolding wnohang_example falls_through
example-Ended fuel idle enough = (
  tt,
  elim [
    | failed e ↦ λ _. (tt, λ _ _. (refl, refl))
    | done zero bs ↦ λ _. (tt, λ _ _. inl (refl, refl))
    | done (suc pid_1) bs ↦ λ _. (
      tt,
      elim [
        | failed e ↦
            λ _. (tt, λ _ _. (tt, λ _ _. inr (inr (inr (refl, refl, refl, refl, refl, refl)))))
        | done zero bs ↦ λ _. (tt, λ _ _. inr (inl (refl, refl)))
        | done (suc pid_2) bs ↦ λ _. watch-Ended fuel 2 idle _ _ refl refl enough
      ],
    )
  ],
)

-- Against kernels that reply as documented and say at most `idle` times that no child has ended, fuel for
-- `idle` turns and two more is enough for 7_5: it comes to a result, and waits only while it has a child that it
-- has not collected. A parent that returns 0 has made two children and collected both. The code -1 comes only
-- from the parent, after a failed `fork` or wait. The first child ends with 2, the second with 1; but 1 is also
-- the code of a parent whose second `fork` failed, which leaves its first child uncollected.
watch_ends :
    (fuel idle : ℕ) (k : Kernel Call)
    → 2 + idle ≤ fuel
    → Fair rules Possible (start idle) (run k 0 (wnohang_example fuel)).events
    → Run true 0 2 1 (start idle) k (wnohang_example fuel)
watch_ends fuel idle k enough fair =
    SafeIf-run rules Possible (Ended true 0 2 1) k 0 (start idle) (wnohang_example fuel) fair
      (example-Ended fuel idle enough)

-- Against kernels that reply as documented and say at most `idle` times that no child has ended, each of 7_2, 7_3,
-- 7_4 and 7_5 comes to a result, 7_5 with fuel for `idle` turns and two more. A process waits only when it is a
-- parent, and for a child that it has not collected. A parent that returns 0 has made two children and collected
-- both, but in 7_4 those of which its `waitpid` said that they were active. The code -1 comes only from the parent,
-- after a failed `fork` or wait. The first child ends with the first code of its program and the second child with
-- the second one: 1 and 2 in 7_2, 0 and 1 in 7_3 and 7_4, 2 and 1 in 7_5. But in 7_3, 7_4 and 7_5 the second code is
-- also that of a parent whose second `fork` failed, which leaves its first child uncollected.
pub children_collected :
    (k l m : Kernel Call) (fuel idle seconds_1 seconds_2 : ℕ) (wnohang : Bool)
    → 2 + idle ≤ fuel
    → Fair rules Possible (start 0) (run k 0 multiple_processes).events
    → Fair rules Possible
        (start idle)
        (run l 0 (specific_children seconds_1 seconds_2 wnohang)).events
    → Fair rules Possible (start idle) (run m 0 (wnohang_example fuel)).events
    → Run false 0 1 2 (start 0) k multiple_processes
      × Run true
          (left_by wnohang)
          0
          1
          (start idle)
          l
          (specific_children seconds_1 seconds_2 wnohang)
      × Run true 0 2 1 (start idle) m (wnohang_example fuel)
children_collected k l m fuel idle seconds_1 seconds_2 wnohang enough fair fair' fair'' =
    let two = parents_collect k l idle seconds_1 seconds_2 wnohang fair fair' in
    (two.0, two.1, watch_ends fuel idle m enough fair'')
