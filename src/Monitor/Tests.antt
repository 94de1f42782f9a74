-- ===== src/Monitor/Tests.antt =====
-- Runs of the programs that wait for children.
use linux_system_programming.Base.{
  refl, true, false, some, arith, ◌==◌, if◌then◌else◌, ◌≡◌, [], ◌∷◌,
}
use linux_system_programming.Sys.{failed, done, Kernel, run}
use linux_system_programming.Monitor.{
  Call, fork, wait, watch, waitpid, code, multiple_processes, specific_children, wnohang_example,
}
use linux_system_programming.Monitor.Children.{start}
use linux_system_programming.Monitor.Reaping.{Run}
use linux_system_programming.Monitor.Watching.{children_collected}

-- The children are 11 and 12; the first watch finds none that has ended.
abbrev parenting : Kernel Call
parenting i fork = if i == 0 then done 11 [] else done 12 []
parenting i wait = if i == 2 then done 12 (256 ∷ []) else done 11 (0 ∷ [])
parenting i (waitpid pid wnohang) = done pid (0 ∷ [])
parenting i watch =
    if i == 2 then done 0 [] else if i == 5 then done 12 (256 ∷ []) else done 11 (512 ∷ [])
parenting i c = done 0 []

children_collected_example :
    Run false 0 1 2 (start 0) parenting multiple_processes
    × Run true 0 0 1 (start 1) parenting (specific_children 6 1 false)
    × Run true 0 2 1 (start 1) parenting (wnohang_example 3)
unfolding run multiple_processes specific_children wnohang_example
children_collected_example =
    children_collected parenting parenting parenting 3 1 6 1 false (omega arith) (ground arith)
      (ground arith) (ground arith)

all_collected : (run parenting 0 (wnohang_example 3)).status ≡ some (code 0)
unfolding run wnohang_example
all_collected = refl

-- The second `fork` of 7_3 fails: the parent ends as its second child would.
abbrev one_fork : Kernel Call
one_fork i fork = if i == 0 then done 11 [] else failed 11
one_fork i c = done 0 []

fallen : (run one_fork 0 (specific_children 6 1 false)).status ≡ some (code 1)
unfolding run specific_children
fallen = refl
