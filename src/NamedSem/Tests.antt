-- ===== src/NamedSem/Tests.antt =====
-- Runs of the three processes against concrete kernels, and an interleaving of all three.
use linux_system_programming.Base.{
  false, inl, none, refl, true, arith, ◌==◌, if◌then◌else◌, ◌≡◌, [],
}
use linux_system_programming.Sys.{failed, done, Kernel, run, success}
use linux_system_programming.NamedSem.{Call, joiner, process_1, process_2, process_3}
use linux_system_programming.NamedSem.Discipline.{manager, joining, Managed, Joined, Runs, all_obey}
use linux_system_programming.NamedSem.Together.{
  World, start, Weave, stop, go_1, go_2, go_3, unlink_after_joiners,
}

abbrev willing : Kernel Call
willing i c = done 0 []

-- The first wait is interrupted by a signal, EINTR.
abbrev interrupted : Kernel Call
interrupted i c = if i == 3 then failed 4 else done 0 []

all_obey_example :
    Runs manager Managed interrupted process_1
    × Runs joining Joined interrupted process_2
    × Runs joining Joined interrupted process_3
all_obey_example = all_obey interrupted

interrupted_status : (run interrupted 0 process_1).status ≡ success
unfolding run process_1
interrupted_status = refl

abbrev removing : World
removing = record { named = false; done_cnt = 0; unlinked = true; out_2 = true; out_3 = true }

-- Process 1 up to its first wait on `sem_done_cnt`, both joiners up to their announcement, and
-- Process 1 up to its first `sem_unlink`.
in_order :
    Weave removing
      (start none)
      (run willing 0 process_1).events
      (run willing 0 process_2).events
      (run willing 0 process_3).events
unfolding run process_1 joiner
in_order = go_1 _ _ tt (
    go_1 _ _ tt (
      go_1 _ _ tt (
        go_1 _ _ tt (
          go_1 _ _ tt (
            go_1 _ _ tt (
              go_1 _ _ tt (
                go_1 _ _ tt (
                  go_2 _ _ tt (
                    go_2 _ _ refl (
                      go_2 _ _ tt (
                        go_2 _ _ tt (
                          go_2 _ _ tt (
                            go_2 _ _ tt (
                              go_2 _ _ tt (
                                go_2 _ _ tt (
                                  go_2 _ _ tt (
                                    go_3 _ _ tt (
                                      go_3 _ _ refl (
                                        go_3 _ _ tt (
                                          go_3 _ _ tt (
                                            go_3 _ _ tt (
                                              go_3 _ _ tt (
                                                go_3 _ _ tt (
                                                  go_3 _ _ tt (
                                                    go_3 _ _ tt (
                                                      go_1 _ _ (omega arith) (
                                                        go_1 _ _ (omega arith) (
                                                          go_1 _ _ tt (
                                                            go_1 _ _ tt (
                                                            go_1 _ _ tt (
                                                            go_1 _ _ tt (
                                                            stop
                                                            refl))))))))))))))))))))))))))))))))

unlink_after_joiners_example : (removing.out_2 ≡ true) × (removing.out_3 ≡ true)
unlink_after_joiners_example =
    unlink_after_joiners willing willing willing none removing (inl refl) in_order refl
