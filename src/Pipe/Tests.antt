-- ===== src/Pipe/Tests.antt =====
-- Runs of the pipe programs against concrete kernels.
use linux_system_programming.Base.{length, ltb, refl, some, arith, ◌==◌, if◌then◌else◌, ◌≡◌, []}
use linux_system_programming.Sys.{done, Kernel, run, Obeys, replay, success}
use linux_system_programming.Pipe.{Call, pipe_basics, child, parent, read, write}
use linux_system_programming.Pipe.Ends.{
  no_pipe, rules, Drained, forked, Closed, pipe_basics_drains, both_close,
}

-- Of the 20 bytes written the reads give 6, 6, 6 and 2, and then the end. Position 3 is the first
-- read; each read is followed by a `show`.
abbrev in_chunks : Kernel Call
in_chunks j (write x bytes) = done (length bytes) []
in_chunks j (read x m) = if ltb j 8 then done 6 [] else if j == 9 then done 2 [] else done 0 []
in_chunks j c = done 0 []

pipe_basics_drains_example :
    Obeys rules no_pipe (run in_chunks 0 (pipe_basics 21)).events
    × Drained
        (replay rules no_pipe (run in_chunks 0 (pipe_basics 21)).events)
        (run in_chunks 0 (pipe_basics 21)).status
unfolding run pipe_basics
pipe_basics_drains_example = pipe_basics_drains 21 in_chunks (omega arith) (ground arith)

-- The child reads 8 and 7 of 15 bytes.
abbrev to_child : Kernel Call
to_child j (read x m) = if j == 1 then done 8 [] else if j == 3 then done 7 [] else done 0 []
to_child j c = done 0 []

both_close_example :
    (Obeys rules (forked 15) (run to_child 0 (child 16)).events
      × Drained
          (replay rules (forked 15) (run to_child 0 (child 16)).events)
          (run to_child 0 (child 16)).status)
    × Obeys rules (forked 15) (run in_chunks 0 parent).events
    × Closed
        (replay rules (forked 15) (run in_chunks 0 parent).events)
        (run in_chunks 0 parent).status
unfolding run child
both_close_example = both_close 16 15 to_child in_chunks (omega arith) (omega arith)

child_status : (run to_child 0 (child 16)).status ≡ some success
unfolding run child
child_status = refl
