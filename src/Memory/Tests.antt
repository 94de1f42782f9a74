-- ===== src/Memory/Tests.antt =====
-- A run of 5_3 whose first `realloc` moves the block and whose second one fails.
use linux_system_programming.Base.{refl, ◌==◌, if◌then◌else◌, ◌≡◌, []}
use linux_system_programming.Sys.{failed, done, Kernel, run, Obeys, replay, failure}
use linux_system_programming.Memory.{Call, calloc, realloc, main}
use linux_system_programming.Memory.Block.{rules, start, Ended, block_is_kept}

abbrev no_shrinking : Kernel Call
no_shrinking i (calloc n) = done 4096 []
no_shrinking i (realloc p n) = if n == 5 then failed 12 else done 8192 []
no_shrinking i c = done 0 []

block_is_kept_example :
    Obeys rules start (run no_shrinking 0 main).events
    × Ended (replay rules start (run no_shrinking 0 main).events) (run no_shrinking 0 main).status
block_is_kept_example = block_is_kept no_shrinking

not_shrunk : (run no_shrinking 0 main).status ≡ failure
unfolding run main
not_shrunk = refl
