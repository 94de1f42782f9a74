-- ===== src/OpenFile/Tests.antt =====
-- Runs of 2_4_Lseek and 7_9 against concrete kernels.
use linux_system_programming.Base.{
  List, refl, true, false, some, ◌≡◌, ◌⊎◌, ◌++◌, length, codes, arith, ◌==◌, if◌then◌else◌, [],
}
use linux_system_programming.OpenFile.Inherit.Together.{
  World, beginning, Weave, stop, by_parent, by_child, accepted,
}
use linux_system_programming.OpenFile.Inherit.Append.{child_appends}
use linux_system_programming.OpenFile.Inherit as Inherit
use linux_system_programming.OpenFile.Inherit.Shared as Shared
use linux_system_programming.Sys.{Reply, done, Kernel, run, Obeys, replay}
use linux_system_programming.Files.{Libc, logged}
use linux_system_programming.OpenFile.{fork, Call, open_file, lseek, read, write}
use linux_system_programming.OpenFile.Seek as Seek
use linux_system_programming.OpenFile.Seek.Effect as Effect
use linux_system_programming.OpenFile.Seek.Effect.{Sought}
use linux_system_programming.OpenFile.Seek.Final.{main_seeks}
use linux_system_programming.OpenFile.Inherit as Inherit
use linux_system_programming.OpenFile.Inherit.Shared as Shared

abbrev libc : Libc
libc = record { strerror = λ e. codes "error"; decimal = λ n. codes "0" }

-- Replies for 2_4 when every call does all that it can. Each `lseek` and `read` is followed by a `log`.
abbrev obliging : Kernel Call
obliging i (open_file name) = done 3 []
obliging i (lseek n w) =
    if i == 1
    then done 0 []
    else if i == 4
    then done 19 []
    else if i == 6
    then done 2 []
    else if i == 9
    then done 10 []
    else if i == 13
    then done 19 []
    else if i == 16
    then done 30 []
    else done 0 []
obliging i (read n) =
    if n == 10 then done 9 (codes "011121314") else done 19 (codes "1200567891011121314")
obliging i (write bytes) = done (length bytes) []
obliging i c = done 0 []

main_seeks_example :
    Obeys Effect.rules Effect.start (run obliging 0 (Seek.main libc)).events
    × Sought libc
        (replay Effect.rules Effect.start (run obliging 0 (Seek.main libc)).events)
        (run obliging 0 (Seek.main libc)).status
unfolding run Seek.main logged
main_seeks_example = main_seeks libc obliging (ground arith)

left_in_file :
    (replay Effect.rules Effect.start (run obliging 0 (Seek.main libc)).events).file.content
    ≡ codes "1200567891011121314tabbed text"
unfolding run Seek.main logged
left_in_file = refl

-- `open` gives descriptor 3, `fork` gives 7, and every `write` accepts all bytes.
abbrev forking : Kernel Call
forking i (open_file name) = done 3 []
forking i (write bytes) = done (length bytes) []
forking i fork = done 7 []
forking i c = done 0 []

abbrev no_calls : List (Call × Reply)
no_calls = []

abbrev end : World
end = record {
  parent = record {
    begun = true;
    is_open = false;
    written = some 21;
    forked = true;
    waited = true;
  };
  child = record {
    begun = true;
    is_open = false;
    written = some 20;
    forked = false;
    waited = false;
  };
  file = record { content = codes "Parent is writing...\nChild is writing...\n"; offset = 41 };
}

-- The child wakes up after the parent has closed its descriptor.
in_order :
    Weave end [] beginning
      (run forking 0 (Inherit.main libc)).events
      (run forking 0 (Inherit.child libc)).events
unfolding run Inherit.main Inherit.child
in_order = by_parent _ _ tt (
    by_parent _ _ tt (
      by_parent _ _ tt (
        by_child _ _ refl (
          by_parent _ _ tt
            (by_child _ _ refl (by_child _ _ refl (by_parent _ _ refl (stop refl refl))))))))

child_appends_example :
    (end.file.content
      ≡ accepted Inherit.parent_text (some 21) ++ accepted Inherit.child_text (some 20))
    × (end.file.offset ≡ length end.file.content)
    × ((end.parent.waited ≡ false) ⊎ (no_calls ≡ []))
    × Shared.ParentEnded
        (replay
          (Shared.rules Inherit.parent_text)
          Shared.start
          (run forking 0 (Inherit.main libc)).events)
        (run forking 0 (Inherit.main libc)).status
    × Shared.ChildEnded
        (replay
          (Shared.rules Inherit.child_text)
          Shared.inherited
          (run forking 0 (Inherit.child libc)).events)
        (run forking 0 (Inherit.child libc)).status
    × Obeys
        (Shared.rules Inherit.parent_text)
        Shared.start
        (run forking 0 (Inherit.main libc)).events
    × Obeys
        (Shared.rules Inherit.child_text)
        Shared.inherited
        (run forking 0 (Inherit.child libc)).events
unfolding run Inherit.main Inherit.child
child_appends_example =
    child_appends libc forking forking end [] (ground arith) (ground arith) in_order
