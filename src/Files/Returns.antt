-- ===== src/Files/Returns.antt =====
-- What the programs 2_1 and 2_6_Dup return.
use linux_system_programming.Base.{[], ◌∷◌}
use linux_system_programming.Sys.{Kernel, run, Fair, Obeys, replay}
use linux_system_programming.Files.{Call, Libc}
use linux_system_programming.Files.Open as Open
use linux_system_programming.Files.Dup as Dup
use linux_system_programming.Files.Open.{open_returns}
use linux_system_programming.Files.Dup.{dup_returns}
use linux_system_programming.Files.Descriptors.{rules, start, Possible, Returned}

-- Whatever calls fail, 2_1 and 2_6_Dup use only open descriptors, but for the -1 of a failed `dup`, and
-- return one of three codes: SUCCESS with their descriptors closed again when `open`, `dup` and every
-- `close` succeeded, ERR_FILE_OPEN when `open` failed and ERR_FILE_CLOSE when a `close` failed.
pub open_and_dup_return :
    (c : Libc) (k l : Kernel Call)
    → Fair rules Possible start (run k 0 (Open.main c)).events
    → Fair rules Possible start (run l 0 (Dup.main c)).events
    → (Obeys rules start (run k 0 (Open.main c)).events
        × Returned
            (1 ∷ 2 ∷ [])
            (replay rules start (run k 0 (Open.main c)).events)
            (run k 0 (Open.main c)).status)
      × Obeys rules start (run l 0 (Dup.main c)).events
      × Returned
          (1 ∷ 2 ∷ [])
          (replay rules start (run l 0 (Dup.main c)).events)
          (run l 0 (Dup.main c)).status
open_and_dup_return c k l fair fair' =
    (open_returns c k fair, (dup_returns c l fair').0, (dup_returns c l fair').1)
