-- ===== src/Signals/Tests.antt =====
-- Runs of the programs of Course_MohanM/9_Signals.
use linux_system_programming.Base.{refl, true, false, none, some, ◌≡◌, ◌⊎◌, [], ◌∷◌, arith}
use linux_system_programming.Signals.Printer.{printer, helpers_write}
use linux_system_programming.Signals.Catch.{sigint, both, sigterm, continuing, exiting, ends}
use linux_system_programming.Signals.Timer.{counted, reached}
use linux_system_programming.Signals.Catch
use linux_system_programming.Signals.Timer
use linux_system_programming.Files.{logged}
use linux_system_programming.Signals.Endings.{loops_end}
use linux_system_programming.Sys.{success, failure}

helpers_write_example :
    (logged 4 (97 ∷ 98 ∷ 99 ∷ 100 ∷ []) ≡ 97 ∷ 98 ∷ 99 ∷ 0 ∷ [])
    × (printer 4 (97 ∷ 98 ∷ 99 ∷ 100 ∷ []) ≡ (97 ∷ 98 ∷ 99 ∷ 0 ∷ []) ∷ ((10 ∷ []) ∷ []))
helpers_write_example = helpers_write 4 97 (98 ∷ 99 ∷ 100 ∷ []) (omega arith)

loops_end_example :
    (Catch.main true true true (sigint ∷ sigint ∷ [])
      ≡ record { lines = continuing ∷ continuing ∷ []; status = none })
    × (Catch.main true true true (sigint ∷ sigint ∷ both ∷ sigterm ∷ []) ≡ record {
      lines = continuing ∷ continuing ∷ continuing ∷ exiting ∷ [];
      status = some success;
    })
    × ((false ≡ true)
        ⊎ (Catch.main true true false (sigint ∷ sigint ∷ both ∷ sigterm ∷ []) ≡ ends failure))
    × (Timer.main true true (λ n. 0) 9 ≡ record {
      lines = counted 0 ∷ counted 1 ∷ counted 2 ∷ counted 3 ∷ counted 4 ∷ reached ∷ [];
      ended_at = 6;
      status = some success;
    })
loops_end_example = loops_end 2 both (sigterm ∷ []) true true false (λ n. 0) 9 refl (omega arith)
