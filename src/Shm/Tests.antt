-- ===== src/Shm/Tests.antt =====
-- Runs of the shared-memory programs against concrete kernels.
use linux_system_programming.Sys.{failed, done, Kernel, run}
use linux_system_programming.Base.{
  All, arith, ◌≢◌, ◌∷◌, codes, ℕ, refl, true, false, List, ◌==◌, if◌then◌else◌, ◌≡◌, [],
}
use linux_system_programming.Shm.{Call, load, success, Cleaned, Detached, fresh}
use linux_system_programming.Shm.Writer.{shm_writer, snprintf_s, message_max_len}
use linux_system_programming.Shm.Reader.{shm_reader}
use linux_system_programming.Shm.Plain.{plain_writer, plain_reader, cleaner, left_over}
use linux_system_programming.Shm.Cleanup.{Runs, all_give_back}
use linux_system_programming.Shm.Handshake.{World, start, Trace, Weave, stop, left, right}
use linux_system_programming.Shm.Handshake.Delivery.{reader_sees, writer_waits}

abbrev hello : List ℕ
hello = codes "Hello World"

-- Every call succeeds; descriptors are 3.
abbrev willing : Kernel Call
willing i c = done 3 []

-- The call at position 4 fails: for the writer, the first `sem_init`.
abbrev fifth_fails : Kernel Call
fifth_fails i c = if i == 4 then failed 12 else done 3 []

all_give_back_example :
    Runs Cleaned (fresh true) fifth_fails (shm_writer 320 hello)
    × Runs Detached (fresh false) fifth_fails (shm_reader 320)
    × Runs Detached (fresh true) fifth_fails (plain_writer 2 hello)
    × Runs Detached (fresh false) fifth_fails plain_reader
    × Runs Detached left_over fifth_fails cleaner
all_give_back_example = all_give_back fifth_fails 320 2 hello hello

writer_succeeds : (run willing 0 (shm_writer 320 hello)).status ≡ success
unfolding run shm_writer
writer_succeeds = refl

-- The bytes of the message in the region, which every load gives.
abbrev shown : List ℕ
shown = snprintf_s message_max_len hello

abbrev serving : Kernel Call
serving i load = done 0 shown
serving i c = done 3 []

abbrev writer_calls : Trace
writer_calls = (run serving 0 (shm_writer 320 hello)).events

abbrev reader_calls : Trace
reader_calls = (run serving 0 (shm_reader 320)).events

abbrev final : World
final = record { ready = 0; acks = 0; region = shown; seen = shown ∷ [] }

-- The writer goes up to its wait, the reader runs to its end, and the writer finishes.
in_order : Weave final [] start writer_calls reader_calls
unfolding run shm_writer shm_reader
in_order = left _ _ tt (
    left _ _ tt (
      left _ _ tt (
        left _ _ tt (
          left _ _ tt (
            left _ _ tt (
              left _ _ tt (
                left _ _ refl (
                  left _ _ tt (
                    right _ _ tt (
                      right _ _ tt (
                        right _ _ tt (
                          right _ _ (omega arith) (
                            right _ _ refl (
                              right _ _ tt (
                                right _ _ tt (
                                  left _ _ (omega arith) (
                                    left _ _ tt (
                                      left _ _ tt (
                                        left _ _ tt
                                          (left _ _ tt (stop refl refl)))))))))))))))))))))

reader_sees_example : All (λ bs. bs ≡ snprintf_s message_max_len hello) final.seen
reader_sees_example = reader_sees serving serving 320 hello final [] in_order

writer_waits_example : final.seen ≢ []
unfolding run shm_writer
writer_waits_example = writer_waits serving serving 320 hello final in_order refl
