-- ===== src/Files/Tests.antt =====
-- The file programs on concrete inputs.
use linux_system_programming.Files.Read as Read
use linux_system_programming.Files.Read.{main_stores}
use linux_system_programming.Files.{logged, success}
use linux_system_programming.Sys.{done, Kernel, run, replay}
use linux_system_programming.Base.{
  ◌==◌, ltb, zero, suc, length, replicate, All, codes, ℕ, min, refl, true, false, none, some, List,
  arith, if◌then◌else◌, ◌≡◌, ◌≢◌, [], ◌∷◌, ◌++◌,
}
use linux_system_programming.Sys.{Obeys}
use linux_system_programming.Files.Returns.{open_and_dup_return}
use linux_system_programming.Files.Open as Open
use linux_system_programming.Files.Dup as Dup
use linux_system_programming.Files.Dup2 as Dup2
use linux_system_programming.Files.Descriptors.{rules, start, Returned}
use linux_system_programming.Files.{open_file, dup, dup2, logged, Call, write, Libc, success}
use linux_system_programming.Files.Faults.{search_faults}
use linux_system_programming.Files.Write.{write_to_a_file_safer}
use linux_system_programming.Files.Write.Complete.{accepted, Wrote, write_safer_complete}
use linux_system_programming.Files.Replace.{
  main, reads_of, string_target, letter_new, main_replaces,
}

abbrev libc : Libc
libc = record {
  strerror = λ e. codes "error";
  decimal = λ n. if n == 11 then codes "11" else codes "3";
}

-- A kernel whose writes accept two bytes at most.
abbrev by_twos : Kernel Call
by_twos j (write f bs) = done (min 2 (length bs)) []
by_twos j c = done 0 []

abbrev text : List ℕ
text = codes "Hello"

write_safer_complete_example :
    Wrote text
      (replay (accepted 3) [] (run by_twos 0 (write_to_a_file_safer libc 6 3 text)).events)
      (run by_twos 0 (write_to_a_file_safer libc 6 3 text)).status
unfolding run write_to_a_file_safer logged
write_safer_complete_example =
    write_safer_complete libc 3 6 text by_twos (omega arith) (omega arith) (omega arith)

main_replaces_example :
    main true
      (reads_of (codes "By " ++ (string_target ++ codes "!")))
      true
      true
      (codes "By " ++ (string_target ++ codes "!"))
    ≡ some (record {
      code = success;
      file = codes "By " ++ (letter_new ∷ (codes "ohan" ++ codes "!"));
      left_open = false;
    })
main_replaces_example = main_replaces (codes "By ") (codes "!") true (omega arith) (omega arith)

dots-All : (n : ℕ) → All {A = ℕ} (λ c. c ≢ b'R') (replicate n b'.')
dots-All zero = tt
dots-All (suc n) = (omega arith, dots-All n)

search_faults_example :
    (main true (reads_of (codes "By Rxohan")) true true (codes "By Rxohan")
      ≡ some (record { code = success; file = codes "By RMohan"; left_open = false }))
    × (main true
          (reads_of (replicate 250 b'.' ++ (b'x' ∷ [])))
          true
          true
          (replicate 250 b'.' ++ (b'x' ∷ []))
        ≡ none)
search_faults_example =
    search_faults (codes "By ") [] b'x' (replicate 250 b'.') [] b'x' true true (omega arith)
      (omega arith) (omega arith) (dots-All 250) refl

-- `open` gives descriptor 3, `dup` gives 4 and `dup2` what it is asked for.
abbrev three_and_four : Kernel Call
three_and_four j (open_file name) = done 3 []
three_and_four j (dup f) = done 4 []
three_and_four j (dup2 f g) = done 1 []
three_and_four j c = done 0 []

open_and_dup_return_example :
    (Obeys rules start (run three_and_four 0 (Open.main libc)).events
      × Returned
          (1 ∷ 2 ∷ [])
          (replay rules start (run three_and_four 0 (Open.main libc)).events)
          (run three_and_four 0 (Open.main libc)).status)
    × Obeys rules start (run three_and_four 0 (Dup.main libc)).events
    × Returned
        (1 ∷ 2 ∷ [])
        (replay rules start (run three_and_four 0 (Dup.main libc)).events)
        (run three_and_four 0 (Dup.main libc)).status
unfolding run Open.main Dup.main
open_and_dup_return_example =
    open_and_dup_return libc three_and_four three_and_four (ground arith) (ground arith)

-- A file of eleven bytes comes in two pieces.
abbrev eleven : List (List ℕ)
eleven = codes "0123456789" ∷ codes "a" ∷ []

main_stores_example : Read.main libc (some 3) (Read.reads_of eleven) ≡ (
    if ltb Read.size_buf_storage (length (Read.joined eleven))
    then none
    else some (record {
      code = success;
      output =
          codes "Read "
          ++ (libc.decimal 11
              ++ (codes " bytes from fd "
                  ++ (libc.decimal 3 ++ (codes ":\n<" ++ (codes "0123456789a" ++ codes ">\n\n")))));
    }))
unfolding Read.UpToNul
main_stores_example =
    main_stores libc 3 eleven (codes "0123456789a") (ground arith) (ground arith) (omega arith)

-- A file of 31 bytes overruns the buffer.
abbrev thirty_one : List (List ℕ)
thirty_one = codes "0123456789" ∷ codes "0123456789" ∷ codes "0123456789" ∷ codes "!" ∷ []

overrun : Read.main libc (some 3) (Read.reads_of thirty_one) ≡ none
unfolding Read.main Read.store_all Read.after_read
overrun = refl
