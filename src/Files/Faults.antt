-- ===== src/Files/Faults.antt =====
-- Two inputs on which 2_5_Exercise_L_seek does what it is not meant to do.
use linux_system_programming.Base.{
  length, All, codes, ℕ, Bool, true, false, none, some, List, ◌+◌, ◌≤◌, ◌≡◌, ◌≢◌, ◌∷◌, ◌++◌,
}
use linux_system_programming.Files.{success}
use linux_system_programming.Files.Replace.{
  main, reads_of, letter_new, size_buf_read, main_scattered, main_overflows,
}

-- A mismatch does not start the search anew: where one other byte stands between "R" and "ohan", that byte is
-- overwritten and SUCCESS is returned, though the file does not hold the target there. And a file with no "R"
-- in its first 250 bytes and with a byte after them makes `read` write outside its buffer.
pub search_faults :
    (pre post : List ℕ) (x : ℕ) (long rest : List ℕ) (b : ℕ) (wrote closed : Bool)
    → All (λ b. b ≢ b'R') pre
    → x ≢ b'o'
    → length pre + 6 ≤ size_buf_read
    → All (λ c. c ≢ b'R') long
    → length long ≡ size_buf_read
    → (main true
          (reads_of (pre ++ (b'R' ∷ (x ∷ (codes "ohan" ++ post)))))
          true
          true
          (pre ++ (b'R' ∷ (x ∷ (codes "ohan" ++ post))))
        ≡ some (record {
          code = success;
          file = pre ++ (b'R' ∷ (letter_new ∷ (codes "ohan" ++ post)));
          left_open = false;
        }))
      × (main true (reads_of (long ++ (b ∷ rest))) wrote closed (long ++ (b ∷ rest)) ≡ none)
search_faults pre post x long rest b wrote closed no_r ne fits no_r' full =
    (main_scattered pre post x no_r ne fits, main_overflows long rest b wrote closed no_r' full)
