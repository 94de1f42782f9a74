-- ===== src/Files/Replace.antt =====
-- Course_MohanM/2_File_Operations/2_5_Exercise_L_seek/main.c: `main` looks for "Rohan" in author.txt,
-- a byte at a time, and writes "M" over the place five bytes back.
use linux_system_programming.Base.{
  suc, refl, length, get_or, set, All, codes, ltb, ℕ, ap, Bool, true, false, not, Option, none,
  some, List, arith, ◌==◌, if◌then◌else◌, ◌+◌, ◌-◌, ◌≤◌, ◌≡◌, ◌∙◌, ◌≢◌, [], ◌∷◌, ◌++◌, set-append,
}
use linux_system_programming.Files.{
  ExitType, success, err_file_open, err_file_close, err_file_read, err_file_write,
}

-- The replies of `read(fd, buf + total_bytes_read, 1)`, in order.
pub data Read : Type 0 where
  byte : ℕ → Read
  eof : Read
  refused : Read

abbrev pub size_buf_read : ℕ
size_buf_read = 250

-- STRING_TARGET and LETTER_NEW
abbrev pub string_target : List ℕ
string_target = codes "Rohan"

abbrev pub letter_new : ℕ
letter_new = b'M'

-- How the `for (;;)` ends: `found n` after `n` bytes, at the end of the file, with a read error, or
-- with a byte that `read` puts outside `buf_read_bytes`. `reading`: the replies given are used up.
pub data Scan : Type 0 where
  found : (offset : ℕ) → Scan
  missing read_error out_of_bounds reading : Scan

-- `total` stays below 250, so the uint8_t `total_bytes_read` does not wrap.
unfoldable pub scan : List Read → (target_iterator total : ℕ) → Scan
scan [] it total = reading
scan (refused ∷ rs) it total = read_error
scan (eof ∷ rs) it total = missing
scan (byte b ∷ rs) it total =
    let matched = scan rs (it + 1) (total + 1) in
    let other = scan rs it (total + 1) in
    if not (ltb total size_buf_read)
    then out_of_bounds
    else if b == get_or string_target it 0
    then (if it + 1 == length string_target then found (total + 1) else matched)
    else other

-- What `main` leaves: its code, the file, and whether the descriptor is still open. `none`: it has
-- not returned, or has written outside its buffer.
pub record Result : Type 0 where
  pub code : ExitType
  pub file : List ℕ
  pub left_open : Bool

-- `opened`, `wrote`, `closed`: the call did not fail.
unfoldable pub after_scan : Scan → (wrote closed : Bool) → List ℕ → Option Result
after_scan (found n) wrote closed file =
    if wrote
    then some (record {
      code = if closed then success else err_file_close;
      file = set file (n - length string_target) letter_new;
      left_open = false;
    })
    else some (record { code = err_file_write; file = file; left_open = true })
after_scan missing wrote closed file =
    some
      (record { code = if closed then success else err_file_close; file = file; left_open = false })
after_scan read_error wrote closed file =
    some (record { code = err_file_read; file = file; left_open = true })
after_scan out_of_bounds wrote closed file = none
after_scan reading wrote closed file = none

unfoldable pub main : (opened : Bool) → List Read → (wrote closed : Bool) → List ℕ → Option Result
unfolding scan after_scan
main opened reads wrote closed file =
    if opened
    then after_scan (scan reads 0 0) wrote closed file
    else some (record { code = err_file_open; file = file; left_open = false })

-- The replies for a regular file that nobody else writes to.
abbrev pub reads_of : List ℕ → List Read
reads_of [] = eof ∷ []
reads_of (b ∷ bs) = byte b ∷ reads_of bs

abbrev done_with : Bool → List ℕ → Option Result
done_with closed file =
    some
      (record { code = if closed then success else err_file_close; file = file; left_open = false })

-- Bytes that the target does not begin with are skipped.
scan-skip :
    (pre rest : List ℕ) (total : ℕ)
    → All (λ b. b ≢ b'R') pre
    → total + length pre ≤ size_buf_read
    → scan (reads_of (pre ++ rest)) 0 total ≡ scan (reads_of rest) 0 (total + length pre)
unfolding scan
scan-skip [] rest total h fits = ap (λ n. scan (reads_of rest) 0 n) (omega arith)
scan-skip (b ∷ pre) rest total h fits =
    skipped
    ∙ scan-skip pre rest (total + 1) h.1 (omega arith)
    ∙ ap (λ n. scan (reads_of rest) 0 n) (omega arith)
  where
    skipped :
        scan (reads_of (b ∷ (pre ++ rest))) 0 total ≡ scan (reads_of (pre ++ rest)) 0 (total + 1)
    skipped = ground (arith, h.0)

scan-target :
    (post : List ℕ) (total : ℕ)
    → total + 5 ≤ size_buf_read
    → scan (reads_of (string_target ++ post)) 0 total ≡ found (total + 5)
unfolding scan
scan-target post total fits = ground arith

scan-split :
    (x : ℕ) (post : List ℕ) (total : ℕ)
    → x ≢ b'o'
    → total + 6 ≤ size_buf_read
    → scan (reads_of (b'R' ∷ x ∷ (codes "ohan" ++ post))) 0 total ≡ found (total + 6)
unfolding scan
scan-split x post total ne fits = ground arith

set_second :
    (xs : List ℕ) (y z v : ℕ) (ys : List ℕ)
    → set (xs ++ (y ∷ (z ∷ ys))) (length xs + 1) v ≡ xs ++ (y ∷ (v ∷ ys))
set_second [] y z v ys = refl
set_second (x ∷ xs) y z v ys = rw later (ap (λ t. x ∷ t) (set_second xs y z v ys))
  where
    later : length (x ∷ xs) + 1 ≡ suc (length xs + 1)
    later = omega arith

scan-full : (b : ℕ) (rest : List ℕ) → scan (reads_of (b ∷ rest)) 0 size_buf_read ≡ out_of_bounds
unfolding scan
scan-full b rest = refl

-- Where the target begins at the first "R" and lies within the first 250 bytes, its "R" becomes "M",
-- nothing else changes, and the code tells whether the descriptor could be closed.
pub main_replaces :
    (pre post : List ℕ) (closed : Bool)
    → All (λ b. b ≢ b'R') pre
    → length pre + 5 ≤ size_buf_read
    → main true
        (reads_of (pre ++ (string_target ++ post)))
        true
        closed
        (pre ++ (string_target ++ post))
      ≡ some (record {
        code = if closed then success else err_file_close;
        file = pre ++ (letter_new ∷ (codes "ohan" ++ post));
        left_open = false;
      })
unfolding main
main_replaces pre post closed no_r fits = rw ends (
    ap (done_with closed) (
      ap (λ i. set (pre ++ (string_target ++ post)) i letter_new) (omega arith)
      ∙ set-append pre b'R' letter_new (codes "ohan" ++ post)))
  where
    ends : scan (reads_of (pre ++ (string_target ++ post))) 0 0 ≡ found (length pre + 5)
    ends =
        scan-skip pre (string_target ++ post) 0 no_r (omega arith)
        ∙ scan-target post (0 + length pre) (omega arith)
        ∙ ap found (omega arith)

-- A mismatch does not start the search anew: where one other byte stands between "R" and "ohan", that
-- byte is overwritten and SUCCESS is returned, though the file does not hold the target there.
pub main_scattered :
    (pre post : List ℕ) (x : ℕ)
    → All (λ b. b ≢ b'R') pre
    → x ≢ b'o'
    → length pre + 6 ≤ size_buf_read
    → let file = pre ++ (b'R' ∷ (x ∷ (codes "ohan" ++ post))) in
      main true (reads_of file) true true file
      ≡ some (record {
        code = success;
        file = pre ++ (b'R' ∷ (letter_new ∷ (codes "ohan" ++ post)));
        left_open = false;
      })
unfolding main
main_scattered pre post x no_r ne fits =
    rw ends
      (ap (done_with true) (at_split ∙ set_second pre b'R' x letter_new (codes "ohan" ++ post)))
  where
    split : List ℕ
    split = b'R' ∷ (x ∷ (codes "ohan" ++ post))

    at_split :
        set (pre ++ split) (length pre + 6 - 5) letter_new
        ≡ set (pre ++ split) (length pre + 1) letter_new
    at_split = ap (λ i. set (pre ++ split) i letter_new) (omega arith)

    ends : scan (reads_of (pre ++ split)) 0 0 ≡ found (length pre + 6)
    ends =
        scan-skip pre split 0 no_r (omega arith)
        ∙ scan-split x post (0 + length pre) ne (omega arith)
        ∙ ap found (omega arith)

-- A file with no "R" in its first 250 bytes and with a byte after them makes `read` write outside
-- its buffer.
pub main_overflows :
    (pre rest : List ℕ) (b : ℕ) (wrote closed : Bool)
    → All (λ c. c ≢ b'R') pre
    → length pre ≡ size_buf_read
    → main true (reads_of (pre ++ (b ∷ rest))) wrote closed (pre ++ (b ∷ rest)) ≡ none
unfolding main
main_overflows pre rest b wrote closed no_r full = rw ends
  where
    ends : scan (reads_of (pre ++ (b ∷ rest))) 0 0 ≡ out_of_bounds
    ends =
        scan-skip pre (b ∷ rest) 0 no_r (omega arith)
        ∙ ap (λ n. scan (reads_of (b ∷ rest)) 0 n) {y = size_buf_read} (omega arith)
        ∙ scan-full b rest
