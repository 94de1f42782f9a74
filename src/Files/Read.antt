-- ===== src/Files/Read.antt =====
-- Course_MohanM/2_File_Operations/2_2_Reading_a_File/main.c: `main` reads input.txt into `buf_storage`, at
-- most ten bytes at a time, and prints what it has.
use linux_system_programming.Base.{
  sym, ◌<◌, length-append, ap, true, ◌∙◌, Bool-cases, length, All, codes, ltb, ℕ, refl, inl, inr,
  false, Option, none, some, List, arith, if◌then◌else◌, ◌+◌, ◌≤◌, ◌≡◌, ◌≢◌, [], ◌∷◌, ◌++◌,
}
use mathlib.Core.List.{append_assoc, append-nil}
use linux_system_programming.Files.{ExitType, success, err_file_open, err_file_read, Libc, logged}
use linux_system_programming.Files.Log.{logged_whole}
use linux_system_programming.Fifo.{c_string}

-- The replies of `read(fd, buf_storage + total_bytes_read, BYTES_TO_READ_AT_ONCE)`, in order. No bytes: the
-- end of the file.
pub data Read : Type 0 where
  bytes : List ℕ → Read
  refused : Read

abbrev pub size_buf_storage : ℕ
size_buf_storage = 30

-- How the `for (;;)` ends: at the end of the file, with a read error, or with bytes that `read` puts
-- outside `buf_storage`. `reading`: the replies given are used up.
pub data Storage : Type 0 where
  at_end : (buf_storage : List ℕ) → Storage
  read_error out_of_bounds reading : Storage

-- The length of what is stored is `total_bytes_read`. It stays below 31, so the uint8_t does not wrap.
unfoldable pub store_all : List Read → (buf_storage : List ℕ) → Storage
store_all [] buf = reading
store_all (refused ∷ rs) buf = read_error
store_all (bytes [] ∷ rs) buf = at_end buf
store_all (bytes (b ∷ bs) ∷ rs) buf =
    let rest = store_all rs (buf ++ (b ∷ bs)) in
    if ltb size_buf_storage (length buf + length (b ∷ bs)) then out_of_bounds else rest

-- The text that `snprintf` prints for the descriptor `f`
unfoldable pub report : Libc → (f : ℕ) → (buf_storage : List ℕ) → List ℕ
report c f buf =
    codes "Read "
    ++ (c.decimal (length buf)
        ++ (codes " bytes from fd "
            ++ (c.decimal f ++ (codes ":\n<" ++ (c_string buf ++ codes ">\n\n")))))

-- The code that `main` returns, and what it has written to its standard output.
pub record Result : Type 0 where
  pub code : ExitType
  pub output : List ℕ

-- `none`: it has not returned, or has written outside its buffer. The result of the last
-- `close_file_safer` is not used.
unfoldable pub after_read : Libc → (f : ℕ) → Storage → Option Result
after_read c f (at_end buf) = some (record { code = success; output = logged 100 (report c f buf) })
after_read c f read_error = some (record { code = err_file_read; output = [] })
after_read c f out_of_bounds = none
after_read c f reading = none

-- `opened`: the descriptor that `open` gave, if it did not fail.
unfoldable pub main : Libc → (opened : Option ℕ) → List Read → Option Result
unfolding store_all after_read
main c none reads = some (record { code = err_file_open; output = [] })
main c (some f) reads = after_read c f (store_all reads [])

-- The replies for a file that comes in these pieces, and the file.
abbrev pub reads_of : List (List ℕ) → List Read
reads_of [] = bytes [] ∷ []
reads_of (piece ∷ pieces) = bytes piece ∷ reads_of pieces

abbrev pub joined : List (List ℕ) → List ℕ
joined [] = []
joined (piece ∷ pieces) = piece ++ joined pieces

-- What the loop has to come to.
abbrev stored : List ℕ → Storage
stored all = if ltb size_buf_storage (length all) then out_of_bounds else at_end all

store_all-stored :
    (pieces : List (List ℕ)) (buf : List ℕ)
    → All (λ piece. piece ≢ []) pieces
    → length buf ≤ size_buf_storage
    → store_all (reads_of pieces) buf ≡ stored (buf ++ joined pieces)
unfolding store_all
store_all-stored [] buf h fits =
    let inside : ltb size_buf_storage (length buf) ≡ false = ground arith in
    rw (append-nil buf) (rw (inside) refl)
store_all-stored ([] ∷ pieces) buf h fits = absurd (h.0 refl)
store_all-stored ((b ∷ bs) ∷ pieces) buf h fits =
    elim (Bool-cases (ltb size_buf_storage (length buf + length (b ∷ bs)))) [
      | inl over ↦
          let l = length-append buf ((b ∷ bs) ++ joined pieces) in
          let l' = length-append (b ∷ bs) (joined pieces) in
          let too_long : ltb size_buf_storage (length (buf ++ ((b ∷ bs) ++ joined pieces))) ≡ true =
            ground (arith, l, l', over) in
          rw (over) (rw (too_long) refl)
      | inr within ↦
          let l = length-append buf (b ∷ bs) in
          rw (within) (
            store_all-stored pieces (buf ++ (b ∷ bs)) h.1 (ground (arith, l, within))
            ∙ ap stored (append_assoc buf (b ∷ bs) (joined pieces)))
    ]

-- `text` is what stands in `bytes` before the first NUL, or all of it without one.
unfoldable pub UpToNul : (bytes text : List ℕ) → Type 0
UpToNul [] t = t ≡ []
UpToNul (b ∷ bs) [] = b ≡ 0
UpToNul (b ∷ bs) (c ∷ t) = (b ≡ c) × (b ≢ 0) × UpToNul bs t

c_string-UpToNul : (bs t : List ℕ) → UpToNul bs t → c_string bs ≡ t
unfolding c_string UpToNul
c_string-UpToNul [] t h = sym h
c_string-UpToNul (b ∷ bs) [] h = rw (h) refl
c_string-UpToNul (b ∷ bs) (c ∷ t) h =
    rw (c_string-UpToNul bs t h.2) (let same = h.0 in let nonzero = h.1 in ground arith)

length-UpToNul : (bs t : List ℕ) → UpToNul bs t → length t ≤ length bs
unfolding UpToNul
length-UpToNul [] t h = rw (h) (omega arith)
length-UpToNul (b ∷ bs) [] h = omega arith
length-UpToNul (b ∷ bs) (c ∷ t) h = let ih = length-UpToNul bs t h.2 in omega (arith, ih)

-- The line to be printed for a file of `size` bytes with this text
abbrev pub announced : Libc → (f size : ℕ) → (text : List ℕ) → List ℕ
announced c f size text =
    codes "Read "
    ++ (c.decimal size
        ++ (codes " bytes from fd " ++ (c.decimal f ++ (codes ":\n<" ++ (text ++ codes ">\n\n")))))

length-announced :
    (c : Libc) (f size : ℕ) (text : List ℕ)
    → length (announced c f size text)
      ≡ 26 + length (c.decimal size) + length (c.decimal f) + length text
length-announced c f size text =
    let end = length-append text (codes ">\n\n") in
    let d = length-append (c.decimal f) (codes ":\n<" ++ (text ++ codes ">\n\n")) in
    let e =
      length-append (c.decimal size)
        (codes " bytes from fd " ++ (c.decimal f ++ (codes ":\n<" ++ (text ++ codes ">\n\n")))) in
    omega (arith, end, d, e)

logged-report :
    (c : Libc) (f : ℕ) (buf text : List ℕ)
    → UpToNul buf text
    → length buf ≤ size_buf_storage
    → length (c.decimal (length buf)) + length (c.decimal f) < 44
    → logged 100 (report c f buf) ≡ announced c f (length buf) text
unfolding report
logged-report c f buf text h fits short =
    let l = length-announced c f (length buf) text in
    let m = length-UpToNul buf text h in
    rw (c_string-UpToNul buf text h)
      (logged_whole 100 (announced c f (length buf) text) (omega (arith, l, m)))

-- In whatever pieces the file arrives: when it has at most 30 bytes, `main` returns SUCCESS and prints the number of
-- its bytes, the descriptor, and between angle brackets the file up to its first NUL, so all of it where it has
-- none, provided that the two numbers together have fewer than 44 digits, so that the line fits its buffer; when
-- the file has more, `main` writes outside its buffer.
pub main_stores :
    (c : Libc) (f : ℕ) (pieces : List (List ℕ)) (text : List ℕ)
    → All (λ piece. piece ≢ []) pieces
    → UpToNul (joined pieces) text
    → length (c.decimal (length (joined pieces))) + length (c.decimal f) < 44
    → main c (some f) (reads_of pieces) ≡ (
        if ltb size_buf_storage (length (joined pieces))
        then none
        else some (record {
          code = success;
          output =
              codes "Read "
              ++ (c.decimal (length (joined pieces))
                  ++ (codes " bytes from fd "
                      ++ (c.decimal f ++ (codes ":\n<" ++ (text ++ codes ">\n\n")))));
        }))
unfolding main after_read
main_stores c f pieces text h up_to short =
    ap (after_read c f) (store_all-stored pieces [] h (omega arith))
    ∙ elim (Bool-cases (ltb size_buf_storage (length (joined pieces)))) [
      | inl over ↦ rw (over, after_read) refl
      | inr within ↦
          let whole = logged-report c f (joined pieces) text up_to (ground (arith, within)) short in
          rw (within, after_read, whole) refl
    ]
