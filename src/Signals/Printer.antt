-- ===== src/Signals/Printer.antt =====
-- `printer`, of which each program of Course_MohanM/9_Signals has its own copy with its own buffer size: the
-- formatted text and a newline, each by one `write`.
use linux_system_programming.Base.{
  ◌==◌, length-append, take_all, length-take, take-append_left, ap, arith, ◌≤◌, ◌∙◌, Bool-cases,
  length, take, codes, ltb, ℕ, inl, inr, List, if◌then◌else◌, ◌-◌, ◌<◌, ◌≡◌, [], ◌∷◌, ◌++◌,
}
use linux_system_programming.Files.{snprintf, logged}
use linux_system_programming.Files.Log.{logged_lem}
use mathlib.Core.Path.{ap₂}

-- `if (bytes_written_to_buf > SIZE) bytes_written_to_buf = SIZE;`
abbrev pub cap_size : ℕ → ℕ → ℕ
cap_size size len = if ltb size len then size else len

-- The bytes handed to `write`, for a buffer of `size` bytes and what `vsnprintf` makes of the message.
unfoldable pub printer : (size : ℕ) → (text : List ℕ) → List (List ℕ)
printer size [] = []
printer size (x ∷ text) =
    take (cap_size size (length (x ∷ text))) (snprintf size (x ∷ text)) ∷ codes "\n" ∷ []

written_short :
    (size : ℕ) (text : List ℕ)
    → length text < size
    → take (cap_size size (length text)) (snprintf size text) ≡ text
written_short size text h =
    ap₂ (λ n t. take n (t ++ (0 ∷ []))) {y = length text} (ground arith)
      (take_all (size - 1) text (omega arith))
    ∙ take-append_left (length text) text (0 ∷ []) (omega arith)
    ∙ take_all (length text) text (omega arith)

written_long :
    (size : ℕ) (text : List ℕ)
    → 0 < size
    → size ≤ length text
    → take (cap_size size (length text)) (snprintf size text) ≡ take (size - 1) text ++ (0 ∷ [])
written_long size text h long =
    ap (λ n. take n (snprintf size text)) {y = size} (ground arith)
    ∙ take_all size (snprintf size text)
        (omega (arith, length-append (take (size - 1) text) (0 ∷ []), length-take (size - 1) text))

-- What `printer` writes of a text that is not empty: all of it where it is shorter than the buffer, and else
-- as much as leaves room for the terminator, which is then written too; and a newline.
printer_lem :
    (size x : ℕ) (text : List ℕ)
    → 0 < size
    → printer size (x ∷ text)
      ≡ (if ltb (length (x ∷ text)) size
          then x ∷ text
          else (take (size - 1) (x ∷ text) ++ (0 ∷ [])))
        ∷ (codes "\n" ∷ [])
unfolding printer
printer_lem size x text h = elim (Bool-cases (ltb (length (x ∷ text)) size)) [
  | inl fits ↦
      ap (λ t. t ∷ (codes "\n" ∷ [])) (rw (fits) (written_short size (x ∷ text) (ground arith)))
  | inr long ↦
      ap (λ t. t ∷ (codes "\n" ∷ [])) (rw (long) (written_long size (x ∷ text) h (ground arith)))
]

-- What the two helpers that print write, for a buffer of `size` bytes. `log_error` and the others that cap the
-- length at size - 1 write the first size - 1 bytes of their text, and a text of exactly `size` bytes is
-- followed by the terminator, a zero byte. `printer` writes all of a text that is shorter than its buffer, and
-- of another as much as leaves room for the terminator, which is then written too; and a newline.
pub helpers_write :
    (size x : ℕ) (text : List ℕ)
    → 0 < size
    → (logged size (x ∷ text) ≡ (
        if length (x ∷ text) == size
        then take (size - 1) (x ∷ text) ++ (0 ∷ [])
        else take (size - 1) (x ∷ text)))
      × (printer size (x ∷ text)
          ≡ (if ltb (length (x ∷ text)) size
              then x ∷ text
              else (take (size - 1) (x ∷ text) ++ (0 ∷ [])))
            ∷ (codes "\n" ∷ []))
helpers_write size x text h = (logged_lem size (x ∷ text) h, printer_lem size x text h)
