-- ===== src/Files/Log.antt =====
-- What the log helpers write: the `snprintf`, cap and `write` that every helper repeats.
use linux_system_programming.Base.{
  length, take, length-append, take_all, length-take, take-append_left, take-take, ℕ, sym, ap, List,
  arith, ◌==◌, if◌then◌else◌, ◌-◌, ◌<◌, ◌≡◌, ◌∙◌, [], ◌∷◌, ◌++◌,
}
use mathlib.Core.Path.{ap₂, ◌≡⟨◌⟩◌, ◌∎}
use linux_system_programming.Files.{logged, snprintf, cap_length}

-- A text shorter than the buffer passes whole.
logged_short :
    (size : ℕ) (text : List ℕ) → length text < size → logged size text ≡ take (size - 1) text
unfolding logged
logged_short size text h =
    take (cap_length size (length text)) (snprintf size text)
    ≡⟨ ap₂ (λ n t. take n (t ++ (0 ∷ []))) (ground arith) (take_all (size - 1) text (omega arith)) ⟩
      take (length text) (text ++ (0 ∷ []))
    ≡⟨ take-append_left (length text) text (0 ∷ []) (omega arith) ⟩ take (length text) text
    ≡⟨ take_all (length text) text (omega arith) ∙ sym (take_all (size - 1) text (omega arith)) ⟩
      take (size - 1) text ∎

-- All of it is written.
pub logged_whole : (size : ℕ) (text : List ℕ) → length text < size → logged size text ≡ text
logged_whole size text h = logged_short size text h ∙ take_all (size - 1) text (omega arith)

logged_long :
    (size : ℕ) (text : List ℕ) → size < length text → logged size text ≡ take (size - 1) text
unfolding logged
logged_long size text h =
    take (cap_length size (length text)) (snprintf size text)
    ≡⟨ ap (λ n. take n (snprintf size text)) (ground arith) ⟩
      take (size - 1) (take (size - 1) text ++ (0 ∷ []))
    ≡⟨ take-append_left (size - 1) (take (size - 1) text) (0 ∷ [])
        (omega (arith, length-take (size - 1) text)) ⟩
      take (size - 1) (take (size - 1) text)
    ≡⟨ take-take (size - 1) (size - 1) text (omega arith) ⟩ take (size - 1) text ∎

-- The cap lets a text of exactly `size` bytes through uncapped, with the terminator.
logged_exact :
    (size : ℕ) (text : List ℕ)
    → length text ≡ size
    → 0 < size
    → logged size text ≡ take (size - 1) text ++ (0 ∷ [])
unfolding logged
logged_exact size text h p =
    take (cap_length size (length text)) (snprintf size text)
    ≡⟨ ap (λ n. take n (snprintf size text)) (ground arith) ⟩ take size (snprintf size text)
    ≡⟨ take_all size (snprintf size text) (
        omega (arith, length-append (take (size - 1) text) (0 ∷ []), length-take (size - 1) text)) ⟩
      take (size - 1) text ++ (0 ∷ []) ∎

-- Every log helper with a buffer of `size` bytes writes the first size - 1 bytes of its text, and a
-- text of exactly `size` bytes is followed by the terminator, a zero byte, in the output.
pub logged_lem :
    (size : ℕ) (text : List ℕ)
    → 0 < size
    → logged size text
      ≡ (if length text == size then take (size - 1) text ++ (0 ∷ []) else take (size - 1) text)
logged_lem size text p =
    ground (arith, logged_short size text, logged_long size text, logged_exact size text)
