-- ===== src/Fifo/Delivery.antt =====
-- The reader of the FIFO on the frames of the writer.
use linux_system_programming.Fifo.Fill.{fill-Shown, fill-eof}
use linux_system_programming.Base.{
  sym, Bool-cases, length, length-append, All, ltb, ℕ, zero, suc, refl, inl, inr, true, false,
  Option, List, arith, ◌==◌, ◌+◌, ◌≤◌, ◌<◌, ◌≡◌, ◌≢◌, ◌||◌, [], ◌∷◌, ◌++◌,
}
use mathlib.Core.List.{append_assoc}
use mathlib.Core.Path.{subst}
use linux_system_programming.Sys.{
  Fair, SafeIf-run, attempt, Kernel, run, Obeys, replay, ◌>>◌, SafeIf, Status, pure, ◌>>=◌, failed,
  done,
}
use mathlib.Core.List.{append_assoc}
use mathlib.Core.Path.{subst}
use linux_system_programming.Fifo.Reader.{reader, make_fifo}
use linux_system_programming.Fifo.{
  open_fifo, perror, Call, Main, value, bytes_of, frame, frames, of_bytes-bytes_of, c_string-append,
}
use linux_system_programming.Fifo.Reader.{die, cleanup, show_message, receive, serve}
use linux_system_programming.Fifo.Shown.{rules, Possible, Shown, at, die-Shown, Ledger}

-- A line that `fgets` can store in BUF_SIZE bytes: no terminator in it, and room for one after it.
abbrev pub Fine : List ℕ → Type 0
Fine line = (length line < 256) × All (λ b. b ≢ 0) line

show_message-Shown :
    (rest : Main (Option Status)) (line tail : List ℕ) (i : ℕ) (all shown : List (List ℕ))
    → Fine line
    → SafeIf rules Possible (Shown all) (at false tail i (shown ++ (line ∷ []))) rest
    → SafeIf rules Possible
        (Shown all)
        (at true tail i shown)
        (show_message rest (line ++ (0 ∷ [])))
unfolding show_message
show_message-Shown rest line tail i all shown fine h =
    rw (c_string-append line (0 ∷ []) fine.1) (tt, λ _ _. (refl, λ _ _. h))

receive-Shown :
    (read_fuel : ℕ) (rest : Main (Option Status)) (line tail : List ℕ) (i : ℕ)
    (shown later : List (List ℕ))
    → Fine line
    → 300 + i < read_fuel
    → ((j : ℕ)
        → j ≤ i
        → SafeIf rules Possible
            (Shown (shown ++ later))
            (at false tail j (shown ++ (line ∷ [])))
            rest)
    → SafeIf rules Possible
        (Shown (shown ++ later))
        (at false ((line ++ (0 ∷ [])) ++ tail) i shown)
        (receive read_fuel rest (length line + 1))
unfolding receive die
receive-Shown read_fuel rest line tail i shown later fine enough h =
    let short = fine.0 in
    let valid : (length line + 1 == 0 || ltb 256 (length line + 1)) ≡ false = ground arith in
    rw (valid, SafeIf, ◌>>=◌)
      (
        refl,
        elim [
          | failed e ↦
              λ _. (tt, λ _ _. (refl, λ _ _. (tt, λ _ _. ((refl, refl, refl), (later, refl)))))
          | done _ _ ↦ λ _.
              fill-Shown (length line + 1) true (show_message rest) shown later tail
                (line ++ (0 ∷ [])) (length-append line (0 ∷ [])) read_fuel [] (line ++ (0 ∷ [])) i
                refl (omega (arith, short, enough, length-append line (0 ∷ [])))
                (λ j le. show_message-Shown rest line tail j (shown ++ later) shown fine (h j le))
        ],
      )

serve-Shown :
    (read_fuel fuel : ℕ) (lines shown : List (List ℕ)) (i : ℕ)
    → All Fine lines
    → length lines < fuel
    → 300 + i < read_fuel
    → SafeIf rules Possible
        (Shown (shown ++ lines))
        (at false (frames lines) i shown)
        (serve read_fuel fuel)
unfolding serve frames frame bytes_of die cleanup
serve-Shown read_fuel zero lines shown i fine h enough = absurd (omega (arith, h))
serve-Shown read_fuel (suc fuel) [] shown i fine h enough = (
  tt,
  λ r _. elim (Bool-cases (value r == 0)) [
    | inr stopped ↦
        rw (stopped, SafeIf, ◌>>=◌) (die-Shown pure "R : Signal caught" false [] i shown [])
    | inl going ↦ rw (going, SafeIf, ◌>>=◌) (fill-eof _ shown read_fuel i (omega (arith, enough)))
  ],
)
serve-Shown read_fuel (suc fuel) (line ∷ lines) shown i fine h enough = (
  tt,
  λ r _. elim (Bool-cases (value r == 0)) [
    | inr stopped ↦
        rw (stopped, SafeIf, ◌>>=◌)
          (die-Shown pure "R : Signal caught" false (frames (line ∷ lines)) i shown (line ∷ lines))
    | inl going ↦
        rw (going, SafeIf, ◌>>=◌)
          (fill-Shown 4 false _ shown (line ∷ lines) ((line ++ (0 ∷ [])) ++ frames lines)
            (bytes_of (length line + 1)) refl read_fuel [] (bytes_of (length line + 1)) i refl
            (omega (arith, enough))
            λ j le.
              subst
                (λ m.
                  SafeIf rules Possible (Shown (shown ++ (line ∷ lines)))
                    (at false ((line ++ (0 ∷ [])) ++ frames lines) j shown)
                    (receive read_fuel (serve read_fuel fuel) m))
                (sym (
                  of_bytes-bytes_of (length line + 1) (let short = fine.0 in omega (arith, short))))
                (receive-Shown read_fuel (serve read_fuel fuel) line (frames lines) j shown
                  (line ∷ lines) fine.0 (omega (arith, enough, le))
                  λ j' le'.
                    subst
                      (λ all.
                        SafeIf rules Possible (Shown all)
                          (at false (frames lines) j' (shown ++ (line ∷ [])))
                          (serve read_fuel fuel))
                      (append_assoc shown (line ∷ []) lines)
                      (serve-Shown read_fuel fuel lines (shown ++ (line ∷ [])) j' fine.1
                        (omega (arith, h)) (omega (arith, enough, le, le')))))
  ],
)

-- The FIFO before the reader opens it, when the frames of `lines` are all that will be written.
abbrev pub before : List (List ℕ) → (interruptions : ℕ) → Ledger
before lines interruptions = record {
  is_open = false;
  has_buffer = false;
  unlinked = false;
  incoming = frames lines;
  interruptions = interruptions;
  shown = [];
}

-- What `reader` does once the FIFO is there.
open_and_serve : (read_fuel fuel : ℕ) → Main (Option Status)
unfolding die
open_and_serve read_fuel fuel = do
  attempt open_fifo (die (perror "R : Opening FIFO failed") false false)
  serve read_fuel fuel

opened-Shown :
    (read_fuel fuel : ℕ) (lines : List (List ℕ)) (i : ℕ)
    → All Fine lines
    → length lines < fuel
    → 300 + i < read_fuel
    → SafeIf rules Possible (Shown lines) (before lines i) (open_and_serve read_fuel fuel)
unfolding open_and_serve die cleanup
opened-Shown read_fuel fuel lines i fine h enough = (
  refl,
  elim [
    | failed e ↦ λ _. (tt, λ _ _. (tt, λ _ _. ((refl, refl, refl), (lines, refl))))
    | done _ _ ↦ λ _. serve-Shown read_fuel fuel lines [] i fine h enough
  ],
)

reader-Shown :
    (read_fuel fuel : ℕ) (lines : List (List ℕ)) (i : ℕ)
    → All Fine lines
    → length lines < fuel
    → 300 + i < read_fuel
    → SafeIf rules Possible (Shown lines) (before lines i) (reader read_fuel fuel)
unfolding reader make_fifo open_and_serve die cleanup
reader-Shown read_fuel fuel lines i fine h enough = (
  tt,
  λ _ _. (
    tt,
    λ _ _. (
      tt,
      λ _ _. (
        tt,
        elim [
          | failed e ↦ λ _. elim (Bool-cases (e == 17)) [
            | inl present ↦
                rw (present, SafeIf, ◌>>=◌)
                  (tt, λ _ _. opened-Shown read_fuel fuel lines i fine h enough)
            | inr fault ↦
                rw (fault, SafeIf, ◌>>=◌)
                  (tt, λ _ _. (tt, λ _ _. ((refl, refl, refl), (lines, refl))))
          ]
          | done _ _ ↦ λ _. opened-Shown read_fuel fuel lines i fine h enough
        ],
      ),
    ),
  ),
)

-- When the frames of `lines` are all that is written, with fuel above the number of lines and above
-- 300 and the number of interruptions of `read`, the reader comes to a result, in whatever pieces
-- the bytes arrive and whatever calls fail: it never reads a closed FIFO nor leaks or frees twice a
-- buffer, and at the end the FIFO is closed and removed. The lines shown are the first of `lines`,
-- in order and unchanged, and all of them with EXIT_SUCCESS.
pub reader_delivers :
    (read_fuel fuel : ℕ) (lines : List (List ℕ)) (i : ℕ) (k : Kernel Call)
    → All Fine lines
    → length lines < fuel
    → 300 + i < read_fuel
    → Fair rules Possible (before lines i) (run k 0 (reader read_fuel fuel)).events
    → Obeys rules (before lines i) (run k 0 (reader read_fuel fuel)).events
      × Shown lines
          (replay rules (before lines i) (run k 0 (reader read_fuel fuel)).events)
          (run k 0 (reader read_fuel fuel)).status
reader_delivers read_fuel fuel lines i k fine h enough fair =
    SafeIf-run rules Possible (Shown lines) k 0 (before lines i) (reader read_fuel fuel) fair
      (reader-Shown read_fuel fuel lines i fine h enough)
