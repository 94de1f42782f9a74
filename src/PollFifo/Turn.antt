-- ===== src/PollFifo/Turn.antt =====
-- The turns of the reader that polls, on the frames of the writer.
use linux_system_programming.Sys.{SafeIf, Status, failed, done, pure, ◌>>=◌}
use linux_system_programming.Base.{
  Bool-cases, length, length-append, All, ltb, ℕ, zero, suc, refl, sym, inl, inr, true, false,
  Option, List, arith, ◌==◌, ◌+◌, ◌-◌, ◌≤◌, ◌<◌, ◌≡◌, ◌||◌, [], ◌∷◌, ◌++◌,
}
use linux_system_programming.Fifo.{
  Main, value, frame, frames, bytes_of, of_bytes-bytes_of, c_string-append, eintr,
}
use linux_system_programming.Fifo.Delivery.{Fine}
use linux_system_programming.Fifo.Shown.{at}
use linux_system_programming.PollFifo.{has_pollin}
use linux_system_programming.PollFifo.Shown.{rules, Possible, Kept, die-Kept}
use linux_system_programming.PollFifo.Fill.{fill-Kept}
use linux_system_programming.PollFifo.Reader.{show_payload, receive, take_length, serve, fill, die}
use mathlib.Core.List.{append_assoc}
use mathlib.Core.Path.{subst}

module _ (read_fuel : ℕ) (rest : Main (Option Status)) (line : List ℕ) (fine : Fine line)
    (tail : List ℕ) (shown later : List (List ℕ)) where
  show_payload-Kept :
      (i : ℕ)
      → SafeIf rules Possible (Kept (shown ++ later)) (at false tail i (shown ++ (line ∷ []))) rest
      → SafeIf rules Possible
          (Kept (shown ++ later))
          (at true tail i shown)
          (show_payload (length line + 1) rest (line ++ (0 ∷ [])))
  unfolding show_payload
  show_payload-Kept i h =
      let size = length-append line (0 ∷ []) in
      let all_there : ltb (length (line ++ (0 ∷ []))) (length line + 1) ≡ false =
        ground (arith, size) in
      rw (all_there, SafeIf, ◌>>=◌)
        (rw (c_string-append line (0 ∷ []) fine.1) (tt, λ _ _. (refl, λ _ _. h)))

  receive-Kept :
      (i : ℕ)
      → 300 + i < read_fuel
      → ((j : ℕ)
          → j ≤ i
          → SafeIf rules Possible
              (Kept (shown ++ later))
              (at false tail j (shown ++ (line ∷ [])))
              rest)
      → SafeIf rules Possible
          (Kept (shown ++ later))
          (at false ((line ++ (0 ∷ [])) ++ tail) i shown)
          (receive read_fuel rest (length line + 1))
  unfolding receive die
  receive-Kept i enough h =
      let short = fine.0 in
      let valid : (length line + 1 == 0 || ltb 256 (length line + 1)) ≡ false = ground arith in
      rw (valid, SafeIf, ◌>>=◌)
        (
          refl,
          elim [
            | failed e ↦
                λ _. (tt, λ _ _. (refl, λ _ _. (tt, λ _ _. ((refl, refl, refl), (later, refl)))))
            | done _ _ ↦ λ _.
                fill-Kept (length line + 1) true (show_payload (length line + 1) rest) shown later
                  tail (line ++ (0 ∷ [])) (length-append line (0 ∷ [])) read_fuel []
                  (line ++ (0 ∷ [])) i refl
                  (omega (arith, short, enough, length-append line (0 ∷ [])))
                  (λ j le. show_payload-Kept j (h j le))
          ],
        )

  -- The turn in which a frame is read.
  frame-Kept :
      (i : ℕ)
      → 300 + i < read_fuel
      → ((j : ℕ)
          → j ≤ i
          → SafeIf rules Possible
              (Kept (shown ++ later))
              (at false tail j (shown ++ (line ∷ [])))
              rest)
      → SafeIf rules Possible
          (Kept (shown ++ later))
          (at false (frame line ++ tail) i shown)
          (fill 4 false read_fuel [] >>= take_length read_fuel rest)
  unfolding frame bytes_of take_length
  frame-Kept i enough h =
      fill-Kept 4 false (take_length read_fuel rest) shown later ((line ++ (0 ∷ [])) ++ tail)
        (bytes_of (length line + 1)) refl read_fuel [] (bytes_of (length line + 1)) i refl
        (omega (arith, enough))
        λ j le.
          subst
            (λ m.
              SafeIf rules Possible (Kept (shown ++ later))
                (at false ((line ++ (0 ∷ [])) ++ tail) j shown) (receive read_fuel rest m))
            (sym (of_bytes-bytes_of (length line + 1) (let short = fine.0 in omega (arith, short))))
            (receive-Kept j (omega (arith, enough, le)) (λ j' le'. h j' (omega (arith, le, le'))))

-- A turn in which `poll` finds bytes; `rest` is the loop after it.
turn-Kept :
    (read_fuel fuel : ℕ) (rest : Main (Option Status)) (lines shown : List (List ℕ)) (i : ℕ)
    → ((lines shown : List (List ℕ)) (j : ℕ)
        → All Fine lines
        → length lines + j < fuel
        → 300 + j < read_fuel
        → SafeIf rules Possible (Kept (shown ++ lines)) (at false (frames lines) j shown) rest)
    → All Fine lines
    → length lines + i < suc fuel
    → 300 + i < read_fuel
    → 0 < length (frames lines)
    → SafeIf rules Possible
        (Kept (shown ++ lines))
        (at false (frames lines) i shown)
        (fill 4 false read_fuel [] >>= take_length read_fuel rest)
unfolding frames
turn-Kept read_fuel fuel rest [] shown i ih fine h enough some_come =
    absurd (omega (arith, some_come))
turn-Kept read_fuel fuel rest (line ∷ lines) shown i ih fine h enough some_come =
    frame-Kept read_fuel rest line fine.0 (frames lines) shown (line ∷ lines) i enough λ j le.
      subst
        (λ all.
          SafeIf rules Possible (Kept all) (at false (frames lines) j (shown ++ (line ∷ []))) rest)
        (append_assoc shown (line ∷ []) lines)
        (ih lines (shown ++ (line ∷ [])) j fine.1 (omega (arith, h, le))
          (omega (arith, enough, le)))

pub serve-Kept :
    (read_fuel fuel : ℕ) (lines shown : List (List ℕ)) (i : ℕ)
    → All Fine lines
    → length lines + i < fuel
    → 300 + i < read_fuel
    → SafeIf rules Possible
        (Kept (shown ++ lines))
        (at false (frames lines) i shown)
        (serve read_fuel fuel)
unfolding serve
serve-Kept read_fuel zero lines shown i fine h enough = absurd (omega (arith, h))
serve-Kept read_fuel (suc fuel) lines shown i fine h enough = (
  tt,
  λ r _. elim (Bool-cases (value r == 0)) [
    | inr stopped ↦
        rw (stopped, SafeIf, ◌>>=◌)
          (die-Kept pure "R : Signal caught" false (frames lines) i shown lines)
    | inl going ↦
        rw (going, SafeIf, ◌>>=◌)
          (
            tt,
            elim [
              | failed e ↦ λ q. elim (Bool-cases (e == eintr)) [
                | inl signal ↦
                    rw (signal, SafeIf, ◌>>=◌)
                      (let more = q (ground (arith, signal)) in
                        serve-Kept read_fuel fuel lines shown (i - 1) fine (omega (arith, h, more))
                          (omega (arith, enough)))
                | inr fault ↦
                    rw (fault, SafeIf, ◌>>=◌)
                      (die-Kept pure "R : poll failed" false (frames lines) (i - 1) shown lines)
              ]
              | done n revents ↦ elim (Bool-cases (n == 0)) [
                | inl timeout ↦
                    rw (timeout, SafeIf, ◌>>=◌)
                      (λ more.
                        serve-Kept read_fuel fuel lines shown (i - 1) fine (omega (arith, h, more))
                          (omega (arith, enough)))
                | inr event ↦ elim (Bool-cases (has_pollin revents)) [
                  | inl ready ↦
                      rw (event, ready, SafeIf, ◌>>=◌)
                        (λ some_come.
                          turn-Kept read_fuel fuel (serve read_fuel fuel) lines shown i
                            (serve-Kept read_fuel fuel) fine h enough some_come)
                  | inr other ↦
                      rw (event, other, SafeIf, ◌>>=◌)
                        (λ more.
                          serve-Kept read_fuel fuel lines shown (i - 1) fine
                            (omega (arith, h, more)) (omega (arith, enough)))
                ]
              ]
            ],
          )
  ],
)
