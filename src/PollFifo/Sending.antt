-- ===== src/PollFifo/Sending.antt =====
-- The whole run of the writer that polls.
use linux_system_programming.Sys.{
  Fair, SafeIf, SafeIf-run, Status, failed, done, pure, Kernel, run, Obeys, replay, ◌>>=◌, ◌>>◌,
  SafeIf-assoc,
}
use linux_system_programming.Base.{
  length-append, true, false, Bool-cases, length, All, ℕ, zero, suc, refl, sym, ap, inl, inr,
  Option, List, arith, ◌==◌, ◌+◌, ◌-◌, ◌≤◌, ◌<◌, ◌≡◌, ◌∙◌, [], ◌∷◌, ◌++◌,
}
use linux_system_programming.Fifo.{Main, Call, value, frame, frames, bytes_of}
use linux_system_programming.Fifo.Delivery.{Fine}
use linux_system_programming.Fifo.Framing.{Framed, at, strip-Fine, All-append, frames-append}
use linux_system_programming.Fifo.Sending.{with_input}
use linux_system_programming.Mq.{strip, Line, strip-Line}
use linux_system_programming.PollFifo.Payload.{rules, Possible, die-Framed, send_all-Framed}
use linux_system_programming.PollFifo.Writer.{die, send_frame, send_lines, poll_writer, send_all}
use mathlib.Core.List.{append-nil}

send_frame-Framed :
    (left : ℕ) (typed : List (List ℕ)) (fine : All Fine typed) (rest : Main (Option Status))
    (write_fuel : ℕ) (line : List ℕ) (i : ℕ) (sent : List ℕ)
    → length line < 256
    → 300 + i < write_fuel
    → frames typed ≡ sent ++ frame line
    → ((j : ℕ)
        → j ≤ i
        → (all : List ℕ) → frames typed ≡ all
        → SafeIf rules Possible Framed (at left j typed all) rest)
    → SafeIf rules Possible Framed (at left i typed sent) (send_frame write_fuel line >> rest)
unfolding send_frame bytes_of frame
send_frame-Framed left typed fine rest write_fuel line i sent short enough p next_ =
    SafeIf-assoc rules Possible Framed (at left i typed sent)
      (send_all false (bytes_of (length line + 1)) write_fuel 0)
      (λ _. send_all true (line ++ (0 ∷ [])) write_fuel 0) (λ _. rest)
      (send_all-Framed left typed fine (λ _. send_all true (line ++ (0 ∷ [])) write_fuel 0 >> rest)
        false (bytes_of (length line + 1)) (line ++ (0 ∷ [])) write_fuel 0 i sent
        (omega (arith, enough)) p
        λ j le all out.
          send_all-Framed left typed fine (λ _. rest) true (line ++ (0 ∷ [])) [] write_fuel 0 j all
            (omega (arith, short, enough, le, length-append line (0 ∷ [])))
            (out ∙ ap (λ t. all ++ t) (sym (append-nil (line ++ (0 ∷ [])))))
            λ j' le' all' out'. next_ j' (omega (arith, le, le')) all' (out' ∙ append-nil all'))

send_lines-Framed :
    (write_fuel fuel left i : ℕ) (typed : List (List ℕ)) (sent : List ℕ)
    → left + i < fuel
    → 300 + i < write_fuel
    → All Fine typed
    → frames typed ≡ sent
    → SafeIf rules Possible Framed (at left i typed sent) (send_lines write_fuel fuel)
unfolding send_lines
send_lines-Framed write_fuel zero left i typed sent h enough fine p = absurd (omega (arith, h))
send_lines-Framed write_fuel (suc fuel) left i typed sent h enough fine p =
    let up_to_here : frames typed ≡ sent ++ [] = p ∙ sym (append-nil sent) in
    (
      tt,
      λ r _. elim (Bool-cases (value r == 0)) [
        | inr stopped ↦
            rw (stopped, SafeIf, ◌>>=◌)
              (die-Framed left typed fine pure "W : Signal caught" i sent [] up_to_here)
        | inl going ↦
            rw (going, SafeIf, ◌>>=◌)
              (
                tt,
                elim [
                  | failed e ↦ λ more.
                      send_lines-Framed write_fuel fuel left (i - 1) typed sent
                        (omega (arith, h, more)) (omega (arith, enough)) fine p
                  | done n revents ↦ elim (Bool-cases (n == 0)) [
                    | inl timeout ↦
                        rw (timeout, SafeIf, ◌>>=◌)
                          (λ q.
                            let more = q (ground (arith, timeout)) in
                            send_lines-Framed write_fuel fuel left (i - 1) typed sent
                              (omega (arith, h, more)) (omega (arith, enough)) fine p)
                    | inr event ↦
                        rw (event, SafeIf, ◌>>=◌)
                          (λ _. (
                            tt,
                            elim [
                              | failed e ↦ λ _.
                                  die-Framed left typed fine pure "W : fgets failed" i sent []
                                    up_to_here
                              | done m bs ↦ λ q.
                                  let good = strip-Fine bs q.0 in
                                  let all_good = All-append typed (strip bs) fine good in
                                  send_frame-Framed (left - 1) (typed ++ (strip bs ∷ [])) all_good
                                    (send_lines write_fuel fuel) write_fuel (strip bs) i sent good.0
                                    enough
                                    (frames-append typed (strip bs)
                                      ∙ ap (λ t. t ++ frame (strip bs)) p)
                                    (λ j le all whole.
                                      send_lines-Framed write_fuel fuel (left - 1) j
                                        (typed ++ (strip bs ∷ [])) all (omega (arith, h, le, q.1))
                                        (omega (arith, enough, le)) all_good whole)
                            ],
                          ))
                  ]
                ],
              )
      ],
    )

writer-Framed :
    (write_fuel fuel left i : ℕ)
    → left + i < fuel
    → 300 + i < write_fuel
    → SafeIf rules Possible Framed (with_input left i) (poll_writer write_fuel fuel)
unfolding poll_writer die frames
writer-Framed write_fuel fuel left i h enough = (
  tt,
  λ _ _. (
    tt,
    λ _ _. (
      tt,
      λ _ _. (
        tt,
        λ _ _. (
          refl,
          elim [
            | failed e ↦ λ _. (tt, λ _ _. (refl, tt, ([], refl)))
            | done _ _ ↦ λ _. send_lines-Framed write_fuel fuel left i [] [] h enough tt refl
          ],
        ),
      ),
    ),
  ),
)

-- With fuel above the number of lines typed and the number of calls of `poll` and `write` that bring
-- nothing, and with 300 more for the loops on `write`, the writer that polls ends, with EXIT_FAILURE, in
-- whatever pieces its bytes are accepted and whatever calls fail: it uses the FIFO only while it is
-- open, closes it and never removes it. The bytes sent are a beginning of the frames of the lines typed,
-- and each of these lines is one that the reader accepts.
-- A line typed is what `fgets` stored before the first NUL or newline.
pub poll_writer_frames :
    (write_fuel fuel left i : ℕ) (k : Kernel Call)
    → left + i < fuel
    → 300 + i < write_fuel
    → Fair rules Possible (with_input left i) (run k 0 (poll_writer write_fuel fuel)).events
    → Obeys rules (with_input left i) (run k 0 (poll_writer write_fuel fuel)).events
      × Framed
          (replay rules (with_input left i) (run k 0 (poll_writer write_fuel fuel)).events)
          (run k 0 (poll_writer write_fuel fuel)).status
      × ((bytes : List ℕ) → Line bytes (strip bytes))
poll_writer_frames write_fuel fuel left i k h enough fair =
    let whole =
      SafeIf-run rules Possible Framed k 0 (with_input left i) (poll_writer write_fuel fuel) fair
        (writer-Framed write_fuel fuel left i h enough) in
    (whole.0, whole.1, strip-Line)
