-- ===== src/Fifo/Sending.antt =====
-- The whole run of the writer of the FIFO.
use linux_system_programming.Fifo.Payload.{send_line-Framed}
use linux_system_programming.Base.{
  Bool-cases, All, ℕ, zero, suc, refl, sym, ap, inl, inr, false, List, arith, ◌==◌, ◌+◌, ◌-◌, ◌<◌,
  ◌≡◌, ◌∙◌, [], ◌∷◌, ◌++◌,
}
use mathlib.Core.List.{append-nil}
use linux_system_programming.Sys.{
  SafeIf, SafeIf-run, pure, ◌>>=◌, failed, done, Kernel, run, Fair, Obeys, replay,
}
use linux_system_programming.Mq.{strip, Line, strip-Line}
use linux_system_programming.Fifo.{Call, value, frame, frames}
use linux_system_programming.Fifo.Delivery.{Fine}
use linux_system_programming.Fifo.Writer.{die, send_lines, writer}
use linux_system_programming.Fifo.Framing.{
  Ledger, rules, Possible, Framed, at, die-Framed, strip-Fine, All-append, frames-append,
}

send_lines-Framed :
    (write_fuel fuel left i : ℕ) (typed : List (List ℕ)) (sent : List ℕ)
    → left < fuel
    → 300 + i < write_fuel
    → All Fine typed
    → frames typed ≡ sent
    → SafeIf rules Possible Framed (at left i typed sent) (send_lines write_fuel fuel)
unfolding send_lines die
send_lines-Framed write_fuel zero left i typed sent h enough fine p = absurd (omega (arith, h))
send_lines-Framed write_fuel (suc fuel) left i typed sent h enough fine p =
    let up_to_here : frames typed ≡ sent ++ [] = p ∙ sym (append-nil sent) in
    (
      tt,
      λ r _. elim (Bool-cases (value r == 0)) [
        | inr stopped ↦
            rw (stopped, SafeIf, ◌>>=◌)
              (die-Framed pure "W : Signal caught mid-write" left i typed sent [] fine up_to_here)
        | inl going ↦
            rw (going, SafeIf, ◌>>=◌)
              (
                tt,
                elim [
                  | failed e ↦
                      λ _. die-Framed pure "W : fgets failed" left i typed sent [] fine up_to_here
                  | done n bs ↦ λ q.
                      let good = strip-Fine bs q.0 in
                      let all_good = All-append typed (strip bs) fine good in
                      send_line-Framed (left - 1) (typed ++ (strip bs ∷ [])) all_good
                        (send_lines write_fuel fuel) write_fuel (strip bs) i sent good.0 enough
                        (frames-append typed (strip bs) ∙ ap (λ t. t ++ frame (strip bs)) p)
                        (λ j le all whole.
                          send_lines-Framed write_fuel fuel (left - 1) j (typed ++ (strip bs ∷ []))
                            all (omega (arith, h, q.1)) (omega (arith, enough, le)) all_good whole)
                ],
              )
      ],
    )

abbrev pub with_input : (left interruptions : ℕ) → Ledger
with_input left i = record {
  is_open = false;
  left = left;
  interruptions = i;
  typed = [];
  sent = [];
}

writer-Framed :
    (write_fuel fuel left i : ℕ)
    → left < fuel
    → 300 + i < write_fuel
    → SafeIf rules Possible Framed (with_input left i) (writer write_fuel fuel)
unfolding writer die frames
writer-Framed write_fuel fuel left i h enough = (
  tt,
  λ _ _. (
    tt,
    λ _ _. (
      tt,
      λ _ _. (
        tt,
        λ _ _. (
          refl,
          elim [
            | failed e ↦ λ _. (tt, λ _ _. (refl, tt, ([], refl)))
            | done _ _ ↦ λ _. send_lines-Framed write_fuel fuel left i [] [] h enough tt refl
          ],
        ),
      ),
    ),
  ),
)

-- With fuel above the number of lines typed and above 300 and the number of interruptions of `write`,
-- the writer ends, with EXIT_FAILURE, in whatever pieces its bytes are accepted and whatever calls
-- fail: it uses the FIFO only while it is open, closes it and never removes it. The bytes sent are a
-- beginning of the frames of the lines typed, and each of these lines is one that the reader accepts.
-- A line typed is what `fgets` stored before the first NUL or newline.
pub writer_frames :
    (write_fuel fuel left i : ℕ) (k : Kernel Call)
    → left < fuel
    → 300 + i < write_fuel
    → Fair rules Possible (with_input left i) (run k 0 (writer write_fuel fuel)).events
    → Obeys rules (with_input left i) (run k 0 (writer write_fuel fuel)).events
      × Framed
          (replay rules (with_input left i) (run k 0 (writer write_fuel fuel)).events)
          (run k 0 (writer write_fuel fuel)).status
      × ((bytes : List ℕ) → Line bytes (strip bytes))
writer_frames write_fuel fuel left i k h enough fair =
    let whole =
      SafeIf-run rules Possible Framed k 0 (with_input left i) (writer write_fuel fuel) fair
        (writer-Framed write_fuel fuel left i h enough) in
    (whole.0, whole.1, strip-Line)
