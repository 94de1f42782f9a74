-- ===== src/PollFifo/Fill.antt =====
-- The read loops of the reader that polls, on the bytes that come in.
use linux_system_programming.Sys.{SafeIf, Status, failed, done, ◌>>=◌}
use linux_system_programming.Base.{
  Bool-cases, length, drop, length-drop, append-drop_prefix, ℕ, zero, suc, refl, sym, ap, inl, inr,
  Bool, true, Option, List, arith, ◌==◌, ◌+◌, ◌-◌, ◌≤◌, ◌<◌, ◌≡◌, ◌∙◌, [], ◌∷◌, ◌++◌,
}
use linux_system_programming.Fifo.{Main, value, eintr}
use linux_system_programming.Fifo.Fill.{remaining, at_most_wanted, is_full, is_short}
use linux_system_programming.Fifo.Shown.{at}
use linux_system_programming.PollFifo.{eagain}
use linux_system_programming.PollFifo.Shown.{rules, Possible, Kept, die-Kept, is_transient}
use linux_system_programming.PollFifo.Reader.{read_failed, caught, fill, read_error}
use mathlib.Core.List.{append-nil, append_assoc}

module _ (size : ℕ) (payload : Bool) (k : List ℕ → Main (Option Status))
    (shown rest : List (List ℕ)) (tail whole : List ℕ) (is_size : length whole ≡ size) where
  -- The program keeps to the rules with `incoming` still to come and `i` interruptions.
  abbrev pub GoesOn : (incoming : List ℕ) → (i : ℕ) → Main (List ℕ) → Type 0
  GoesOn incoming i p =
      SafeIf rules Possible (Kept (shown ++ rest)) (at payload incoming i shown) (p >>= k)

  read_error-Kept :
      (incoming : List ℕ) (i e : ℕ) (again : Main (List ℕ))
      → (is_transient e ≡ true → 0 < i)
      → (0 < i → GoesOn incoming (i - 1) again)
      → GoesOn incoming (i - 1) (read_error payload e again)
  unfolding read_error
  read_error-Kept incoming i e again q h = elim (Bool-cases (e == eintr)) [
    | inl signal ↦
        rw (signal, SafeIf, ◌>>=◌)
          (
            tt,
            λ r _. elim (Bool-cases (value r == 0)) [
              | inr stopped ↦
                  rw (stopped, SafeIf, ◌>>=◌)
                    (die-Kept k (caught payload) payload incoming (i - 1) shown rest)
              | inl going ↦ rw (going, SafeIf, ◌>>=◌) (tt, λ _ _. h (q (ground (arith, signal))))
            ],
          )
    | inr other ↦ elim (Bool-cases (e == eagain)) [
      | inl empty ↦ rw (other, empty, SafeIf, ◌>>=◌) (h (q (ground (arith, other, empty))))
      | inr fault ↦
          rw (other, fault, SafeIf, ◌>>=◌)
            (die-Kept k (read_failed payload) payload incoming (i - 1) shown rest)
    ]
  ]

  -- The loop gets `whole`, of which `got` is there, and goes on with it.
  pub fill-Kept :
      (fuel : ℕ) (got wanted : List ℕ) (i : ℕ)
      → got ++ wanted ≡ whole
      → length wanted + i < fuel
      → ((j : ℕ)
          → j ≤ i
          → SafeIf rules Possible (Kept (shown ++ rest)) (at payload tail j shown) (k whole))
      → GoesOn (wanted ++ tail) i (fill size payload fuel got)
  unfolding fill
  fill-Kept zero got wanted i p h next_ = absurd (omega (arith, h))
  fill-Kept (suc fuel) got [] i p h next_ =
      rw (is_full size got [] whole is_size p refl, SafeIf, ◌>>=◌)
        (rw (sym (append-nil got) ∙ p) (next_ i (omega arith)))
  fill-Kept (suc fuel) got (x ∷ wanted) i p h next_ =
      rw (is_short size x got wanted whole is_size p, SafeIf, ◌>>=◌)
        (
          refl,
          elim [
            | failed e ↦ λ q.
                read_error-Kept (x ∷ (wanted ++ tail)) i e (fill size payload fuel got) q (λ more.
                  fill-Kept fuel got (x ∷ wanted) (i - 1) p (omega (arith, h, more))
                    (λ j le. next_ j (omega (arith, le))))
            | done n [] ↦ λ q. absurd (let some_come = q.3 in omega (arith, some_come))
            | done n (b ∷ bs) ↦ λ q.
                let le =
                  at_most_wanted (length (b ∷ bs)) size got (x ∷ wanted) whole is_size p q.1 in
                rw (remaining (b ∷ bs) (x ∷ wanted) tail q.0 le) (
                  fill-Kept fuel (got ++ (b ∷ bs)) (drop (length (b ∷ bs)) (x ∷ wanted)) i
                    (append_assoc got (b ∷ bs) (drop (length (b ∷ bs)) (x ∷ wanted))
                      ∙ (ap (λ t. got ++ t)
                            (append-drop_prefix (b ∷ bs)
                              (drop (length (b ∷ bs)) (x ∷ (wanted ++ tail))) (x ∷ wanted) tail q.0
                              le)
                          ∙ p))
                    (omega (arith, h, length-drop (length (b ∷ bs)) (x ∷ wanted))) next_)
          ],
        )
