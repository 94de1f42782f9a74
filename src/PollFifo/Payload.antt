-- ===== src/PollFifo/Payload.antt =====
-- The write loops of the writer that polls, byte for byte.
use linux_system_programming.Sys.{SafeIf, Status, Reply, failed, done, Rules, ◌>>=◌}
use linux_system_programming.Base.{
  Bool-cases, length, take, drop, All, ltb, ℕ, zero, suc, String, refl, sym, ap, inl, inr, Bool,
  true, false, Option, List, arith, ◌==◌, if◌then◌else◌, ◌+◌, ◌-◌, ◌≤◌, ◌<◌, ◌≡◌, ◌∙◌, ◌&&◌, ◌++◌,
}
use linux_system_programming.Fifo.{Main, Call, value, eintr, frames, poll, write, perror}
use linux_system_programming.Fifo.Delivery.{Fine}
use linux_system_programming.Fifo.Framing.{Ledger, Allowed, Framed, at}
use linux_system_programming.Fifo.Framing as Blocking
use linux_system_programming.Fifo.Payload.{more_sent, drop_all, progress}
use linux_system_programming.PollFifo.{eagain}
use linux_system_programming.PollFifo.Shown.{is_transient}
use linux_system_programming.PollFifo.Writer.{die, write_failed, write_error, send_all, retry}
use mathlib.Core.List.{append_assoc}

-- Here `interruptions` counts the calls of `write` and `poll` that bring nothing.
abbrev pub step : Ledger → Call → Reply → Ledger
step s (poll events) (failed e) = record s { interruptions = s.interruptions - 1 }
step s (poll events) (done n revents) = record s {
  interruptions = if n == 0 then (s.interruptions - 1) else s.interruptions;
}
step s c r = Blocking.step s c r

abbrev pub rules : Rules Call
rules = record { Ledger = Ledger; Allowed = Allowed; step = step }

abbrev pub Possible : Ledger → Call → Reply → Type 0
Possible s (poll events) (failed e) = 0 < s.interruptions
Possible s (poll events) (done n revents) = n ≡ 0 → 0 < s.interruptions
Possible s (write bytes) (failed e) = is_transient e ≡ true → 0 < s.interruptions
Possible s c r = Blocking.Possible s c r

more_out :
    (typed : List (List ℕ)) (sent buf after : List ℕ) (total n : ℕ)
    → frames typed ≡ sent ++ (drop total buf ++ after)
    → frames typed ≡ (sent ++ take n (drop total buf)) ++ (drop (total + n) buf ++ after)
more_out typed sent buf after total n p =
    p
    ∙ (sym (append_assoc sent (drop total buf) after)
        ∙ (ap (λ t. t ++ after) (more_sent (sent ++ drop total buf) sent buf total n refl)
            ∙ append_assoc (sent ++ take n (drop total buf)) (drop (total + n) buf) after))

-- The writer, which polls, keeps to the rules with `sent` accepted and `i` interruptions to come.
module _ {A : Type 0} (left : ℕ) (typed : List (List ℕ)) (fine : All Fine typed)
    (k : A → Main (Option Status)) where
  abbrev pub GoesOn : (sent : List ℕ) → (i : ℕ) → Main A → Type 0
  GoesOn sent i p = SafeIf rules Possible Framed (at left i typed sent) (p >>= k)

  pub die-Framed :
      (text : String) (i : ℕ) (sent rest : List ℕ)
      → frames typed ≡ sent ++ rest
      → GoesOn sent i (die (perror text) true)
  unfolding die
  die-Framed text i sent rest p = (tt, λ _ _. (refl, λ _ _. (refl, fine, (rest, p))))

retry-Framed :
    (left : ℕ) (typed : List (List ℕ)) (fine : All Fine typed) (k : Unit {0} → Main (Option Status))
    (payload : Bool) (sent : List ℕ) (i : ℕ) (again : Main (Unit {0}))
    → GoesOn left typed fine k sent i again
    → GoesOn left typed fine k sent i (retry payload again)
unfolding retry
retry-Framed left typed fine k true sent i again h = (tt, λ _ _. h)
retry-Framed left typed fine k false sent i again h = h

module _ (left : ℕ) (typed : List (List ℕ)) (fine : All Fine typed)
    (k : Unit {0} → Main (Option Status)) (payload : Bool) where
  write_error-Framed :
      (sent rest : List ℕ) (i e : ℕ) (again : Main (Unit {0}))
      → frames typed ≡ sent ++ rest
      → (is_transient e ≡ true → 0 < i)
      → (0 < i → GoesOn left typed fine k sent (i - 1) again)
      → GoesOn left typed fine k sent (i - 1) (write_error payload e again)
  unfolding write_error die
  write_error-Framed sent rest i e again p q h = elim (Bool-cases (payload && (e == 32))) [
    | inl broken ↦ rw (broken, SafeIf, ◌>>=◌) (tt, λ _ _. (refl, λ _ _. (refl, fine, (rest, p))))
    | inr other ↦ elim (Bool-cases (e == eintr)) [
      | inl signal ↦
          rw (other, signal, SafeIf, ◌>>=◌)
            (
              tt,
              λ r _. elim (Bool-cases (value r == 0)) [
                | inr stopped ↦
                    rw (stopped, SafeIf, ◌>>=◌)
                      (die-Framed left typed fine k "W : Signal caught mid-write" (i - 1) sent rest
                        p)
                | inl going ↦
                    rw (going, SafeIf, ◌>>=◌)
                      (retry-Framed left typed fine k payload sent (i - 1) again
                        (h (q (ground (arith, signal)))))
              ],
            )
      | inr fault ↦ elim (Bool-cases (e == eagain)) [
        | inl full ↦ rw (other, fault, full, SafeIf, ◌>>=◌) (h (q (ground (arith, fault, full))))
        | inr fatal ↦
            rw (other, fault, fatal, SafeIf, ◌>>=◌)
              (die-Framed left typed fine k (write_failed payload) (i - 1) sent rest p)
      ]
    ]
  ]

  -- The bytes of a buffer go out, with `after` still to follow them.
  pub send_all-Framed :
      (buf after : List ℕ) (fuel total i : ℕ) (sent : List ℕ)
      → length buf - total + i < fuel
      → frames typed ≡ sent ++ (drop total buf ++ after)
      → ((j : ℕ)
          → j ≤ i
          → (all : List ℕ) → frames typed ≡ all ++ after
          → SafeIf rules Possible Framed (at left j typed all) (k tt))
      → GoesOn left typed fine k sent i (send_all payload buf fuel total)
  unfolding send_all
  send_all-Framed buf after zero total i sent h p next_ = absurd (omega (arith, h))
  send_all-Framed buf after (suc fuel) total i sent h p next_ =
      elim (Bool-cases (ltb total (length buf))) [
        | inr all_out ↦
            rw (all_out, SafeIf, ◌>>=◌)
              (next_ i (omega arith) sent
                (p ∙ ap (λ t. sent ++ (t ++ after)) (drop_all total buf (ground (arith, all_out)))))
        | inl some_left ↦
            rw (some_left, SafeIf, ◌>>=◌)
              (
                refl,
                elim [
                  | failed e ↦ λ q.
                      write_error-Framed sent (drop total buf ++ after) i e
                        (send_all payload buf fuel total) p q
                        (λ more.
                          send_all-Framed buf after fuel total (i - 1) sent (omega (arith, h, more))
                            p (λ j le. next_ j (omega (arith, le))))
                  | done n bs ↦ λ q.
                      send_all-Framed buf after fuel (total + n) i (sent ++ take n (drop total buf))
                        (progress fuel total n i buf some_left h q.1)
                        (more_out typed sent buf after total n p) next_
                ],
              )
      ]
