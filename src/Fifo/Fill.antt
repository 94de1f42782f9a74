-- ===== src/Fifo/Fill.antt =====
-- The read loops of Course_MohanM/11_IPC/11_4_FIFO_Basics/11_4_2_Reader_End/main.c on the bytes that come in.
use linux_system_programming.Fifo.Shown.{rules, Possible, Shown, at, die-Shown}
use linux_system_programming.Sys.{SafeIf, Status, failed, done, ◌>>=◌}
use linux_system_programming.Base.{
  ltb, zero, sym, length-append, length-drop, append-drop_prefix, ap, ◌∙◌, Bool-cases, length, drop,
  drop-append_left, ℕ, suc, refl, inl, inr, Bool, true, false, Option, List, arith, ◌==◌, ◌+◌, ◌-◌,
  ◌≤◌, ◌<◌, ◌≡◌, [], ◌∷◌, ◌++◌,
}
use mathlib.Core.List.{append-nil, append_assoc}
use linux_system_programming.Fifo.{Main, value, eintr}
use linux_system_programming.Fifo.Reader.{read_failed, caught, fill, at_eof, read_more, cleanup}

-- What is left of the bytes wanted after a `read`.
pub remaining :
    (bytes wanted tail : List ℕ)
    → bytes ++ drop (length bytes) (wanted ++ tail) ≡ wanted ++ tail
    → length bytes ≤ length wanted
    → drop (length bytes) (wanted ++ tail) ≡ drop (length bytes) wanted ++ tail
remaining bytes wanted tail p h = drop-append_left (length bytes) wanted tail h

pub interruption : (e i : ℕ) → (e == eintr) ≡ true → (e ≡ eintr → 0 < i) → 0 < i
interruption e i signal q = let same : e ≡ eintr = ground arith in q same

pub at_most_wanted :
    (n size : ℕ) (got wanted whole : List ℕ)
    → length whole ≡ size
    → got ++ wanted ≡ whole
    → n ≤ size - length got
    → n ≤ length wanted
at_most_wanted n size got wanted whole is_size p h =
    omega (arith, h, is_size, ap length p, length-append got wanted)

module _ (size : ℕ) (payload : Bool) (k : List ℕ → Main (Option Status))
    (shown rest : List (List ℕ)) (tail whole : List ℕ) (is_size : length whole ≡ size) where
  -- The loop goes on to `whole` from what it has got.
  abbrev pub Continues :
      (fuel : ℕ) → (List ℕ → Main (List ℕ)) → (got wanted : List ℕ) → (i : ℕ) → Type 0
  Continues fuel loop got wanted i =
      got ++ wanted ≡ whole
      → length wanted + i < fuel
      → ((j : ℕ)
          → j ≤ i
          → SafeIf rules Possible (Shown (shown ++ rest)) (at payload tail j shown) (k whole))
      → SafeIf rules Possible (Shown (shown ++ rest)) (at payload (wanted ++ tail) i shown)
          (loop got >>= k)

  read_more-Shown :
      (fuel : ℕ) (loop : List ℕ → Main (List ℕ))
      → ((got wanted : List ℕ) (i : ℕ) → Continues fuel loop got wanted i)
      → (got : List ℕ) (x : ℕ) (wanted : List ℕ) (i : ℕ)
      → Continues (suc fuel) (read_more size payload loop) got (x ∷ wanted) i
  unfolding read_more
  read_more-Shown fuel loop ih got x wanted i p h next_ = (
    refl,
    elim [
      | failed e ↦ λ q. elim (Bool-cases (e == eintr)) [
        | inr fault ↦
            rw (fault, SafeIf, ◌>>=◌)
              (die-Shown k (read_failed payload) payload (x ∷ (wanted ++ tail)) (i - 1) shown rest)
        | inl signal ↦
            rw (signal, SafeIf, ◌>>=◌)
              (
                tt,
                λ r _. elim (Bool-cases (value r == 0)) [
                  | inr stopped ↦
                      rw (stopped, SafeIf, ◌>>=◌)
                        (die-Shown k (caught payload) payload (x ∷ (wanted ++ tail)) (i - 1) shown
                          rest)
                  | inl going ↦
                      rw (going, SafeIf, ◌>>=◌)
                        (
                          tt,
                          λ _ _.
                              ih got (x ∷ wanted) (i - 1) p
                                (let more = interruption e i signal q in omega (arith, h, more))
                                (λ j le. next_ j (omega (arith, le))),
                        )
                ],
              )
      ]
      | done n [] ↦ λ q. absurd (let some_come = q.3 in omega (arith, some_come))
      | done n (b ∷ bs) ↦ λ q.
          let le = at_most_wanted (length (b ∷ bs)) size got (x ∷ wanted) whole is_size p q.1 in
          rw (remaining (b ∷ bs) (x ∷ wanted) tail q.0 le) (
            ih (got ++ (b ∷ bs)) (drop (length (b ∷ bs)) (x ∷ wanted)) i
              (append_assoc got (b ∷ bs) (drop (length (b ∷ bs)) (x ∷ wanted))
                ∙ (ap (λ t. got ++ t)
                      (append-drop_prefix (b ∷ bs) (drop (length (b ∷ bs)) (x ∷ (wanted ++ tail)))
                        (x ∷ wanted) tail q.0 le)
                    ∙ p))
              (omega (arith, h, length-drop (length (b ∷ bs)) (x ∷ wanted))) next_)
    ],
  )

pub is_full :
    (size : ℕ) (got wanted whole : List ℕ)
    → length whole ≡ size
    → got ++ wanted ≡ whole
    → length wanted ≡ 0
    → ltb (length got) size ≡ false
is_full size got wanted whole is_size p h =
    let same = ap length p in
    let sum = length-append got wanted in ground (arith, is_size, same, sum)

pub is_short :
    (size x : ℕ) (got wanted whole : List ℕ)
    → length whole ≡ size
    → got ++ (x ∷ wanted) ≡ whole
    → ltb (length got) size ≡ true
is_short size x got wanted whole is_size p =
    let same = ap length p in
    let sum = length-append got (x ∷ wanted) in ground (arith, is_size, same, sum)

pub fill-Shown :
    (size : ℕ) (payload : Bool) (k : List ℕ → Main (Option Status)) (shown rest : List (List ℕ))
    (tail whole : List ℕ) (is_size : length whole ≡ size) (fuel : ℕ) (got wanted : List ℕ) (i : ℕ)
    → Continues size payload k shown rest tail whole is_size fuel
        (fill size payload fuel)
        got
        wanted
        i
unfolding fill
fill-Shown size payload k shown rest tail whole is_size zero got wanted i p h next_ =
    absurd (omega (arith, h))
fill-Shown size payload k shown rest tail whole is_size (suc fuel) got [] i p h next_ =
    rw (is_full size got [] whole is_size p refl, SafeIf, ◌>>=◌)
      (rw (sym (append-nil got) ∙ p) (next_ i (omega arith)))
fill-Shown size false k shown rest tail whole is_size (suc fuel) got (x ∷ wanted) i p h next_ =
    rw (is_short size x got wanted whole is_size p, SafeIf, ◌>>=◌)
      (read_more-Shown size false k shown rest tail whole is_size fuel (fill size false fuel)
        (fill-Shown size false k shown rest tail whole is_size fuel) got x wanted i p h next_)
fill-Shown size true k shown rest tail whole is_size (suc fuel) got (x ∷ wanted) i p h next_ =
    rw (is_short size x got wanted whole is_size p, SafeIf, ◌>>=◌)
      (
        tt,
        λ r _. elim (Bool-cases (value r == 0)) [
          | inr stopped ↦
              rw (stopped, SafeIf, ◌>>=◌)
                (die-Shown k "R : Signal caught mid-read" true (x ∷ (wanted ++ tail)) i shown rest)
          | inl going ↦
              rw (going, SafeIf, ◌>>=◌)
                (read_more-Shown size true k shown rest tail whole is_size fuel
                  (fill size true fuel) (fill-Shown size true k shown rest tail whole is_size fuel)
                  got x wanted i p h next_)
        ],
      )

-- With nothing more to come the length loop ends in EXIT_SUCCESS.
pub fill-eof :
    (k : List ℕ → Main (Option Status)) (shown : List (List ℕ)) (fuel i : ℕ)
    → i < fuel
    → SafeIf rules Possible (Shown (shown ++ [])) (at false [] i shown) (fill 4 false fuel [] >>= k)
unfolding fill read_more at_eof cleanup
fill-eof k shown zero i h = absurd (omega (arith, h))
fill-eof k shown (suc fuel) i h = (
  refl,
  elim [
    | failed e ↦ λ q. elim (Bool-cases (e == eintr)) [
      | inr fault ↦
          rw (fault, SafeIf, ◌>>=◌) (die-Shown k (read_failed false) false [] (i - 1) shown [])
      | inl signal ↦
          rw (signal, SafeIf, ◌>>=◌)
            (
              tt,
              λ r _. elim (Bool-cases (value r == 0)) [
                | inr stopped ↦
                    rw (stopped, SafeIf, ◌>>=◌)
                      (die-Shown k (caught false) false [] (i - 1) shown [])
                | inl going ↦
                    rw (going, SafeIf, ◌>>=◌)
                      (
                        tt,
                        λ _ _.
                            fill-eof k shown fuel (i - 1)
                              (let more = interruption e i signal q in omega (arith, h, more)),
                      )
              ],
            )
    ]
    | done n [] ↦
        λ q. (tt, λ _ _. (refl, λ _ _. (tt, λ _ _. ((refl, refl, refl), sym (append-nil shown)))))
    | done n (b ∷ bs) ↦ λ q. absurd (omega (arith, q.2))
  ],
)
