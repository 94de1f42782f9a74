-- ===== src/Fifo/Payload.antt =====
-- The writes of a line by Course_MohanM/11_IPC/11_4_FIFO_Basics/11_4_1_Writer_End/main.c, byte for byte.
use linux_system_programming.Fifo.Framing.{rules, Possible, Framed, at, die-Framed}
use linux_system_programming.Base.{
  length-append, length-drop, take-append_left, Bool-cases, length, take, drop, drop-add,
  append-take-drop, All, ltb, ℕ, zero, suc, min, refl, sym, ap, inl, inr, true, Option, List, arith,
  ◌==◌, ◌+◌, ◌-◌, ◌≤◌, ◌<◌, ◌≡◌, ◌∙◌, [], ◌∷◌, ◌++◌,
}
use mathlib.Core.List.{append_assoc, append-nil}
use linux_system_programming.Sys.{SafeIf, Status, ◌>>=◌, ◌>>◌, failed, done}
use linux_system_programming.Fifo.{Main, value, eintr, bytes_of, frame, frames}
use linux_system_programming.Fifo.Fill.{interruption}
use linux_system_programming.Fifo.{bytes_of, frame}
use linux_system_programming.Fifo.Writer.{send_line}
use linux_system_programming.Fifo.Delivery.{Fine}
use linux_system_programming.Fifo.Writer.{die, send_payload, send_line}

pub more_sent :
    (whole sent buf : List ℕ) (total n : ℕ)
    → whole ≡ sent ++ drop total buf
    → whole ≡ (sent ++ take n (drop total buf)) ++ drop (total + n) buf
more_sent whole sent buf total n p =
    p
    ∙ (ap (λ t. sent ++ t)
          (sym (append-take-drop n (drop total buf))
            ∙ ap (λ t. take n (drop total buf) ++ t) (sym (drop-add total n buf)))
        ∙ sym (append_assoc sent (take n (drop total buf)) (drop (total + n) buf)))

pub drop_all : (n : ℕ) (xs : List ℕ) → length xs ≤ n → drop n xs ≡ []
drop_all zero [] h = refl
drop_all zero (x ∷ xs) h = absurd (omega (arith, h))
drop_all (suc n) [] h = refl
drop_all (suc n) (x ∷ xs) h = drop_all n xs (omega (arith, h))

pub progress :
    (fuel total n i : ℕ) (buf : List ℕ)
    → ltb total (length buf) ≡ true
    → length buf - total + i < suc fuel
    → min 1 (length (drop total buf)) ≤ n
    → length buf - (total + n) + i < fuel
progress fuel total n i buf some_left h q =
    let rest = length-drop total buf in
    let before_end : total < length buf = ground arith in omega (arith, h, q, rest, before_end)

four_bytes : (line : List ℕ) (n : ℕ) → n ≤ length (bytes_of (length line + 1)) → n ≤ 4
unfolding bytes_of
four_bytes line n h = h

module _ (left : ℕ) (typed : List (List ℕ)) (fine : All Fine typed)
    (rest : Main (Option Status)) where
  payload-Framed :
      (buf : List ℕ) (fuel total i : ℕ) (sent : List ℕ)
      → length buf - total + i < fuel
      → frames typed ≡ sent ++ drop total buf
      → ((j : ℕ)
          → j ≤ i
          → (all : List ℕ) → frames typed ≡ all
          → SafeIf rules Possible Framed (at left j typed all) rest)
      → SafeIf rules Possible Framed (at left i typed sent) (send_payload buf fuel total >> rest)
  unfolding send_payload die
  payload-Framed buf zero total i sent h p next_ = absurd (omega (arith, h))
  payload-Framed buf (suc fuel) total i sent h p next_ =
      elim (Bool-cases (ltb total (length buf))) [
        | inr all_out ↦
            rw (all_out, SafeIf, ◌>>=◌)
              (next_ i (omega arith) sent (
                p
                ∙ (ap (λ t. sent ++ t) (drop_all total buf (ground (arith, all_out)))
                    ∙ append-nil sent)))
        | inl some_left ↦
            rw (some_left, SafeIf, ◌>>=◌)
              (
                tt,
                λ r _. elim (Bool-cases (value r == 0)) [
                  | inr stopped ↦
                      rw (stopped, SafeIf, ◌>>=◌)
                        (die-Framed {A = Unit {0}} (λ _. rest) "W : Signal caught mid-write" left i
                          typed sent (drop total buf) fine p)
                  | inl going ↦
                      rw (going, SafeIf, ◌>>=◌)
                        (
                          refl,
                          elim [
                            | failed e ↦ λ q. elim (Bool-cases (e == 32)) [
                              | inl broken ↦
                                  rw (broken, SafeIf, ◌>>=◌)
                                    (tt, λ _ _. (refl, λ _ _. (refl, fine, (drop total buf, p))))
                              | inr other ↦ elim (Bool-cases (e == eintr)) [
                                | inr fault ↦
                                    rw (other, fault, SafeIf, ◌>>=◌)
                                      (die-Framed {A = Unit {0}} (λ _. rest)
                                        "W : Error sending the buffer to fifo" left (i - 1) typed
                                        sent (drop total buf) fine p)
                                | inl signal ↦
                                    rw (other, signal, SafeIf, ◌>>=◌)
                                      (
                                        tt,
                                        λ r' _. elim (Bool-cases (value r' == 0)) [
                                          | inr stopped ↦
                                              rw (stopped, SafeIf, ◌>>=◌)
                                                (die-Framed {A = Unit {0}} (λ _. rest)
                                                  "W : Signal caught mid-write" left (i - 1) typed
                                                  sent (drop total buf) fine p)
                                          | inl again ↦
                                              rw (again, SafeIf, ◌>>=◌)
                                                (
                                                  tt,
                                                  λ _ _.
                                                      payload-Framed buf fuel total (i - 1) sent
                                                        (let more = interruption e i signal q in
                                                          omega (arith, h, more))
                                                        p (λ j le. next_ j (omega (arith, le))),
                                                )
                                        ],
                                      )
                              ]
                            ]
                            | done n bs ↦ λ q.
                                payload-Framed buf fuel (total + n) i
                                  (sent ++ take n (drop total buf))
                                  (progress fuel total n i buf some_left h q.1)
                                  (more_sent (frames typed) sent buf total n p) next_
                          ],
                        )
                ],
              )
      ]

  -- The first bytes of a frame, when `n` of those of the length are accepted.
  length_sent :
      (line sent : List ℕ) (n : ℕ)
      → n ≤ 4
      → frames typed ≡ sent ++ frame line
      → frames typed ≡ (sent ++ take n (bytes_of (length line + 1))) ++ drop n (frame line)
  unfolding frame bytes_of
  length_sent line sent n h p =
      p
      ∙ (ap (λ t. sent ++ t)
            (sym (append-take-drop n (frame line))
              ∙ ap (λ t. t ++ drop n (frame line))
                  (take-append_left n (bytes_of (length line + 1)) (line ++ (0 ∷ [])) h))
          ∙ sym (append_assoc sent (take n (bytes_of (length line + 1))) (drop n (frame line))))

  drop-frame : (line : List ℕ) (n : ℕ) → (n == 4) ≡ true → drop n (frame line) ≡ line ++ (0 ∷ [])
  unfolding frame bytes_of
  drop-frame line n four = let same : n ≡ 4 = ground arith in ap (λ m. drop m (frame line)) same

  pub send_line-Framed :
      (write_fuel : ℕ) (line : List ℕ) (i : ℕ) (sent : List ℕ)
      → length line < 256
      → 300 + i < write_fuel
      → frames typed ≡ sent ++ frame line
      → ((j : ℕ)
          → j ≤ i
          → (all : List ℕ) → frames typed ≡ all
          → SafeIf rules Possible Framed (at left j typed all) rest)
      → SafeIf rules Possible Framed (at left i typed sent) (send_line write_fuel line >> rest)
  unfolding send_line
  send_line-Framed write_fuel line i sent short enough p next_ = (
    refl,
    elim [
      | failed e ↦ λ _.
          die-Framed {A = Unit {0}} (λ _. rest) "W : Failed to write length" left (i - 1) typed sent
            (frame line) fine p
      | done n bs ↦ λ q. elim (Bool-cases (n == 4)) [
        | inr partial ↦
            rw (partial, SafeIf, ◌>>=◌)
              (die-Framed {A = Unit {0}} (λ _. rest) "W : Failed to write length" left i typed
                (sent ++ take n (bytes_of (length line + 1))) (drop n (frame line)) fine
                (length_sent line sent n (four_bytes line n q.0) p))
        | inl whole ↦
            rw (whole, SafeIf, ◌>>=◌)
              (payload-Framed (line ++ (0 ∷ [])) write_fuel 0 i
                (sent ++ take n (bytes_of (length line + 1)))
                (omega (arith, short, enough, length-append line (0 ∷ [])))
                (length_sent line sent n (four_bytes line n q.0) p
                  ∙ ap (λ t. (sent ++ take n (bytes_of (length line + 1))) ++ t)
                      (drop-frame line n whole))
                next_)
      ]
    ],
  )
