-- ===== src/Files/Write/Complete.antt =====
-- `write_to_a_file_safer` against a kernel whose writes accept at least one byte where they are given
-- one, and no more than they are given.
use linux_system_programming.Sys.{
  Fair, SafeIf-run, Kernel, run, replay, SafeIf, Reply, failed, done, Rules, ◌>>=◌,
}
use linux_system_programming.Base.{
  min, take_all, refl, ◌∙◌, [], take-add, length-drop, true, arith, Bool-cases, length, take, ltb,
  ℕ, zero, suc, inl, inr, Bool, false, Option, none, some, List, ◌==◌, if◌then◌else◌, ◌+◌, ◌≤◌, ◌<◌,
  ◌≡◌, ◌++◌,
}
use linux_system_programming.Files.{Call, write, Fd, fd, bad, Libc, ExitType, success}
use linux_system_programming.Files.Write.{write_loop, after_loop, write_to_a_file_safer}

abbrev pub Accepting : List ℕ → Call → Reply → Type 0
Accepting sent (write f bs) (done n bytes) = (min 1 (length bs) ≤ n) × (n ≤ length bs)
Accepting sent c r = Unit

abbrev is_fd : ℕ → Fd → Bool
is_fd f (fd g) = g == f
is_fd f bad = false

-- The bytes that descriptor `f` has accepted.
abbrev pub accept : ℕ → List ℕ → Call → Reply → List ℕ
accept f sent (write g bs) (done n bytes) = if is_fd f g then sent ++ take n bs else sent
accept f sent c r = sent

abbrev pub accepted : ℕ → Rules Call
accepted f = record { Ledger = List ℕ; Allowed = λ s c. Unit; step = accept f }

-- On success all of `buf` has been accepted, in order; on an error a beginning of it. The result is
-- there.
abbrev pub Wrote : List ℕ → List ℕ → Option ExitType → Type 0
Wrote buf sent none = ⊥
Wrote buf sent (some success) = sent ≡ buf
Wrote buf sent (some e) = (m : ℕ) × (sent ≡ take m buf)

module _ (c : Libc) (f : ℕ) (buf : List ℕ) (high : 3 ≤ f) where
  -- What goes to another descriptor is not counted.
  others : (g : ℕ) (bs sent : List ℕ) (r : Reply) → g < 3 → accept f sent (write (fd g) bs) r ≡ sent
  others g bs sent (failed e) h = refl
  others g bs sent (done n bytes) h = ground arith

  loop-Wrote :
      (fuel total : ℕ)
      → length buf < total + fuel
      → total ≤ length buf
      → SafeIf
          (accepted f)
          Accepting
          (Wrote buf)
          (take total buf)
          (write_loop c fuel f buf total >>= after_loop c f)
  unfolding write_loop after_loop
  loop-Wrote zero total h le = absurd (omega arith)
  loop-Wrote (suc fuel) total h le = elim (Bool-cases (ltb total (length buf))) [
    | inl more ↦
        rw (more, SafeIf, ◌>>=◌)
          (
            tt,
            elim [
              | failed e ↦ λ _. (
                tt,
                λ _ _. (
                  tt,
                  λ _ _. (
                    tt,
                    elim [
                      | failed _ ↦ λ _. (
                        tt,
                        λ _ _. (
                          tt,
                          λ _ _.
                              (total, others 2 _ _ _ (omega arith) ∙ others 2 _ _ _ (omega arith)),
                        ),
                      )
                      | done _ _ ↦ λ _. (total, others 2 _ _ _ (omega arith))
                    ],
                  ),
                ),
              )
              | done n bytes ↦ λ p. rw is_self (
                  rw (← take-add total n buf) (
                    loop-Wrote fuel (total + n) (omega (arith, length-drop total buf, less))
                      (omega (arith, length-drop total buf))))
            ],
          )
    | inr enough ↦
        rw (enough, SafeIf, ◌>>=◌)
          (tt, λ _ _. others 1 _ _ _ (omega arith) ∙ take_all total buf (ground arith))
  ]
    where
      less : ltb total (length buf) ≡ true → total < length buf
      less e = ground arith

      is_self : (f == f) ≡ true
      is_self = ground arith

-- With fuel above the length and a kernel whose writes fail or accept at least a byte and no more than they are given, `write_to_a_file_safer`
-- comes to a result: on SUCCESS the descriptor has accepted exactly the bytes of the buffer in order,
-- and on an error a beginning of them.
pub write_safer_complete :
    (c : Libc) (f fuel : ℕ) (buf : List ℕ) (k : Kernel Call)
    → 3 ≤ f
    → length buf < fuel
    → Fair (accepted f) Accepting [] (run k 0 (write_to_a_file_safer c fuel f buf)).events
    → Wrote buf
        (replay (accepted f) [] (run k 0 (write_to_a_file_safer c fuel f buf)).events)
        (run k 0 (write_to_a_file_safer c fuel f buf)).status
unfolding write_to_a_file_safer
write_safer_complete c f fuel buf k high enough fair =
    (SafeIf-run (accepted f) Accepting (Wrote buf) k 0 [] _ fair
      (loop-Wrote c f buf high fuel 0 (omega arith) (omega arith))).1
