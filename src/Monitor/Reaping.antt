-- ===== src/Monitor/Reaping.antt =====
-- 7_2, 7_3 and 7_4: what the parent has collected when it ends.
use linux_system_programming.Base.{
  sym, ◌∙◌, length, none, List, ◌==◌, ◌⊎◌, [], ◌∷◌, ◌++◌, ◌-◌, ℕ, zero, suc, String, refl, inl, inr,
  Bool, true, false, Option, some, arith, if◌then◌else◌, ◌<◌, ◌≡◌,
}
use linux_system_programming.Sys.{
  failed, done, SafeIf, SafeIf-run, Fair, Obeys, replay, Kernel, run, Prog, pure, do_call, ◌>>◌,
}
use linux_system_programming.Monitor.{
  Call, ExitCode, minus_1, code, multiple_processes, specific_children, reap, wait_for,
  falls_through, says_killed, print_killed, status_of,
}
use linux_system_programming.Monitor.Children.{
  Ledger, start, rules, Possible, Ended, collected, member, length-remove, remove, length-nil,
  still_active,
}

module _ (F : Ledger → Option ExitCode → Type 0)
    (p : Prog Call (Option ExitCode) (Option ExitCode)) where
  killed-Safe :
      (b : Bool) (pid : ℕ) (s : Ledger)
      → SafeIf rules Possible F s p
      → SafeIf rules Possible F s ((if b then do_call (print_killed pid) else pure tt) >> p)
  killed-Safe true pid s h = (tt, λ _ _. h)
  killed-Safe false pid s h = h

  reap-Safe :
      (message : String) (s : Ledger)
      → s.child ≡ none
      → 0 < length s.children
      → F (record s { wait_failed = true }) (some minus_1)
      → ((pid : ℕ) → member pid s.children ≡ true → SafeIf rules Possible F (collected pid s) p)
      → SafeIf rules Possible F s (reap message >> p)
  unfolding reap
  reap-Safe message s parent some_child fails h = (
    (parent, some_child),
    elim [
      | failed e ↦ λ _. (tt, λ _ _. fails)
      | done pid bs ↦
          λ q. (tt, λ _ _. killed-Safe (says_killed (status_of bs)) pid (collected pid s) (h pid q))
    ],
  )

  -- `rest`: the children without the one waited for
  wait_for-Safe :
      (pid : ℕ) (wnohang : Bool) (message : String) (s : Ledger) (rest : List ℕ)
      → s.child ≡ none
      → member pid s.children ≡ true
      → remove pid s.children ≡ rest
      → F (record s { wait_failed = true }) (some minus_1)
      → (wnohang ≡ true → SafeIf rules Possible F (still_active pid s) p)
      → SafeIf rules Possible F (record s { children = rest }) p
      → SafeIf rules Possible F s (wait_for pid wnohang message >> p)
  unfolding wait_for
  wait_for-Safe pid true message s rest parent mine e fails idle h = (
    (parent, mine),
    elim [
      | failed e ↦ λ _. (tt, λ _ _. fails)
      | done zero bs ↦ λ _. (tt, λ _ _. idle refl)
      | done (suc n) bs ↦ λ q. (tt, λ _ _. rw (q.0, e) h)
    ],
  )
  wait_for-Safe pid false message s rest parent mine e fails idle h = (
    (parent, mine),
    elim [
      | failed e ↦ λ _. (tt, λ _ _. fails)
      | done zero bs ↦ λ q. absurd (ground (arith, q.0))
      | done (suc n) bs ↦ λ q. (tt, λ _ _. rw (q.0, e) h)
    ],
  )

abbrev two_children : (a b : ℕ) → Ledger
two_children a b = record (start 0) { made = a ∷ b ∷ []; children = a ∷ b ∷ [] }

last_reap :
    (s : Ledger) (pid : ℕ)
    → s.child ≡ none
    → length s.made ≡ 2
    → s.active ≡ []
    → length (remove pid s.children) ≡ 1
    → SafeIf rules Possible
        (Ended false 0 1 2)
        (collected pid s)
        (reap "--P: Wait error for 2nd child\n" >> pure (some (code 0)))
last_reap s pid parent two quiet one =
    reap-Safe (Ended false 0 1 2) _ _ (collected pid s) parent (omega (arith, one))
      (parent, ground arith)
      (λ p q.
        let none_left = length-remove p (remove pid s.children) q in
        inr (
          inr (
            inl (
              parent,
              refl,
              two,
              length-nil _ (omega (arith, one, none_left)) ∙ sym quiet,
              omega (arith, one, none_left),
            ))))

multiple-Ended : SafeIf rules Possible (Ended false 0 1 2) (start 0) multiple_processes
unfolding multiple_processes
multiple-Ended = (
  tt,
  elim [
    | failed e ↦ λ _. (tt, λ _ _. (refl, refl))
    | done zero bs ↦ λ _. (tt, λ _ _. inl (refl, refl))
    | done (suc pid) bs ↦ λ _. (
      tt,
      elim [
        | failed e ↦ λ _. (tt, λ _ _. (refl, refl))
        | done zero bs ↦ λ _. (tt, λ _ _. inr (inl (refl, refl)))
        | done (suc pid') bs ↦ λ _.
            reap-Safe (Ended false 0 1 2) _ _ (two_children (suc pid) (suc pid')) refl (omega arith)
              (refl, refl)
              (λ p q.
                let one = length-remove p (suc pid ∷ suc pid' ∷ []) q in
                last_reap (two_children (suc pid) (suc pid')) p refl refl refl (omega (arith, one)))
      ],
    )
  ],
)

-- How many children 7_3 and 7_4 can leave
abbrev pub left_by : (wnohang : Bool) → ℕ
left_by wnohang = if wnohang then 2 else 0

abbrev pub waiting : (idle : ℕ) → (made children active : List ℕ) → Ledger
waiting idle made children active = record {
  child = none;
  made = made;
  children = children;
  active = active;
  idle = idle;
  fork_failed = false;
  wait_failed = false;
}

-- The wait for the second child, when what the wait for the first one has left is in `children` and `active`
last_wait :
    (idle a b : ℕ) (active : List ℕ) (wnohang : Bool) (message : String)
    → b == a ≡ false
    → (active ≡ []) ⊎ (active ≡ a ∷ []) × (wnohang ≡ true)
    → SafeIf rules Possible
        (Ended true (left_by wnohang) 0 1)
        (waiting idle (a ∷ b ∷ []) (active ++ (b ∷ [])) active)
        (wait_for b wnohang message >> pure (some (code 0)))
last_wait idle a b active wnohang message other (inl none_active) = rw (none_active) (
    wait_for-Safe (Ended true (left_by wnohang) 0 1) _ b wnohang message
      (waiting idle (a ∷ b ∷ []) (b ∷ []) []) [] refl (ground arith) (ground arith) (refl, refl)
      (λ e. inr (inr (inl (refl, refl, refl, refl, ground (arith, e)))))
      (inr (inr (inl (refl, refl, refl, refl, ground arith)))))
last_wait idle a b active wnohang message other (inr (one_active, e)) =
    rw (one_active, e)
      (wait_for-Safe (Ended true 2 0 1) _ b true message
        (waiting idle (a ∷ b ∷ []) (a ∷ b ∷ []) (a ∷ [])) (a ∷ []) refl (ground arith)
        (ground (arith, other)) (refl, refl)
        (λ _. inr (inr (inl (refl, refl, refl, refl, omega arith))))
        (inr (inr (inl (refl, refl, refl, refl, omega arith)))))

specific-Ended :
    (idle seconds_1 seconds_2 : ℕ) (wnohang : Bool)
    → SafeIf rules Possible
        (Ended true (left_by wnohang) 0 1)
        (start idle)
        (specific_children seconds_1 seconds_2 wnohang)
unfolding specific_children falls_through
specific-Ended idle seconds_1 seconds_2 wnohang = (
  tt,
  elim [
    | failed e ↦ λ _. (tt, λ _ _. (refl, refl))
    | done zero bs ↦ λ _. (tt, λ _ _. inl (refl, refl))
    | done (suc pid_1) bs ↦ λ _. (
      tt,
      elim [
        | failed e ↦
            λ _. (tt, λ _ _. (tt, λ _ _. inr (inr (inr (refl, refl, refl, refl, refl, refl)))))
        | done zero bs ↦ λ _. (tt, λ _ _. inr (inl (refl, refl)))
        | done (suc pid_2) bs ↦ λ q.
            let other = different pid_1 pid_2 q in
            wait_for-Safe (Ended true (left_by wnohang) 0 1) _ (suc pid_1) wnohang _ _
              (suc pid_2 ∷ []) refl (ground arith) (ground arith) (refl, refl)
              (λ e.
                last_wait (idle - 1) (suc pid_1) (suc pid_2) (suc pid_1 ∷ []) wnohang _ other
                  (inr (refl, e)))
              (last_wait idle (suc pid_1) (suc pid_2) [] wnohang _ other (inl refl))
      ],
    )
  ],
)
  where
    different : (a b : ℕ) → member (suc b) (suc a ∷ []) ≡ false → suc b == suc a ≡ false
    different a b h = ground (arith, h)

abbrev pub Run :
    (falls : Bool)
    → (left first second : ℕ) → Ledger
    → Kernel Call
    → Prog Call (Option ExitCode) (Option ExitCode)
    → Type 0
Run falls left first second s k p =
    Obeys rules s (run k 0 p).events
    × Ended falls left first second (replay rules s (run k 0 p).events) (run k 0 p).status

-- In 7_2, 7_3 and 7_4, against kernels that reply as documented: a process waits only when it is a parent, and for
-- a child that it has not collected; and each of the three programs ends. A parent that returns 0 has made two
-- children, and has collected both, but in 7_4 those of which its `waitpid` said that they were active. The code -1
-- comes only from the parent, after a failed `fork` or wait. The first child ends with the first code of the
-- program, the second child with the second one; but in 7_3 and 7_4 the second code is also that of a parent whose
-- second `fork` failed, which leaves its first child uncollected.
pub parents_collect :
    (k l : Kernel Call) (idle seconds_1 seconds_2 : ℕ) (wnohang : Bool)
    → Fair rules Possible (start 0) (run k 0 multiple_processes).events
    → Fair rules Possible
        (start idle)
        (run l 0 (specific_children seconds_1 seconds_2 wnohang)).events
    → Run false 0 1 2 (start 0) k multiple_processes
      × Run true
          (left_by wnohang)
          0
          1
          (start idle)
          l
          (specific_children seconds_1 seconds_2 wnohang)
parents_collect k l idle seconds_1 seconds_2 wnohang fair fair' = (
  SafeIf-run rules Possible (Ended false 0 1 2) k 0 (start 0) multiple_processes fair
      multiple-Ended,
  SafeIf-run rules Possible (Ended true (left_by wnohang) 0 1) l 0 (start idle) _ fair'
      (specific-Ended idle seconds_1 seconds_2 wnohang),
)
