-- ===== src/Counter/Main.antt =====
-- A step of `main` keeps the invariant, and so it holds in every reachable state.
use linux_system_programming.Counter.Threads.{added_by_all, thread-Inv}
use linux_system_programming.Counter.Invariant.{
  inside, holds, added, running, Fine, Stage, Inv, Inv-init,
}
use linux_system_programming.Base.{
  none, Bool-cases, take_all, Option, get_or, ltb, ◌<◌, length-append, inl, inr, [], ◌∷◌, ◌++◌,
  take, All, ℕ, suc, Bool, true, false, some, List, arith, ◌+◌, ◌≡◌,
}
use linux_system_programming.Counter.{
  start, later, Pc, wait_sem, Shared, MainPc, creating, joining, printed, gone, System, is_returned,
  cnt_threads, main_step, Step, Reach, main_runs, later, thread_runs,
}
use linux_system_programming.Counter.Tally.{tally, tally-append, tally-take-suc}
use mathlib.Core.Path.{subst}
use mathlib.Core.Option.{some-injective}

All-append : (g : ℕ) (ps qs : List Pc) → All (Fine g) ps → All (Fine g) qs → All (Fine g) (ps ++ qs)
All-append g [] qs h k = k
All-append g (p ∷ ps) qs h k = (h.0, All-append g ps qs h.1 k)

suc_plus : (i : ℕ) → suc i ≡ i + 1
suc_plus i = omega arith

returned_idle : (p : Pc) → is_returned p ≡ true → running p ≡ 0
returned_idle p h = ground arith

module _ (sh : Shared) (ps : List Pc) (i : ℕ) where
  created-Inv :
      i < 3
      → Inv (record { shared = sh; threads = ps; main = creating i })
      → Inv (record { shared = sh; threads = ps ++ (wait_sem ∷ []); main = creating (i + 1) })
  created-Inv lt h = record {
    counted = omega (arith, h.counted, tally-append inside ps (wait_sem ∷ []));
    excluded = omega (arith, h.excluded, tally-append holds ps (wait_sem ∷ []));
    summed = omega (arith, h.summed, tally-append added ps (wait_sem ∷ []));
    fine = All-append sh.glob ps (wait_sem ∷ []) h.fine (tt, tt);
    stage = omega (arith, lt, h.stage, length-append ps (wait_sem ∷ []));
  }

  main_only :
      (m m' : MainPc)
      → (Stage ps m → Stage ps m')
      → Inv (record { shared = sh; threads = ps; main = m })
      → Inv (record { shared = sh; threads = ps; main = m' })
  main_only m m' f h = record {
    counted = h.counted;
    excluded = h.excluded;
    summed = h.summed;
    fine = h.fine;
    stage = f h.stage;
  }

  joined-Inv :
      i < 3
      → is_returned (get_or ps i wait_sem) ≡ true
      → Stage ps (joining i)
      → Stage ps (joining (i + 1))
  joined-Inv lt r st = (
    st.0,
    omega (arith, lt),
    subst (λ k. tally running (take k ps) ≡ 0) (suc_plus i)
        (omega (
          arith,
          st.2,
          tally-take-suc running i ps wait_sem,
          returned_idle (get_or ps i wait_sem) r,
        )),
  )

  printed-Inv :
      Inv (record { shared = sh; threads = ps; main = joining i })
      → ltb i cnt_threads ≡ false
      → Inv (record { shared = sh; threads = ps; main = printed sh.glob })
  printed-Inv h past =
      main_only (joining i) (printed sh.glob)
        (λ st.
          (let all_joined = tally running (take i ps) in
            let whole : take i ps ≡ ps = take_all i ps (ground (arith, past, st.0)) in
            omega (arith, h.summed, added_by_all 3 ps st.0 (rw whole at (st.2)))))
        h

some-eq : (s t : System) → ◌≡◌ {A = Option System} (some s) (some t) → s ≡ t
some-eq s t e = some-injective s t e

main-Inv :
    (ok : Bool) (sh : Shared) (ps : List Pc) (m : MainPc) (t : System)
    → main_step ok (record { shared = sh; threads = ps; main = m }) m ≡ some t
    → Inv (record { shared = sh; threads = ps; main = m })
    → Inv t
unfolding main_step
main-Inv true sh ps (creating i) t e h = elim (Bool-cases (ltb i cnt_threads)) [
  | inr past ↦
      subst Inv (some-eq _ t (rw past at e))
        (main_only sh ps i (creating i) (joining 0) (λ st. ground (arith, past, st)) h)
  | inl more ↦ subst Inv (some-eq _ t (rw more at e)) (created-Inv sh ps i (ground (arith, more)) h)
]
main-Inv false sh ps (creating i) t e h = elim (Bool-cases (ltb i cnt_threads)) [
  | inr past ↦
      subst Inv (some-eq _ t (rw past at e))
        (main_only sh ps i (creating i) (joining 0) (λ st. ground (arith, past, st)) h)
  | inl more ↦
      subst Inv (some-eq _ t (rw more at e)) (main_only sh ps i (creating i) gone (λ _. tt) h)
]
main-Inv true sh ps (joining i) t e h = elim (Bool-cases (ltb i cnt_threads)) [
  | inr past ↦ subst Inv (some-eq _ t (rw past at e)) (printed-Inv sh ps i h past)
  | inl more ↦ elim (Bool-cases (is_returned (get_or ps i wait_sem))) [
    | inl over ↦ subst Inv (some-eq _ t (rw (more, over) at e)) (
        main_only sh ps i (joining i) (joining (i + 1))
          (joined-Inv sh ps i (ground (arith, more)) over) h)
    | inr blocked ↦
        absurd (let stuck : ◌≡◌ {A = Option System} none (some t) = rw (more, blocked) at e in cc)
  ]
]
main-Inv false sh ps (joining i) t e h = elim (Bool-cases (ltb i cnt_threads)) [
  | inr past ↦ subst Inv (some-eq _ t (rw past at e)) (printed-Inv sh ps i h past)
  | inl more ↦
      subst Inv (some-eq _ t (rw more at e)) (main_only sh ps i (joining i) gone (λ _. tt) h)
]
main-Inv ok sh ps (printed g) t e h = ground arith
main-Inv ok sh ps gone t e h = ground arith

-- Every step keeps the invariant.
pub Step-Inv : {s t : System} → Step s t → Inv s → Inv t
Step-Inv {s} {t} (main_runs ok e) h = main-Inv ok s.shared s.threads s.main t e h
Step-Inv {s} (thread_runs {m} {p} ok before after q here e) h =
    thread-Inv s.shared m s.main before after p q ok e
      (subst (λ ps. Inv (record { shared = s.shared; threads = ps; main = s.main })) here h)

pub Reach-Inv : {s : System} → Reach s → Inv s
Reach-Inv start = Inv-init
Reach-Inv (later r st) = Step-Inv st (Reach-Inv r)
