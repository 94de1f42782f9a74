-- ===== src/OneWay/Safety.antt =====
-- What holds in every order of the steps of 10_2.
use linux_system_programming.Base.{
  Option, none, ◌⊎◌, ◌&&◌, ◌||◌, Bool, true, false, some, arith, ◌≡◌, ◌≢◌,
}
use linux_system_programming.OneWay.{
  main_wakes, start, by_main, by_t1, Shared, MainPc, create, test_work, asleep, unlock_last, join,
  main_exited, T1Pc, absent, read_arg, set_work, signal_work, unlock_work, t1_exited, dangling,
  has_ended, main_step, t1_step, val_to_pass, System, init, Step, Reach, main_runs, later, t1_runs,
}

abbrev pub main_holds : MainPc → Bool
main_holds test_work = true
main_holds unlock_last = true
main_holds q = false

abbrev pub t1_holds : T1Pc → Bool
t1_holds set_work = true
t1_holds signal_work = true
t1_holds unlock_work = true
t1_holds p = false

-- t1 has set `work_done`; it has signalled; it has read its argument.
abbrev pub has_worked : T1Pc → Bool
has_worked signal_work = true
has_worked unlock_work = true
has_worked t1_exited = true
has_worked p = false

abbrev pub has_signalled : T1Pc → Bool
has_signalled unlock_work = true
has_signalled t1_exited = true
has_signalled p = false

abbrev pub has_read : T1Pc → Bool
has_read absent = false
has_read read_arg = false
has_read dangling = false
has_read p = true

abbrev pub is_dangling : T1Pc → Bool
is_dangling dangling = true
is_dangling p = false

abbrev pub is_absent : T1Pc → Bool
is_absent absent = true
is_absent p = false

-- `main` has seen `work_done`.
abbrev pub is_informed : MainPc → Bool
is_informed unlock_last = true
is_informed join = true
is_informed main_exited = true
is_informed q = false

record Inv (s : System) : Type 0 where
  by_main_only : main_holds s.main ≡ true → s.shared.mutex ≡ some by_main
  by_t1_only : t1_holds s.t1 ≡ true → s.shared.mutex ≡ some by_t1
  not_main : main_holds s.main ≡ false → s.shared.mutex ≢ some by_main
  not_t1 : t1_holds s.t1 ≡ false → s.shared.mutex ≢ some by_t1
  created : is_absent s.t1 ≡ true → s.main ≡ create
  uncreated : s.main ≡ create → is_absent s.t1 ≡ true
  worked : s.shared.work_done ≡ has_worked s.t1
  informed : is_informed s.main ≡ true → has_worked s.t1 ≡ true
  ended : has_ended s.main ≡ true → s.t1 ≡ t1_exited
  sleeping : s.shared.main_waits ≡ true → (s.main ≡ asleep) × (has_signalled s.t1 ≡ false)
  alive : is_dangling s.t1 ≡ false
  got : has_read s.t1 ≡ true → s.shared.passed ≡ some val_to_pass

Inv-init : Inv init
Inv-init = ground arith

main-Inv :
    (m m' : Shared) (q q' : MainPc) (p p' : T1Pc)
    → Inv (record { shared = m; main = q; t1 = p })
    → main_step m p q ≡ some (m', p', q')
    → Inv (record { shared = m'; main = q'; t1 = p' })
unfolding main_step
main-Inv m m' create q' p p' h e = ground arith
main-Inv m m' q q' p p' h e = ground arith

t1-Inv :
    (m m' : Shared) (q : MainPc) (p p' : T1Pc)
    → Inv (record { shared = m; main = q; t1 = p })
    → t1_step (has_ended q) m p ≡ some (m', p')
    → Inv (record { shared = m'; main = q; t1 = p' })
unfolding t1_step
t1-Inv m m' q absent p' h e = ground arith
t1-Inv m m' q p p' h e = ground arith

Step-Inv : {s t : System} → Step s t → Inv s → Inv t
Step-Inv {s} (main_runs {m} {p} {q} e) h = main-Inv s.shared m s.main q s.t1 p h e
Step-Inv {s} (t1_runs {m} {p} e) h = t1-Inv s.shared m s.main s.t1 p h e
Step-Inv main_wakes h = ground arith

Reach-Inv : {s : System} → Reach s → Inv s
Reach-Inv start = Inv-init
Reach-Inv (later r st) = Step-Inv st (Reach-Inv r)

abbrev pub can_run {ℓ} : {A : Type ℓ} → Option A → Bool
can_run none = false
can_run (some a) = true

safe :
    (m : Shared) (q : MainPc) (p : T1Pc)
    → Inv (record { shared = m; main = q; t1 = p })
    → (main_holds q && t1_holds p ≡ false)
      × ((is_informed q ≡ false) ⊎ (has_worked p ≡ true))
      × (is_dangling p ≡ false)
      × ((has_read p ≡ false) ⊎ (m.passed ≡ some val_to_pass))
safe m q p h = ground arith

some_step :
    (m : Shared) (q : MainPc) (p : T1Pc)
    → Inv (record { shared = m; main = q; t1 = p })
    → ((q ≡ main_exited) × (p ≡ t1_exited))
      ⊎ (can_run (main_step m p q) || can_run (t1_step (has_ended q) m p) ≡ true)
unfolding main_step t1_step
some_step m create p h = ground arith
some_step m q p h = ground arith

-- In every reachable state `main` and t1 do not both hold the mutex, `main` is past its wait only if t1 has set
-- `work_done`, t1 does not read its argument from a `main` that has ended and has got 5 once it has read it, and
-- no wakeup is lost: both have ended, or one of them can run with no spurious wakeup.
pub work_signalled :
    {s : System}
    → Reach s
    → (main_holds s.main && t1_holds s.t1 ≡ false)
      × ((is_informed s.main ≡ false) ⊎ (has_worked s.t1 ≡ true))
      × (is_dangling s.t1 ≡ false)
      × ((has_read s.t1 ≡ false) ⊎ (s.shared.passed ≡ some val_to_pass))
      × (((s.main ≡ main_exited) × (s.t1 ≡ t1_exited))
          ⊎ (can_run (main_step s.shared s.t1 s.main)
                || can_run (t1_step (has_ended s.main) s.shared s.t1)
              ≡ true))
work_signalled {s} r =
    let inv = Reach-Inv r in
    let all = safe s.shared s.main s.t1 inv in
    (all.0, all.1, all.2, all.3, some_step s.shared s.main s.t1 inv)
