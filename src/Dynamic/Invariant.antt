-- ===== src/Dynamic/Invariant.antt =====
-- What ties the shared object to the places where the two threads stand.
use linux_system_programming.Base.{
  refl, ltb, ℕ, Bool, true, false, Option, none, some, arith, ◌≡◌, ◌⊎◌, ◌&&◌,
}
use linux_system_programming.Dynamic.{
  t1_wakes, start, main_wakes, Who, by_main, by_t1, Shared, Cleanup, destroy_mutex,
  destroy_from_main, destroy_from_t1, free_data, MainPc, lock, test_ready, asleep_ready,
  set_proceed, signal_proceed, unlock, join, main_cleans, main_exited, T1Pc, t1_lock, set_ready,
  signal_ready, test_proceed, asleep_proceed, t1_unlock, t1_cleans, t1_exited, moves, main_step,
  t1_step, System, has_exited, init, Step, Reach, main_runs, later, t1_runs,
}

abbrev pub main_holds : MainPc → Bool
main_holds test_ready = true
main_holds set_proceed = true
main_holds signal_proceed = true
main_holds unlock = true
main_holds p = false

abbrev pub t1_holds : T1Pc → Bool
t1_holds set_ready = true
t1_holds signal_ready = true
t1_holds test_proceed = true
t1_holds t1_unlock = true
t1_holds p = false

abbrev pub owner : Bool → Bool → Option Who
owner true t = some by_main
owner false true = some by_t1
owner false false = none

-- t1 has set `t1_ready`.
abbrev pub reported : T1Pc → Bool
reported t1_lock = false
reported set_ready = false
reported p = true

-- `main` has set `t1_to_proceed`.
abbrev pub commanded : MainPc → Bool
commanded lock = false
commanded test_ready = false
commanded asleep_ready = false
commanded set_proceed = false
commanded p = true

-- `main` has done with the mutex.
abbrev pub released : MainPc → Bool
released signal_proceed = false
released unlock = false
released p = commanded p

-- t1 has seen `t1_to_proceed`.
abbrev pub started : T1Pc → Bool
started signal_ready = false
started test_proceed = false
started asleep_proceed = false
started p = reported p

-- How far a clean-up has come: 1 to 4 at its steps, 5 after it.
abbrev pub stage : Cleanup → ℕ
stage destroy_mutex = 1
stage destroy_from_main = 2
stage destroy_from_t1 = 3
stage free_data = 4

abbrev pub cleaned : (cleaner : Who) → MainPc → T1Pc → ℕ
cleaned by_main (main_cleans x) p = stage x
cleaned by_main main_exited p = 5
cleaned by_t1 q (t1_cleans x) = stage x
cleaned by_t1 q t1_exited = 5
cleaned c q p = 0

-- Each program has its clean-up in one thread only.
abbrev pub Belongs : (cleaner : Who) → MainPc → T1Pc → Type 0
Belongs by_main q (t1_cleans x) = ⊥
Belongs by_main (main_cleans x) p = p ≡ t1_exited
Belongs by_main main_exited p = p ≡ t1_exited
Belongs by_t1 join p = ⊥
Belongs by_t1 (main_cleans x) p = ⊥
Belongs c q p = Unit

-- While a thread waits for a signal, the other has still to send it.
abbrev pub Awaited : MainPc → T1Pc → Type 0
Awaited asleep_ready p = (reported p ≡ false) ⊎ (p ≡ signal_ready)
Awaited q p = ⊥

abbrev pub Wanted : T1Pc → MainPc → Type 0
Wanted asleep_proceed q = (commanded q ≡ false) ⊎ (q ≡ signal_proceed)
Wanted p q = ⊥

pub record Inv (c : Who) (s : System) : Type 0 where
  pub excluded : main_holds s.main && t1_holds s.t1 ≡ false
  pub held : s.shared.mutex ≡ owner (main_holds s.main) (t1_holds s.t1)
  pub ready : s.shared.t1_ready ≡ reported s.t1
  pub proceed : s.shared.t1_to_proceed ≡ commanded s.main
  pub after_proceed : started s.t1 ≡ true → released s.main ≡ true
  pub belongs : Belongs c s.main s.t1
  pub mutex_live : s.shared.mutex_live ≡ ltb (cleaned c s.main s.t1) 2
  pub from_main_live : s.shared.from_main_live ≡ ltb (cleaned c s.main s.t1) 3
  pub from_t1_live : s.shared.from_t1_live ≡ ltb (cleaned c s.main s.t1) 4
  pub allocated : s.shared.allocated ≡ ltb (cleaned c s.main s.t1) 5
  pub main_asleep : s.shared.main_waits ≡ true → Awaited s.main s.t1
  pub t1_asleep : s.shared.t1_waits ≡ true → Wanted s.t1 s.main

Inv-init : (c : Who) → Inv c init
Inv-init by_main = ground arith
Inv-init by_t1 = ground arith

main-Inv :
    (c : Who) (j : Bool) (m m' : Shared) (q q' : MainPc) (p : T1Pc)
    → j ≡ has_exited p
    → Inv c (record { shared = m; main = q; t1 = p })
    → main_step c j m q ≡ moves m' q'
    → Inv c (record { shared = m'; main = q'; t1 = p })
unfolding main_step
main-Inv by_main j m m' q q' p x h e = ground arith
main-Inv by_t1 j m m' q q' p x h e = ground arith

t1-Inv :
    (c : Who) (m m' : Shared) (q : MainPc) (p p' : T1Pc)
    → Inv c (record { shared = m; main = q; t1 = p })
    → t1_step c m p ≡ moves m' p'
    → Inv c (record { shared = m'; main = q; t1 = p' })
unfolding t1_step
t1-Inv by_main m m' q p p' h e = ground arith
t1-Inv by_t1 m m' q p p' h e = ground arith

-- Every step keeps the invariant.
pub Step-Inv : {c : Who} {s t : System} → Step c s t → Inv c s → Inv c t
Step-Inv {c} {s} (main_runs {m} {p} e) h =
    main-Inv c (has_exited s.t1) s.shared m s.main p s.t1 refl h e
Step-Inv {c} {s} (t1_runs {m} {p} e) h = t1-Inv c s.shared m s.main s.t1 p h e
Step-Inv main_wakes h = ground arith
Step-Inv t1_wakes h = ground arith

pub Reach-Inv : {c : Who} {s : System} → Reach c s → Inv c s
Reach-Inv {c} start = Inv-init c
Reach-Inv (later r st) = Step-Inv st (Reach-Inv r)
