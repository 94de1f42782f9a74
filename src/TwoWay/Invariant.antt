-- ===== src/TwoWay/Invariant.antt =====
-- What ties the mutex, the flags and the two positions together.
use linux_system_programming.Base.{Bool, true, false, Option, none, some, arith, ◌≡◌, ◌⊎◌, ◌&&◌}
use linux_system_programming.TwoWay.{
  Who, by_main, by_t1, Shared, MainPc, lock_first, test_ready, asleep_ready, set_proceed,
  signal_proceed, lock_second, asleep_done, unlock_second, join, main_exited, T1Pc, lock_ready,
  set_ready, signal_ready, test_proceed, asleep_proceed, work, lock_done, signal_done, unlock_done,
  t1_exited, main_step, System, init, t1_step, Step, Reach, main_runs, later, has_exited, t1_runs,
  main_wakes, t1_wakes, start,
}

abbrev pub main_holds : MainPc → Bool
main_holds lock_first = false
main_holds asleep_ready = false
main_holds lock_second = false
main_holds asleep_done = false
main_holds join = false
main_holds main_exited = false
main_holds p = true

abbrev pub t1_holds : T1Pc → Bool
t1_holds lock_ready = false
t1_holds asleep_proceed = false
t1_holds work = false
t1_holds lock_done = false
t1_holds t1_exited = false
t1_holds p = true

abbrev pub owner : Bool → Bool → Option Who
owner true t = some by_main
owner false true = some by_t1
owner false false = none

-- t1 has set `t1_ready`.
abbrev pub reported : T1Pc → Bool
reported lock_ready = false
reported set_ready = false
reported p = true

-- `main` has seen it.
abbrev pub heard : MainPc → Bool
heard lock_first = false
heard test_ready = false
heard asleep_ready = false
heard p = true

-- `main` has set `t1_to_proceed`.
abbrev pub commanded : MainPc → Bool
commanded set_proceed = false
commanded p = heard p

-- t1 has seen it.
abbrev pub started : T1Pc → Bool
started test_proceed = false
started asleep_proceed = false
started signal_ready = false
started p = reported p

-- t1 has set `t1_done`.
abbrev pub finished : T1Pc → Bool
finished signal_done = true
finished unlock_done = true
finished t1_exited = true
finished p = false

-- `main` has seen it.
abbrev pub informed : MainPc → Bool
informed unlock_second = true
informed join = true
informed main_exited = true
informed p = false

-- While `main` waits for a signal, t1 has still to send it.
abbrev pub Awaited : MainPc → T1Pc → Type 0
Awaited asleep_ready p = (reported p ≡ false) ⊎ (p ≡ signal_ready)
Awaited asleep_done p = (finished p ≡ false) ⊎ (p ≡ signal_done)
Awaited q p = ⊥

-- While t1 waits for a signal, `main` has still to send it.
abbrev pub Wanted : T1Pc → MainPc → Type 0
Wanted asleep_proceed q = (commanded q ≡ false) ⊎ (q ≡ signal_proceed)
Wanted p q = ⊥

pub record Inv (s : System) : Type 0 where
  pub excluded : main_holds s.main && t1_holds s.t1 ≡ false
  pub held : s.shared.mutex ≡ owner (main_holds s.main) (t1_holds s.t1)
  pub ready : s.shared.t1_ready ≡ reported s.t1
  pub proceed : s.shared.t1_to_proceed ≡ commanded s.main
  pub done_set : s.shared.t1_done ≡ finished s.t1
  pub after_ready : heard s.main ≡ true → reported s.t1 ≡ true
  pub after_proceed : started s.t1 ≡ true → commanded s.main ≡ true
  pub after_done : informed s.main ≡ true → finished s.t1 ≡ true
  pub main_asleep : s.shared.main_waits ≡ true → Awaited s.main s.t1
  pub t1_asleep : s.shared.t1_waits ≡ true → Wanted s.t1 s.main

Inv-init : Inv init
Inv-init = ground arith

main-Inv :
    (j : Bool) (m m' : Shared) (q q' : MainPc) (p : T1Pc)
    → Inv (record { shared = m; main = q; t1 = p })
    → main_step j m q ≡ some (m', q')
    → Inv (record { shared = m'; main = q'; t1 = p })
unfolding main_step
main-Inv j m m' lock_first q' p h e = ground arith
main-Inv j m m' q q' p h e = ground arith

t1-Inv :
    (m m' : Shared) (q : MainPc) (p p' : T1Pc)
    → Inv (record { shared = m; main = q; t1 = p })
    → t1_step m p ≡ some (m', p')
    → Inv (record { shared = m'; main = q; t1 = p' })
unfolding t1_step
t1-Inv m m' q lock_ready p' h e = ground arith
t1-Inv m m' q p p' h e = ground arith

-- Every step keeps the invariant.
pub Step-Inv : {s t : System} → Step s t → Inv s → Inv t
Step-Inv {s} (main_runs {m} {p} e) h = main-Inv (has_exited s.t1) s.shared m s.main p s.t1 h e
Step-Inv {s} (t1_runs {m} {p} e) h = t1-Inv s.shared m s.main s.t1 p h e
Step-Inv main_wakes h = ground arith
Step-Inv t1_wakes h = ground arith

pub Reach-Inv : {s : System} → Reach s → Inv s
Reach-Inv start = Inv-init
Reach-Inv (later r st) = Step-Inv st (Reach-Inv r)
