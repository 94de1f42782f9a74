-- ===== src/Cancel/Invariant.antt =====
-- What ties the mutex, the flags and the counter to the places where the two threads stand.
use linux_system_programming.Base.{
  ℕ, Bool, true, false, Option, none, some, arith, ◌+◌, ◌≤◌, ◌<◌, ◌≡◌, ◌⊎◌, ◌&&◌,
}
use linux_system_programming.Cancel.{
  print_end, end_cancelled, is_own, Who, by_main, by_t1, Shared, MainPc, lock_first, test_ready,
  asleep_ready, set_continue, signal_continue, lock_second, asleep_counter, cancel, unlock_second,
  main_exited, T1Pc, lock_ready, set_ready, signal_ready, test_continue, asleep_continue,
  unlock_ready, test_loop, lock_count, count_one, signal_count, unlock_count, test_cancel,
  t1_exited, t1_cancelled, main_step, t1_step, System, Step, main_runs, t1_runs, main_wakes,
  t1_wakes, init, Reach, start, later, max_count, count_to_stop,
}

abbrev pub main_holds : MainPc → Bool
main_holds lock_first = false
main_holds asleep_ready = false
main_holds lock_second = false
main_holds asleep_counter = false
main_holds main_exited = false
main_holds p = true

abbrev pub t1_holds : T1Pc → Bool
t1_holds set_ready = true
t1_holds signal_ready = true
t1_holds test_continue = true
t1_holds unlock_ready = true
t1_holds (count_one i) = true
t1_holds (signal_count i) = true
t1_holds (unlock_count i) = true
t1_holds p = false

abbrev pub owner : Bool → Bool → Option Who
owner true t = some by_main
owner false true = some by_t1
owner false false = none

-- t1 has set `t1_ready`.
abbrev pub reported : T1Pc → Bool
reported lock_ready = false
reported set_ready = false
reported p = true

-- `main` has set `t1_to_continue`.
abbrev pub commanded : MainPc → Bool
commanded lock_first = false
commanded test_ready = false
commanded asleep_ready = false
commanded set_continue = false
commanded p = true

-- t1 has seen it.
abbrev pub started : T1Pc → Bool
started signal_ready = false
started test_continue = false
started asleep_continue = false
started p = reported p

-- `main` has called `pthread_cancel`.
abbrev pub has_cancelled : MainPc → Bool
has_cancelled unlock_second = true
has_cancelled main_exited = true
has_cancelled p = false

-- `main` has seen the counter at COUNT_TO_STOP.
abbrev pub has_stopped : MainPc → Bool
has_stopped cancel = true
has_stopped p = has_cancelled p

-- How far t1 has counted; after its end `c`, which the shared counter shows.
abbrev pub count_of : ℕ → T1Pc → ℕ
count_of c (test_loop i) = i
count_of c (lock_count i) = i
count_of c (count_one i) = i
count_of c (signal_count i) = i + 1
count_of c (unlock_count i) = i + 1
count_of c (test_cancel i) = i + 1
count_of c print_end = max_count
count_of c t1_exited = max_count
count_of c (t1_cancelled h) = c
count_of c p = 0

-- Inside the loop the variable is below its bound.
abbrev pub InLoop : T1Pc → Type 0
InLoop (test_loop i) = i ≤ max_count
InLoop (lock_count i) = i < max_count
InLoop (count_one i) = i < max_count
InLoop (signal_count i) = i < max_count
InLoop (unlock_count i) = i < max_count
InLoop (test_cancel i) = i < max_count
InLoop (t1_cancelled holding) = holding ≡ false
InLoop p = Unit

-- t1 has ended by cancellation.
abbrev pub is_cancelled : T1Pc → Bool
is_cancelled (t1_cancelled h) = true
is_cancelled p = false

abbrev pub is_signalling : T1Pc → Bool
is_signalling signal_ready = true
is_signalling (signal_count i) = true
is_signalling p = false

-- While a thread waits for a signal, the other has still to send it.
abbrev pub Awaited : ℕ → MainPc → T1Pc → Type 0
Awaited c asleep_ready p = (reported p ≡ false) ⊎ (is_signalling p ≡ true)
Awaited c asleep_counter p = (c < count_to_stop) ⊎ (is_signalling p ≡ true)
Awaited c q p = ⊥

abbrev pub Wanted : T1Pc → MainPc → Type 0
Wanted asleep_continue q = (commanded q ≡ false) ⊎ (q ≡ signal_continue)
Wanted p q = ⊥

pub record Inv (s : System) : Type 0 where
  pub excluded : main_holds s.main && t1_holds s.t1 ≡ false
  pub held : s.shared.mutex ≡ owner (main_holds s.main) (t1_holds s.t1)
  pub ready : s.shared.t1_ready ≡ reported s.t1
  pub continue_set : s.shared.t1_to_continue ≡ commanded s.main
  pub after_continue : started s.t1 ≡ true → commanded s.main ≡ true
  pub counted : s.shared.counter ≡ count_of s.shared.counter s.t1
  pub bounded : s.shared.counter ≤ max_count
  pub in_loop : InLoop s.t1
  pub cancel_set : s.shared.cancelled ≡ has_cancelled s.main
  pub after_cancel : is_cancelled s.t1 ≡ true → has_cancelled s.main ≡ true
  pub after_stop : has_stopped s.main ≡ true → count_to_stop ≤ s.shared.counter
  pub main_asleep : s.shared.main_waits ≡ true → Awaited s.shared.counter s.main s.t1
  pub t1_asleep : s.shared.t1_waits ≡ true → Wanted s.t1 s.main

Inv-init : Inv init
Inv-init = ground arith

main-Inv :
    (m m' : Shared) (q q' : MainPc) (p : T1Pc)
    → Inv (record { shared = m; main = q; t1 = p })
    → main_step m q ≡ some (m', q')
    → Inv (record { shared = m'; main = q'; t1 = p })
unfolding main_step
main-Inv m m' lock_first q' p h e = ground arith
main-Inv m m' q q' p h e = ground arith

t1-Inv :
    (m m' : Shared) (q : MainPc) (p p' : T1Pc)
    → Inv (record { shared = m; main = q; t1 = p })
    → t1_step m p ≡ some (m', p')
    → Inv (record { shared = m'; main = q; t1 = p' })
unfolding t1_step
t1-Inv m m' q lock_ready p' h e = ground arith
t1-Inv m m' q p p' h e = ground arith

cancelled-Inv :
    (m : Shared) (q : MainPc) (p : T1Pc)
    → p ≡ print_end
    → m.cancelled ≡ true
    → Inv (record { shared = m; main = q; t1 = p })
    → Inv (record { shared = m; main = q; t1 = t1_cancelled (is_own m) })
cancelled-Inv m lock_first p at e h = ground arith
cancelled-Inv m q p at e h = ground arith

-- Every step keeps the invariant.
pub Step-Inv : {s t : System} → Step s t → Inv s → Inv t
Step-Inv {s} (main_runs {m} {p} e) h = main-Inv s.shared m s.main p s.t1 h e
Step-Inv {s} (t1_runs {m} {p} e) h = t1-Inv s.shared m s.main s.t1 p h e
Step-Inv main_wakes h = ground arith
Step-Inv t1_wakes h = ground arith
Step-Inv {s} (end_cancelled at e) h = cancelled-Inv s.shared s.main s.t1 at e h

pub Reach-Inv : {s : System} → Reach s → Inv s
Reach-Inv start = Inv-init
Reach-Inv (later r st) = Step-Inv st (Reach-Inv r)
