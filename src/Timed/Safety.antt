-- ===== src/Timed/Safety.antt =====
-- What holds in every order of the calls of 10_6.
use linux_system_programming.Base.{
  Bool-cases, refl, inl, inr, ◌&&◌, Bool, true, false, Option, none, some, arith, ◌≡◌, ◌≢◌, ◌⊎◌,
}
use linux_system_programming.Sys.{success, Status, failure}
use linux_system_programming.Timed.{
  lock_t1, start, Who, by_t1, by_t2, MainPc, create_t1, detach_t2, main_exited, T1Pc, t1_absent,
  spin, T2Pc, t2_absent, timed_lock, unlock_t2, System, main_step, t1_step, t2_step, init, Step,
  Reach, main_runs, later, t1_runs, t2_runs, Later, now, read_clock, create_t2, nap, detach_t1,
  t2_exited, further,
}

abbrev pub t1_holds : T1Pc → Bool
t1_holds spin = true
t1_holds p = false

abbrev pub t2_holds : T2Pc → Bool
t2_holds unlock_t2 = true
t2_holds p = false

-- t2 waits in `pthread_mutex_timedlock`.
abbrev pub t2_wants : T2Pc → Bool
t2_wants timed_lock = true
t2_wants p = false

record Inv (s : System) : Type 0 where
  by_t1_only : t1_holds s.t1 ≡ true → s.mutex ≡ some by_t1
  by_t2_only : t2_holds s.t2 ≡ true → s.mutex ≡ some by_t2
  not_t1 : t1_holds s.t1 ≡ false → s.mutex ≢ some by_t1
  not_t2 : t2_holds s.t2 ≡ false → s.mutex ≢ some by_t2
  timed_out :
      (s.status ≡ none)
      ⊎ ((s.status ≡ some failure) × (t1_holds s.t1 ≡ true) × (t2_wants s.t2 ≡ true))
  begun : s.t1 ≡ t1_absent → s.main ≡ create_t1
  before : s.main ≡ create_t1 → (s.t1 ≡ t1_absent) × (s.t2 ≡ t2_absent)
  before_t2 : s.t2 ≢ t2_absent → (s.main ≡ detach_t2) ⊎ (s.main ≡ main_exited)
  after_t2 : (s.main ≡ detach_t2) ⊎ (s.main ≡ main_exited) → s.t2 ≢ t2_absent

abbrev system : Option Who → Option Status → MainPc → T1Pc → T2Pc → System
system m e q a b = record { mutex = m; status = e; main = q; t1 = a; t2 = b }

Inv-init : Inv init
Inv-init = ground arith

main-Inv :
    (m : Option Who) (e : Option Status) (q : MainPc) (a : T1Pc) (b : T2Pc) (t : System)
    → e ≡ none
    → Inv (system m e q a b)
    → main_step (system m e q a b) q ≡ some t
    → Inv t
unfolding main_step
main-Inv m e q a b t live h x = ground arith

t1-Inv :
    (m : Option Who) (e : Option Status) (q : MainPc) (a : T1Pc) (b : T2Pc) (t : System)
    → e ≡ none
    → Inv (system m e q a b)
    → t1_step (system m e q a b) a ≡ some t
    → Inv t
unfolding t1_step
t1-Inv m e q a b t live h x = ground arith

t2-Inv :
    (late : Bool) (m : Option Who) (e : Option Status) (q : MainPc) (a : T1Pc) (b : T2Pc)
    (t : System)
    → e ≡ none
    → Inv (system m e q a b)
    → t2_step late (system m e q a b) b ≡ some t
    → Inv t
unfolding t2_step
t2-Inv late m e q a b t live h x = ground arith

Step-Inv : {s t : System} → Step s t → Inv s → Inv t
Step-Inv {s} {t} (main_runs live x) h = main-Inv s.mutex s.status s.main s.t1 s.t2 t live h x
Step-Inv {s} {t} (t1_runs live x) h = t1-Inv s.mutex s.status s.main s.t1 s.t2 t live h x
Step-Inv {s} {t} (t2_runs late live x) h = t2-Inv late s.mutex s.status s.main s.t1 s.t2 t live h x

Reach-Inv : {s : System} → Reach s → Inv s
Reach-Inv start = Inv-init
Reach-Inv (later r st) = Step-Inv st (Reach-Inv r)

safe :
    (m : Option Who) (e : Option Status) (q : MainPc) (a : T1Pc) (b : T2Pc)
    → Inv (system m e q a b)
    → (t1_holds a && t2_holds b ≡ false)
      × ((t1_holds a ≡ false) ⊎ (m ≡ some by_t1))
      × ((e ≡ none) ⊎ ((e ≡ some failure) × (t1_holds a ≡ true) × (t2_wants b ≡ true)))
safe m e q a b h = ground arith

-- What a step leaves to t1
abbrev Kept : System → Type 0
Kept t = (t1_holds t.t1 ≡ true) × (t.mutex ≡ some by_t1)

main-Kept :
    (m : Option Who) (e : Option Status) (q : MainPc) (a : T1Pc) (b : T2Pc) (t : System)
    → Inv (system m e q a b)
    → t1_holds a ≡ true
    → main_step (system m e q a b) q ≡ some t
    → Kept t
unfolding main_step
main-Kept m e q a b t h keeps x = ground arith

t1-Kept :
    (m : Option Who) (e : Option Status) (q : MainPc) (a : T1Pc) (b : T2Pc) (t : System)
    → Inv (system m e q a b)
    → t1_holds a ≡ true
    → t1_step (system m e q a b) a ≡ some t
    → Kept t
unfolding t1_step
t1-Kept m e q a b t h keeps x = ground arith

t2-Kept :
    (late : Bool) (m : Option Who) (e : Option Status) (q : MainPc) (a : T1Pc) (b : T2Pc)
    (t : System)
    → Inv (system m e q a b)
    → t1_holds a ≡ true
    → t2_step late (system m e q a b) b ≡ some t
    → Kept t
unfolding t2_step
t2-Kept late m e q a b t h keeps x = ground arith

Step-Kept : {s t : System} → Step s t → Inv s → t1_holds s.t1 ≡ true → Kept t
Step-Kept {s} {t} (main_runs live x) h keeps =
    main-Kept s.mutex s.status s.main s.t1 s.t2 t h keeps x
Step-Kept {s} {t} (t1_runs live x) h keeps = t1-Kept s.mutex s.status s.main s.t1 s.t2 t h keeps x
Step-Kept {s} {t} (t2_runs late live x) h keeps =
    t2-Kept late s.mutex s.status s.main s.t1 s.t2 t h keeps x

Later-Inv : {s t : System} → Later s t → Inv s → Inv t
Later-Inv now h = h
Later-Inv (further l st) h = Step-Inv st (Later-Inv l h)

Later-Kept : {s t : System} → Later s t → Inv s → t1_holds s.t1 ≡ true → Kept t
Later-Kept {s} now h keeps = (keeps, h.by_t1_only keeps)
Later-Kept (further l st) h keeps = Step-Kept st (Later-Inv l h) (Later-Kept l h keeps).0

-- The process can come to its end with EXIT_FAILURE.
abbrev pub CanFail : System → Type 0
CanFail s = (u : System) × Later s u × (u.status ≡ some failure)

-- t1 holds the mutex, and nothing has failed.
abbrev held : MainPc → T2Pc → System
held q b = system (some by_t1) none q spin b

after : {s t u : System} → Step s t → Later t u → Later s u
after st now = further now st
after st (further l st') = further (after st l) st'

earlier-CanFail : {s t : System} → Step s t → CanFail t → CanFail s
earlier-CanFail st (u, l, e) = (u, after st l, e)

t2-fails : (q : MainPc) → CanFail (held q timed_lock)
unfolding t2_step
t2-fails q = (_, further now (t2_runs true refl refl), refl)

read_clock-fails : (q : MainPc) → CanFail (held q read_clock)
unfolding t2_step
read_clock-fails q = earlier-CanFail (t2_runs false refl refl) (t2-fails q)

create_t2-fails : CanFail (held create_t2 t2_absent)
unfolding main_step
create_t2-fails = earlier-CanFail (main_runs refl refl) (read_clock-fails detach_t2)

nap-fails : CanFail (held nap t2_absent)
unfolding main_step
nap-fails = earlier-CanFail (main_runs refl refl) create_t2-fails

detach_t1-fails : CanFail (held detach_t1 t2_absent)
unfolding main_step
detach_t1-fails = earlier-CanFail (main_runs refl refl) nap-fails

held-fails : (q : MainPc) (b : T2Pc) → Inv (held q b) → (b ≡ t2_exited) ⊎ CanFail (held q b)
held-fails q t2_exited h = inl refl
held-fails q unlock_t2 h = absurd (ground (arith, h))
held-fails q timed_lock h = inr (t2-fails q)
held-fails q read_clock h = inr (read_clock-fails q)
held-fails create_t1 t2_absent h = absurd (ground (arith, h))
held-fails detach_t1 t2_absent h = inr detach_t1-fails
held-fails nap t2_absent h = inr nap-fails
held-fails create_t2 t2_absent h = inr create_t2-fails
held-fails detach_t2 t2_absent h = absurd (ground (arith, h))
held-fails main_exited t2_absent h = absurd (ground (arith, h))

comes_to_an_end :
    (m : Option Who) (e : Option Status) (q : MainPc) (a : T1Pc) (b : T2Pc)
    → Inv (system m e q a b)
    → (t1_holds a ≡ false) ⊎ (b ≡ t2_exited) ⊎ CanFail (system m e q a b)
comes_to_an_end m e q t1_absent b h = inl refl
comes_to_an_end m e q lock_t1 b h = inl refl
comes_to_an_end (some by_t1) none q spin b h = inr (held-fails q b h)
comes_to_an_end (some by_t1) (some failure) q spin b h = inr (inr (_, now, refl))
comes_to_an_end (some by_t1) (some success) q spin b h = absurd (ground (arith, h))
comes_to_an_end (some by_t2) e q spin b h = absurd (ground (arith, h))
comes_to_an_end none e q spin b h = absurd (ground (arith, h))

keeps_on :
    {s t : System}
    → Inv s
    → Later s t
    → (t1_holds s.t1 ≡ false) ⊎ (t1_holds t.t1 ≡ true) × (t.mutex ≡ some by_t1)
keeps_on {s} inv l = elim (Bool-cases (t1_holds s.t1)) [
  | inl holds ↦ inr (Later-Kept l inv holds)
  | inr waits ↦ inl waits
]

-- In every reachable state s: t1 and t2 do not both hold the mutex; once t1 has it, the mutex is t1's in
-- every later state t; the process has ended, if it has, with EXIT_FAILURE by t2, in whose wait the two seconds
-- ran out while t1 held the mutex; and while t1 holds the mutex, and t2 has not had it before, the process has
-- ended or some further steps end it with EXIT_FAILURE.
pub wait_is_bounded :
    {s t : System}
    → Reach s
    → Later s t
    → (t1_holds s.t1 && t2_holds s.t2 ≡ false)
      × ((t1_holds s.t1 ≡ false) ⊎ (t1_holds t.t1 ≡ true) × (t.mutex ≡ some by_t1))
      × ((s.status ≡ none)
          ⊎ ((s.status ≡ some failure) × (t1_holds s.t1 ≡ true) × (t2_wants s.t2 ≡ true)))
      × ((t1_holds s.t1 ≡ false) ⊎ (s.t2 ≡ t2_exited) ⊎ CanFail s)
wait_is_bounded {s} r l =
    let inv = Reach-Inv r in
    let all = safe s.mutex s.status s.main s.t1 s.t2 inv in
    (all.0, keeps_on inv l, all.2, comes_to_an_end s.mutex s.status s.main s.t1 s.t2 inv)
