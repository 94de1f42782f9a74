-- ===== src/NamedSem/Together.antt =====
-- The three processes side by side: every interleaving of their calls, where a wait on
-- `sem_done_cnt` is granted only while its count is above 0.
use linux_system_programming.Base.{
  Option, none, some, if◌then◌else◌, ◌⊎◌, arith, ℕ, Bool, true, false, List, ◌+◌, ◌-◌, ◌≤◌, ◌<◌,
  ◌≡◌, ◌∷◌,
}
use linux_system_programming.Sys.{failed, Kernel, run, Obeys, done, Reply}
use linux_system_programming.NamedSem.{
  sem, sem_done_cnt, Call, sem_wait, sem_post, sem_unlink, process_1, process_2, process_3,
  sem_open,
}
use linux_system_programming.NamedSem.Discipline.{
  Ledger, Allowed, rules, manager, joining, step, idle, process_1_manages, joiners_join,
}

-- `named`: the name "/sem_done_cnt" exists; `done_cnt`: the count of its semaphore, which stays with the processes
-- that have it open after the name is removed. `unlinked`: Process 1 has removed a name.
-- `out_2`, `out_3`: the process has left the critical section.
pub record World : Type 0 where
  pub named : Bool
  pub done_cnt : ℕ
  pub unlinked : Bool
  pub out_2 : Bool
  pub out_3 : Bool

-- `stale`: the count of a semaphore of that name that an earlier run has left behind, if it has.
abbrev pub start : (stale : Option ℕ) → World
start none = record { named = false; done_cnt = 0; unlinked = false; out_2 = false; out_3 = false }
start (some n) = record {
  named = true;
  done_cnt = n;
  unlinked = false;
  out_2 = false;
  out_3 = false;
}

abbrev pub Trace : Type 0
Trace = List (Call × Reply)

-- A wait is granted only while the count is above 0, and a name without O_CREAT is opened only where it exists.
abbrev pub Fits : World → Call → Reply → Type 0
Fits w (sem_open sem_done_cnt none) (done n bs) = w.named ≡ true
Fits w (sem_wait sem_done_cnt) (done n bs) = 0 < w.done_cnt
Fits w c r = Unit

-- O_CREAT without O_EXCL: the initial value counts only where the name is new.
abbrev pub created : World → ℕ → World
created w v = if w.named then w else record w { named = true; done_cnt = v }

abbrev pub count : World → Call → Reply → World
count w (sem_open sem_done_cnt (some v)) (done n bs) = created w v
count w (sem_wait sem_done_cnt) (done n bs) = record w { done_cnt = w.done_cnt - 1 }
count w (sem_post sem_done_cnt) (done n bs) = record w { done_cnt = w.done_cnt + 1 }
count w c r = w

abbrev pub by_1 : World → Call → Reply → World
by_1 w (sem_unlink sem) r = record w { unlinked = true }
by_1 w (sem_unlink sem_done_cnt) (failed e) = record w { unlinked = true }
by_1 w (sem_unlink sem_done_cnt) (done n bs) = record w { unlinked = true; named = false }
by_1 w c r = count w c r

abbrev pub by_2 : World → Call → Reply → World
by_2 w (sem_post sem) r = record w { out_2 = true }
by_2 w c r = count w c r

abbrev pub by_3 : World → Call → Reply → World
by_3 w (sem_post sem) r = record w { out_3 = true }
by_3 w c r = count w c r

-- The interleavings of the calls of the three processes from one world, stopped anywhere in `end`.
pub data Weave (end : World) : World → Trace → Trace → Trace → Type 0 where
  stop : {w : World} {t u v : Trace} → w ≡ end → Weave end w t u v
  go_1 :
      {w : World} {t u v : Trace} (c : Call) (r : Reply)
      → Fits w c r
      → Weave end (by_1 w c r) t u v
      → Weave end w ((c, r) ∷ t) u v
  go_2 :
      {w : World} {t u v : Trace} (c : Call) (r : Reply)
      → Fits w c r
      → Weave end (by_2 w c r) t u v
      → Weave end w t ((c, r) ∷ u) v
  go_3 :
      {w : World} {t u v : Trace} (c : Call) (r : Reply)
      → Fits w c r
      → Weave end (by_3 w c r) t u v
      → Weave end w t u ((c, r) ∷ v)

-- What the ledgers of the three processes say about the world.
record Agree (a b c : Ledger) (w : World) : Type 0 where
  granted : w.done_cnt + a.joined ≤ b.announced + c.announced
  quiet : a.announced ≡ 0
  once_2 : b.announced ≤ 1
  once_3 : c.announced ≤ 1
  none_2 : b.joined ≡ 0
  none_3 : c.joined ≡ 0
  after_2 : 0 < b.announced → w.out_2 ≡ true
  after_3 : 0 < c.announced → w.out_3 ≡ true
  left_2 : 0 < b.left → w.out_2 ≡ true
  left_3 : 0 < c.left → w.out_3 ≡ true
  last : w.unlinked ≡ true → 2 ≤ a.joined

module _ {a b c : Ledger} {w : World} (h : Agree a b c w) where
  by_1-Agree :
      (x : Call) (r : Reply)
      → Allowed manager a x
      → Fits w x r
      → Agree (step a x r) b c (by_1 w x r)
  by_1-Agree (sem_wait sem) (failed e) g f = ground arith
  by_1-Agree x r g f = ground arith

  by_2-Agree :
      (x : Call) (r : Reply)
      → Allowed joining b x
      → Fits w x r
      → Agree a (step b x r) c (by_2 w x r)
  by_2-Agree (sem_wait sem) (failed e) g f = ground arith
  by_2-Agree x r g f = ground arith

  by_3-Agree :
      (x : Call) (r : Reply)
      → Allowed joining c x
      → Fits w x r
      → Agree a b (step c x r) (by_3 w x r)
  by_3-Agree (sem_wait sem) (failed e) g f = ground arith
  by_3-Agree x r g f = ground arith

-- Wherever an interleaving stops, some ledgers agree with the world.
abbrev Agreeing : World → Type 0
Agreeing w = (a b c : Ledger) × Agree a b c w

Weave-Agreeing :
    {end w : World} {t u v : Trace} (a b c : Ledger)
    → Weave end w t u v
    → Agree a b c w
    → Obeys (rules manager) a t
    → Obeys (rules joining) b u
    → Obeys (rules joining) c v
    → Agreeing end
Weave-Agreeing a b c (stop e) h ot ou ov = (a, b, c, rw (← e) h)
Weave-Agreeing a b c (go_1 x r f v) h ot ou ov =
    Weave-Agreeing (step a x r) b c v (by_1-Agree h x r ot.0 f) ot.1 ou ov
Weave-Agreeing a b c (go_2 x r f v) h ot ou ov =
    Weave-Agreeing a (step b x r) c v (by_2-Agree h x r ou.0 f) ot ou.1 ov
Weave-Agreeing a b c (go_3 x r f v) h ot ou ov =
    Weave-Agreeing a b (step c x r) v (by_3-Agree h x r ov.0 f) ot ou ov.1

-- However the calls of the three processes interleave and whatever fails, once Process 1 removes a
-- name both joiners have left the critical section; provided that a semaphore "/sem_done_cnt" left behind by an
-- earlier run, where there is one, has the count 0.
pub unlink_after_joiners :
    (k₁ k₂ k₃ : Kernel Call) (stale : Option ℕ) (end : World)
    → (stale ≡ none) ⊎ (stale ≡ some 0)
    → Weave end
        (start stale)
        (run k₁ 0 process_1).events
        (run k₂ 0 process_2).events
        (run k₃ 0 process_3).events
    → end.unlinked ≡ true
    → (end.out_2 ≡ true) × (end.out_3 ≡ true)
unlink_after_joiners k₁ k₂ k₃ stale end clean v e =
    let (a, b, c, h) =
      Weave-Agreeing idle idle idle v (begins stale clean) (process_1_manages k₁).0
        (joiners_join k₂).0.0 (joiners_join k₃).1.0 in
    ground arith
  where
    begins :
        (stale : Option ℕ) → (stale ≡ none) ⊎ (stale ≡ some 0) → Agree idle idle idle (start stale)
    begins none clean = ground arith
    begins (some n) clean = ground arith
