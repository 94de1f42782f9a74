-- ===== src/NamedSem/Discipline.antt =====
-- What the processes do with the named semaphores: rules for the calls, and what holds at the end.
use linux_system_programming.Base.{none, some, ℕ, refl, Bool, true, false, arith, ◌+◌, ◌<◌, ◌≡◌}
use linux_system_programming.Sys.{
  Prog, Kernel, run, Obeys, replay, Safe-run, do_call, ◌>>◌, Reply, failed, done, Rules, Safe, next,
  pass, Status, success, failure,
}
use linux_system_programming.NamedSem.{
  Sem, sem, sem_done_cnt, Call, perror, sem_open, sem_getvalue, sem_wait, sem_post, sem_close,
  sem_unlink, sleep, process_1, joiner, retire, process_2, process_3,
}

-- `entered`, `refused`: the waits on `sem` that returned 0 and -1; `left`: the posts of it.
-- `joined`, `announced`: the waits on `sem_done_cnt` that returned 0, and the posts of it.
pub record Ledger : Type 0 where
  pub has_sem : Bool
  pub has_done : Bool
  pub entered : ℕ
  pub refused : ℕ
  pub left : ℕ
  pub joined : ℕ
  pub announced : ℕ
  pub unlinked : ℕ

abbrev pub has : Ledger → Sem → Bool
has s sem = s.has_sem
has s sem_done_cnt = s.has_done

abbrev pub set_has : Ledger → Sem → Bool → Ledger
set_has s sem b = record s { has_sem = b }
set_has s sem_done_cnt b = record s { has_done = b }

-- The section's work, `sleep`, is done between the wait on `sem` and the post of it.
-- A semaphore is used and closed while it is open. A joiner announces itself after it has left the
-- section. A name is removed after both joiners have announced themselves.
-- Process 1 creates the names, `sem` for two processes at once and `sem_done_cnt` for no joiner yet; the joiners
-- only open them.
-- Only the manager, Process 1, waits on `sem_done_cnt` and removes names; only joiners post it.
pub data Role : Type 0 where
  manager joining : Role

abbrev pub Allowed : Role → Ledger → Call → Type 0
Allowed o s (perror m) = Unit
Allowed manager s (sem_open sem i) = (s.has_sem ≡ false) × (i ≡ some 2)
Allowed manager s (sem_open sem_done_cnt i) = (s.has_done ≡ false) × (i ≡ some 0)
Allowed joining s (sem_open x i) = (has s x ≡ false) × (i ≡ none)
Allowed o s (sem_getvalue x) = has s x ≡ true
Allowed o s (sem_wait sem) = s.has_sem ≡ true
Allowed manager s (sem_wait sem_done_cnt) = s.has_done ≡ true
Allowed joining s (sem_wait sem_done_cnt) = ⊥
Allowed o s (sem_post sem) = (s.has_sem ≡ true) × (s.left < s.entered + s.refused)
Allowed manager s (sem_post sem_done_cnt) = ⊥
Allowed joining s (sem_post sem_done_cnt) = (s.has_done ≡ true) × (s.left ≡ 1) × (s.announced ≡ 0)
Allowed o s (sem_close x) = has s x ≡ true
Allowed manager s (sem_unlink x) = (has s x ≡ false) × (s.joined ≡ 2)
Allowed joining s (sem_unlink x) = ⊥
Allowed o s (sleep n) = s.left < s.entered + s.refused

abbrev pub step : Ledger → Call → Reply → Ledger
step s (sem_open x i) (done n bs) = set_has s x true
step s (sem_wait sem) (failed e) = record s { refused = s.refused + 1 }
step s (sem_wait sem) (done n bs) = record s { entered = s.entered + 1 }
step s (sem_wait sem_done_cnt) (done n bs) = record s { joined = s.joined + 1 }
step s (sem_post sem) r = record s { left = s.left + 1 }
step s (sem_post sem_done_cnt) r = record s { announced = s.announced + 1 }
step s (sem_close x) r = set_has s x false
step s (sem_unlink x) r = record s { unlinked = s.unlinked + 1 }
step s c r = s

abbrev pub rules : Role → Rules Call
rules o = record { Ledger = Ledger; Allowed = Allowed o; step = step }

abbrev pub idle : Ledger
idle = record {
  has_sem = false;
  has_done = false;
  entered = 0;
  refused = 0;
  left = 0;
  joined = 0;
  announced = 0;
  unlinked = 0;
}

-- The section is entered and left once, whether its wait was granted or refused.
abbrev pub Balanced : Ledger → Type 0
Balanced s = (s.entered + s.refused ≡ 1) × (s.left ≡ 1)

abbrev pub Managed : Ledger → Status → Type 0
Managed s success =
    Balanced s × (s.has_sem ≡ false) × (s.has_done ≡ false) × (s.joined ≡ 2) × (s.unlinked ≡ 2)
Managed s failure = s.unlinked ≡ 0

abbrev pub Joined : Ledger → Status → Type 0
Joined s success = Balanced s × (s.has_sem ≡ false) × (s.has_done ≡ false) × (s.announced ≡ 1)
Joined s failure = (s.left ≡ 0) × (s.announced ≡ 0)

retire-Safe :
    (e r : ℕ)
    → e + r ≡ 1
    → Safe
        (rules manager)
        Managed
        (record idle { has_sem = true; has_done = true; entered = e; refused = r; left = 1 })
        retire
unfolding retire
retire-Safe e r h =
    next refl (λ _. ground arith) λ _ _. next refl (λ _. ground arith) λ _ _. ground arith

process_1-Safe : Safe (rules manager) Managed idle process_1
unfolding process_1
process_1-Safe =
    next (refl, refl) (λ _. pass (refl, refl) λ _. ground arith)
      λ _ _.
        next (refl, refl) (λ _. ground arith)
          λ _ _. pass refl λ _. next refl (λ _. leave 0 1 refl) λ _ _. leave 1 0 refl
  where
    leave :
        (e r : ℕ)
        → e + r ≡ 1
        → Safe
            (rules manager)
            Managed
            (record idle { has_sem = true; has_done = true; entered = e; refused = r })
            (do
              do_call (sem_getvalue sem)
              do_call (sleep 10)
              do_call (sem_post sem)
              do_call (sem_getvalue sem)
              retire)
    leave e r h = pass refl λ _.
        pass (ground arith) λ _. pass (refl, ground arith) λ _. pass refl λ _. retire-Safe e r h

joiner-Safe : (n : ℕ) → Safe (rules joining) Joined idle (joiner n)
unfolding joiner
joiner-Safe n =
    next (refl, refl) (λ _. pass (refl, refl) λ _. ground arith)
      λ _ _.
        next (refl, refl) (λ _. ground arith)
          λ _ _. pass refl λ _.
            next refl (λ _. ground arith)
              λ _ _. pass refl λ _. pass (ground arith) λ _.
                pass (ground arith)
                  λ _. pass refl λ _. pass (ground arith) λ _. pass (ground arith) λ _. ground arith

-- A run of `p` keeps to the rules, and ends as `F` says.
abbrev pub Runs : Role → (Ledger → Status → Type 0) → Kernel Call → Prog Call Status Status → Type 0
Runs o F k p =
    Obeys (rules o) idle (run k 0 p).events
    × F (replay (rules o) idle (run k 0 p).events) (run k 0 p).status

-- Whatever calls fail, Process 1 uses the semaphores only while they are open and removes their names
-- only after it has closed them and `sem_done_cnt` has been granted to it twice. With EXIT_SUCCESS it
-- has passed the section once, also when the wait for it was refused, has closed and removed both;
-- with EXIT_FAILURE it has removed none.
pub process_1_manages : (k : Kernel Call) → Runs manager Managed k process_1
process_1_manages k = Safe-run (rules manager) Managed k 0 idle process_1 process_1-Safe

-- Whatever calls fail, Processes 2 and 3 use the semaphores only while they are open and announce
-- themselves once, after they have left the section. With EXIT_SUCCESS they have passed the section
-- once, also when the wait for it was refused, and closed both semaphores; with EXIT_FAILURE they
-- have posted nothing.
pub joiners_join :
    (k : Kernel Call) → Runs joining Joined k process_2 × Runs joining Joined k process_3
joiners_join k = (
  Safe-run (rules joining) Joined k 0 idle process_2 (joiner-Safe 7),
  Safe-run (rules joining) Joined k 0 idle process_3 (joiner-Safe 5),
)

-- Whatever calls fail, the three processes use the semaphores only while they are open, and what a process
-- posts it posts once. Process 1 opens `sem` with the initial value 2 and `sem_done_cnt` with 0, and the others open
-- them without one. Process 1 removes the names only after it has closed both and `sem_done_cnt` has been
-- granted to it twice; Processes 2 and 3 announce themselves only after they have left the section. With
-- EXIT_SUCCESS a process has passed the section once, also when the wait for it was refused, and has closed
-- both semaphores, Process 1 also removed both; with EXIT_FAILURE Process 1 has removed none, and the others
-- have posted nothing.
pub all_obey :
    (k : Kernel Call)
    → Runs manager Managed k process_1
      × Runs joining Joined k process_2
      × Runs joining Joined k process_3
all_obey k = (process_1_manages k, (joiners_join k).0, (joiners_join k).1)
