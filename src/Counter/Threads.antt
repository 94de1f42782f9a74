-- ===== src/Counter/Threads.antt =====
-- A step of one thread keeps the invariant.
use linux_system_programming.Counter.Invariant.{
  bit, inside, holds, added, running, Fine, Stage, Inv,
}
use linux_system_programming.Base.{
  sym, refl, length-append, inl, inr, [], ◌∷◌, ◌++◌, length, All, ℕ, zero, suc, Bool, true, false,
  some, List, arith, ◌+◌, ◌*◌, ◌≤◌, ◌≡◌, ◌⊎◌,
}
use linux_system_programming.Counter.{
  Pc, wait_sem, counting, lock_mutex, load_glob, store_glob, unlock_mutex, post_sem, returned,
  Shared, thread_step, count_up, loop_count, MainPc, creating, joining, printed, gone,
}
use linux_system_programming.Counter.Tally.{tally, tally-take-le, tally-step, tally-append}
use mathlib.Core.Path.{subst}

count_up_lem : (n l : ℕ) → count_up n l ≡ l + n
unfolding count_up
count_up_lem zero l = omega arith
count_up_lem (suc n) l = omega (arith, count_up_lem n (l + 1))

-- The effect of a step on the thread and the shared state alone.
record Effect (s m : Shared) (q p : Pc) : Type 0 where
  sem_kept : m.sem + inside p + m.lost + s.refused ≡ s.sem + inside q + s.lost + m.refused
  mutex_kept : holds p + bit s.mutex ≡ holds q + bit m.mutex
  glob_kept : m.glob + added q ≡ s.glob + added p
  still_fine : Fine m.glob p
  ends : running p ≤ running q
  alone : (m.glob ≡ s.glob) ⊎ (holds q ≡ 1)

thread-Effect :
    (ok : Bool) (s m : Shared) (q p : Pc)
    → thread_step ok s q ≡ some (m, p)
    → Fine s.glob q
    → bit s.mutex ≤ 1
    → (holds q ≡ 1 → s.mutex ≡ true)
    → Effect s m q p
unfolding thread_step
thread-Effect true s m wait_sem p e f b h = ground arith
thread-Effect false s m wait_sem p e f b h = ground arith
thread-Effect ok s m counting p e f b h = let sum = count_up_lem loop_count 0 in ground (arith, sum)
thread-Effect ok s m (lock_mutex l) p e f b h = ground arith
thread-Effect ok s m (load_glob l) p e f b h = ground arith
thread-Effect ok s m (store_glob l r) p e f b h = ground arith
thread-Effect ok s m unlock_mutex p e f b h = ground arith
thread-Effect true s m post_sem p e f b h = ground arith
thread-Effect false s m post_sem p e f b h = ground arith
thread-Effect ok s m returned p e f b h = ground arith

-- A change of `glob` matters only to a thread that has loaded it, and none of these has.
Fine-change : (g g' : ℕ) (ps : List Pc) → tally holds ps ≡ 0 → All (Fine g) ps → All (Fine g') ps
Fine-change g g' [] h f = tt
Fine-change g g' (wait_sem ∷ ps) h f = (tt, Fine-change g g' ps (omega (arith, h)) f.1)
Fine-change g g' (counting ∷ ps) h f = (tt, Fine-change g g' ps (omega (arith, h)) f.1)
Fine-change g g' (lock_mutex l ∷ ps) h f = (f.0, Fine-change g g' ps (omega (arith, h)) f.1)
Fine-change g g' (load_glob l ∷ ps) h f = absurd (omega (arith, h))
Fine-change g g' (store_glob l r ∷ ps) h f = absurd (omega (arith, h))
Fine-change g g' (unlock_mutex ∷ ps) h f = absurd (omega (arith, h))
Fine-change g g' (post_sem ∷ ps) h f = (tt, Fine-change g g' ps (omega (arith, h)) f.1)
Fine-change g g' (returned ∷ ps) h f = (tt, Fine-change g g' ps (omega (arith, h)) f.1)

-- One thread takes another place, and the others stay as they are.
All-step :
    (g g' : ℕ) (before after : List Pc) (p q : Pc)
    → All (Fine g) (before ++ (q ∷ after))
    → Fine g' p
    → (g' ≡ g) ⊎ ((tally holds before ≡ 0) × (tally holds after ≡ 0))
    → All (Fine g') (before ++ (p ∷ after))
All-step g g' [] after p q f new (inl same) = (new, subst (λ x. All (Fine x) after) (sym same) f.1)
All-step g g' [] after p q f new (inr h) = (new, Fine-change g g' after h.1 f.1)
All-step g g' (x ∷ before) after p q f new (inl same) =
    (rw same f.0, All-step g g' before after p q f.1 new (inl same))
All-step g g' (x ∷ before) after p q f new (inr h) = (
  (Fine-change g g' (x ∷ []) (omega (arith, h)) (f.0, tt)).0,
  All-step g g' before after p q f.1 new (inr (omega (arith, h), h.1)),
)

All-middle :
    (g : ℕ) (before after : List Pc) (q : Pc) → All (Fine g) (before ++ (q ∷ after)) → Fine g q
All-middle g [] after q f = f.0
All-middle g (x ∷ before) after q f = All-middle g before after q f.1

Stage-step :
    (before after : List Pc) (p q : Pc) (main : MainPc)
    → running p ≤ running q
    → Stage (before ++ (q ∷ after)) main
    → Stage (before ++ (p ∷ after)) main
Stage-step before after p q (creating i) h st =
    omega (arith, st, length-append before (p ∷ after), length-append before (q ∷ after))
Stage-step before after p q (joining i) h st = (
  omega (arith, st.0, length-append before (p ∷ after), length-append before (q ∷ after)),
  st.1,
  omega (arith, st.2, tally-take-le running i before after p q h),
)
Stage-step before after p q (printed g) h st = st
Stage-step before after p q gone h st = tt

bit-le : (b : Bool) → bit b ≤ 1
bit-le true = omega arith
bit-le false = omega arith

has_mutex : (b : Bool) → 1 ≤ bit b → b ≡ true
has_mutex true h = refl
has_mutex false h = absurd (omega (arith, h))

-- Three threads that have returned have added their share.
pub added_by_all :
    (n : ℕ) (ps : List Pc) → length ps ≡ n → tally running ps ≡ 0 → tally added ps ≡ n * loop_count
added_by_all n [] l h = omega (arith, l)
added_by_all zero (p ∷ ps) l h = absurd (omega (arith, l))
added_by_all (suc n) (returned ∷ ps) l h =
    omega (arith, added_by_all n ps (omega (arith, l)) (omega (arith, h)))
added_by_all (suc n) (p ∷ ps) l h = absurd (omega (arith, h))

module _ (s m : Shared) (main : MainPc) (before after : List Pc) (p q : Pc) where
  alone_glob :
      Effect s m q p
      → Inv (record { shared = s; threads = before ++ (q ∷ after); main = main })
      → (m.glob ≡ s.glob) ⊎ ((tally holds before ≡ 0) × (tally holds after ≡ 0))
  alone_glob e h = elim e.alone [
    | inl same ↦ inl same
    | inr one ↦
        inr (omega (arith, one, h.excluded, bit-le s.mutex, tally-append holds before (q ∷ after)))
  ]

  Effect-Inv :
      Effect s m q p
      → Inv (record { shared = s; threads = before ++ (q ∷ after); main = main })
      → Inv (record { shared = m; threads = before ++ (p ∷ after); main = main })
  Effect-Inv e h = record {
    counted = omega (arith, h.counted, e.sem_kept, tally-step inside before after p q);
    excluded = omega (arith, h.excluded, e.mutex_kept, tally-step holds before after p q);
    summed = omega (arith, h.summed, e.glob_kept, tally-step added before after p q);
    fine = All-step s.glob m.glob before after p q h.fine e.still_fine (alone_glob e h);
    stage = Stage-step before after p q main e.ends h.stage;
  }

  pub thread-Inv :
      (ok : Bool)
      → thread_step ok s q ≡ some (m, p)
      → Inv (record { shared = s; threads = before ++ (q ∷ after); main = main })
      → Inv (record { shared = m; threads = before ++ (p ∷ after); main = main })
  thread-Inv ok e h =
      let one_holds : holds q ≡ 1 → s.mutex ≡ true = λ one.
        has_mutex s.mutex (omega (arith, one, h.excluded, tally-append holds before (q ∷ after))) in
      Effect-Inv
        (thread-Effect ok s m q p e (All-middle s.glob before after q h.fine) (bit-le s.mutex)
          one_holds)
        h
