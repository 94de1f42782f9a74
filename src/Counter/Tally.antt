-- ===== src/Counter/Tally.antt =====
-- Sums over the threads, and how a step of one thread changes them.
use linux_system_programming.Base.{
  get_or, take, ℕ, zero, suc, List, arith, ◌+◌, ◌≤◌, ◌≡◌, [], ◌∷◌, ◌++◌,
}
use linux_system_programming.Counter.{Pc}

abbrev pub tally : (Pc → ℕ) → List Pc → ℕ
tally f [] = 0
tally f (p ∷ ps) = f p + tally f ps

module _ (f : Pc → ℕ) where
  pub tally-append : (ps qs : List Pc) → tally f (ps ++ qs) ≡ tally f ps + tally f qs
  tally-append [] qs = omega arith
  tally-append (p ∷ ps) qs = omega (arith, tally-append ps qs)

  -- One thread takes another place in the sum.
  pub tally-step :
      (ps qs : List Pc) (p q : Pc) → tally f (ps ++ (p ∷ qs)) + f q ≡ tally f (ps ++ (q ∷ qs)) + f p
  tally-step ps qs p q = omega (arith, tally-append ps (p ∷ qs), tally-append ps (q ∷ qs))

  -- The first `n` threads only get less.
  pub tally-take-le :
      (n : ℕ) (ps qs : List Pc) (p q : Pc)
      → f p ≤ f q
      → tally f (take n (ps ++ (p ∷ qs))) ≤ tally f (take n (ps ++ (q ∷ qs)))
  tally-take-le zero ps qs p q h = omega arith
  tally-take-le (suc n) [] qs p q h = omega (arith, h)
  tally-take-le (suc n) (x ∷ ps) qs p q h = omega (arith, tally-take-le n ps qs p q h)

  -- The first `n + 1` are the first `n` and one more.
  pub tally-take-suc :
      (n : ℕ) (ps : List Pc) (d : Pc)
      → tally f (take (suc n) ps) ≤ tally f (take n ps) + f (get_or ps n d)
  tally-take-suc zero [] d = omega arith
  tally-take-suc (suc n) [] d = omega arith
  tally-take-suc zero (p ∷ ps) d = omega arith
  tally-take-suc (suc n) (p ∷ ps) d = omega (arith, tally-take-suc n ps d)
