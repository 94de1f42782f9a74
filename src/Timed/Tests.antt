-- ===== src/Timed/Tests.antt =====
-- A run of 10_6 in which the wait of t2 runs out.
use linux_system_programming.Base.{
  refl, true, false, Option, none, some, List, ◌≡◌, ◌⊎◌, ◌&&◌, [], ◌∷◌,
}
use linux_system_programming.Sys.{Status, failure}
use linux_system_programming.Timed.{
  System, by_t1, main_step, t1_step, t2_step, init, Reach, start, later, main_runs, t1_runs,
  t2_runs, Later, t2_exited, now, further,
}
use linux_system_programming.Timed.Safety.{t1_holds, t2_holds, t2_wants, CanFail, wait_is_bounded}

pub record Run : Type 0 where
  last : System
  reach : Reach last

pub data Turn : Type 0 where
  of_main of_t1 of_t2 : Turn

-- Lets a thread run; a blocked one is passed over, and t2 is always late.
turn : Run → Turn → Run
unfolding main_step t1_step t2_step
turn r who = alive r.last.status refl
  where
    go :
        (step : System → Option System)
        → ((t : System) → step r.last ≡ some t → Reach t)
        → (o : Option System) → step r.last ≡ o
        → Run
    go step reached none e = r
    go step reached (some t) e = record { last = t; reach = reached t e }

    alive : (o : Option Status) → r.last.status ≡ o → Run
    alive (some status) e = r
    alive none e = elim who [
      | of_main ↦
          go (λ s. main_step s s.main) (λ t x. later r.reach (main_runs e x))
            (main_step r.last r.last.main) refl
      | of_t1 ↦
          go (λ s. t1_step s s.t1) (λ t x. later r.reach (t1_runs e x)) (t1_step r.last r.last.t1)
            refl
      | of_t2 ↦
          go (λ s. t2_step true s s.t2) (λ t x. later r.reach (t2_runs true e x))
            (t2_step true r.last r.last.t2) refl
    ]

turns : List Turn → Run → Run
unfolding turn
turns [] r = r
turns (w ∷ ws) r = turns ws (turn r w)

abbrev waiting : Run
waiting =
    turns (of_main ∷ of_t1 ∷ of_main ∷ of_main ∷ of_main ∷ of_t2 ∷ [])
      (record { last = init; reach = start })

timed_out : (turn waiting of_t2).last.status ≡ some failure
unfolding turns
timed_out = refl

abbrev ended : System
ended = record waiting.last { status = some failure }

ends_late : Later waiting.last ended
unfolding t2_step turns
ends_late = further now (t2_runs true refl refl)

wait_is_bounded_example :
    (t1_holds waiting.last.t1 && t2_holds waiting.last.t2 ≡ false)
    × ((t1_holds waiting.last.t1 ≡ false) ⊎ (t1_holds ended.t1 ≡ true) × (ended.mutex ≡ some by_t1))
    × ((waiting.last.status ≡ none)
        ⊎ ((waiting.last.status ≡ some failure)
            × (t1_holds waiting.last.t1 ≡ true)
            × (t2_wants waiting.last.t2 ≡ true)))
    × ((t1_holds waiting.last.t1 ≡ false) ⊎ (waiting.last.t2 ≡ t2_exited) ⊎ CanFail waiting.last)
wait_is_bounded_example = wait_is_bounded waiting.reach ends_late
