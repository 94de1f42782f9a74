-- ===== src/Pipe/Sigpipe/Tests.antt =====
-- Runs of 11_3 in which the child leaves before the second `write`.
use linux_system_programming.Base.{
  refl, Bool, true, false, Option, none, some, List, ◌≡◌, ◌⊎◌, ◌&&◌, ◌||◌, [], ◌∷◌,
}
use linux_system_programming.Sys.{success}
use linux_system_programming.Pipe.Sigpipe.{
  System, parent_step, child_step, init, Reach, start, later, parent_runs, child_runs,
  parent_exited, child_exited, accepted, broken_pipe,
}
use linux_system_programming.Pipe.Sigpipe.Invariant.{is_killed, is_broken, is_not_yet}
use linux_system_programming.Pipe.Sigpipe.Safety.{sigpipe_survived, goes, parent_over, child_over}

pub record Run : Type 0 where
  last : System
  reach : Reach last

-- Lets the parent (true) or the child (false) run; one that waits is passed over.
turn : Run → Bool → Run
unfolding parent_step child_step
turn r true = go (parent_step true r.last r.last.parent_pc) refl
  where
    go : (o : Option System) → parent_step true r.last r.last.parent_pc ≡ o → Run
    go none e = r
    go (some t) e = record { last = t; reach = later r.reach (parent_runs true e) }
turn r false = go (child_step true r.last r.last.child_pc) refl
  where
    go : (o : Option System) → child_step true r.last r.last.child_pc ≡ o → Run
    go none e = r
    go (some t) e = record { last = t; reach = later r.reach (child_runs true e) }

turns : List Bool → Run → Run
unfolding turn
turns [] r = r
turns (b ∷ bs) r = turns bs (turn r b)

-- The child reads and closes while the parent sleeps.
abbrev refused : Run
refused =
    turns (true ∷ true ∷ true ∷ true ∷ true ∷ false ∷ false ∷ false ∷ true ∷ true ∷ true ∷ [])
      (record { last = init; reach = start })

over :
    (refused.last.first ≡ accepted)
    × (refused.last.second ≡ broken_pipe)
    × (refused.last.parent_pc ≡ parent_exited success)
    × (refused.last.child_pc ≡ child_exited success)
unfolding turns
over = (refl, refl, refl, refl)

sigpipe_survived_example :
    (is_killed refused.last.parent_pc ≡ false)
    × ((is_broken refused.last.first || is_broken refused.last.second ≡ false)
        ⊎ (refused.last.child_reads ≡ false))
    × ((is_broken refused.last.first ≡ false)
        ⊎ (is_not_yet refused.last.second || is_broken refused.last.second ≡ true))
    × ((parent_over refused.last.parent_pc && child_over refused.last.child_pc ≡ true)
        ⊎ (goes (parent_step true refused.last refused.last.parent_pc)
              || goes (child_step true refused.last refused.last.child_pc)
            ≡ true))
sigpipe_survived_example = sigpipe_survived refused.reach
