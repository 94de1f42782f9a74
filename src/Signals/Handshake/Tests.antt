-- ===== src/Signals/Handshake/Tests.antt =====
-- Runs of 9_3.
use linux_system_programming.Base.{
  ℕ, zero, suc, refl, Bool, true, false, Option, none, some, ◌≡◌, ◌⊎◌, ◌||◌,
}
use linux_system_programming.Sys.{success}
use linux_system_programming.Signals.Handshake.{
  System, parent_step, child_step, init, Reach, start, later, parent_runs, child_runs,
  parent_exited, child_exited, suspend_ready, child_failed,
}
use linux_system_programming.Signals.Handshake.Invariant.{
  has_notified, has_commanded, is_answered, sent_usr1, sent_usr2, is_served,
}
use linux_system_programming.Signals.Handshake.Safety.{signal_order, no_signal_lost, goes}

pub record Run : Type 0 where
  last : System
  reach : Reach last

-- Lets the parent (true) or the child (false) run; one that sleeps is passed over. `ok`: its call does
-- not fail.
turn : (ok : Bool) → Run → Bool → Run
unfolding parent_step child_step
turn ok r true = alive (r.last.parent.killed) refl
  where
    go :
        r.last.parent.killed ≡ false
        → (o : Option System) → parent_step ok r.last r.last.parent_pc ≡ o
        → Run
    go lives none e = r
    go lives (some t) e = record { last = t; reach = later r.reach (parent_runs ok lives e) }

    alive : (b : Bool) → r.last.parent.killed ≡ b → Run
    alive true e = r
    alive false e = go e (parent_step ok r.last r.last.parent_pc) refl
turn ok r false = alive (r.last.child.killed) refl
  where
    go :
        r.last.child.killed ≡ false
        → (o : Option System) → child_step ok r.last r.last.child_pc ≡ o
        → Run
    go lives none e = r
    go lives (some t) e = record { last = t; reach = later r.reach (child_runs ok lives e) }

    alive : (b : Bool) → r.last.child.killed ≡ b → Run
    alive true e = r
    alive false e = go e (child_step ok r.last r.last.child_pc) refl

-- `n` rounds in which both run.
rounds : ℕ → Run → Run
unfolding turn
rounds zero r = r
rounds (suc n) r = rounds n (turn true (turn true r true) false)

abbrev begin : Run
begin = record { last = init; reach = start }

abbrev ended : Run
ended = rounds 20 begin

over : (ended.last.parent_pc ≡ parent_exited success) × (ended.last.child_pc ≡ child_exited success)
unfolding rounds
over = (refl, refl)

-- The parent has forked, and `execl` fails: the parent sleeps for ever.
abbrev abandoned : Run
abandoned = rounds 20 (turn false (rounds 4 begin) false)

asleep : (abandoned.last.parent_pc ≡ suspend_ready) × (abandoned.last.child_pc ≡ child_failed)
unfolding rounds
asleep = (refl, refl)

-- The parent waits, and the child has sent its first signal.
abbrev notified : Run
notified = rounds 8 begin

signal_order_example :
    (notified.last.parent.killed ≡ false)
    × (notified.last.child.killed ≡ false)
    × ((sent_usr1 notified.last.parent ≡ false)
        ⊎ (has_notified notified.last.child_pc ≡ true) × (notified.last.child.handles_usr1 ≡ true))
    × ((sent_usr1 notified.last.child ≡ false)
        ⊎ (has_commanded notified.last.parent_pc ≡ true)
          × (notified.last.parent.caught_usr1 ≡ true))
    × ((sent_usr2 notified.last.parent ≡ false)
        ⊎ (notified.last.child_pc ≡ child_exited success)
          × (notified.last.child.caught_usr1 ≡ true))
    × ((is_served notified.last.parent_pc ≡ false) ⊎ (notified.last.parent.caught_usr1 ≡ true))
    × ((is_answered notified.last.parent_pc ≡ false) ⊎ (notified.last.parent.caught_usr2 ≡ true))
signal_order_example = signal_order notified.reach

no_faults : notified.last.faults ≡ 0
unfolding rounds
no_faults = refl

no_signal_lost_example :
    ((notified.last.parent_pc ≡ parent_exited success)
      × (notified.last.child_pc ≡ child_exited success))
    ⊎ (goes (parent_step true notified.last notified.last.parent_pc)
          || goes (child_step true notified.last notified.last.child_pc)
        ≡ true)
no_signal_lost_example = no_signal_lost notified.reach no_faults
