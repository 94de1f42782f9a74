-- ===== src/Pipe/Sigpipe/Safety.antt =====
-- What 11_3 comes to in every order of the calls of parent and child.
use linux_system_programming.Base.{
  ℕ, Bool, true, false, Option, none, some, arith, ◌≡◌, ◌⊎◌, ◌&&◌, ◌||◌,
}
use linux_system_programming.Pipe.Sigpipe.{
  ParentPc, parent_exited, ChildPc, absent, child_exited, Sent, System, parent_step, child_step,
  setup_step, write_end, Reach,
}
use linux_system_programming.Pipe.Sigpipe.Invariant.{
  Inv, Reach-Inv, is_killed, is_broken, is_not_yet, system,
}

abbrev pub goes {ℓ} : {A : Type ℓ} → Option A → Bool
goes none = false
goes (some a) = true

abbrev pub parent_over : ParentPc → Bool
parent_over (parent_exited status) = true
parent_over p = false

abbrev pub child_over : ChildPc → Bool
child_over (child_exited status) = true
child_over absent = true
child_over p = false

moves :
    (ig pr pw cr cw : Bool) (n : ℕ) (x y : Sent) (pp : ParentPc) (cp : ChildPc)
    → Inv (system ig pr pw cr cw n x y pp cp)
    → (parent_over pp && child_over cp ≡ true)
      ⊎ (goes (parent_step true (system ig pr pw cr cw n x y pp cp) pp)
            || goes (child_step true (system ig pr pw cr cw n x y pp cp) cp)
          ≡ true)
unfolding parent_step child_step setup_step write_end
moves ig pr pw cr cw n x y pp cp h = ground arith

outcome :
    (ig pr pw cr cw : Bool) (n : ℕ) (x y : Sent) (pp : ParentPc) (cp : ChildPc)
    → Inv (system ig pr pw cr cw n x y pp cp)
    → ((is_broken x || is_broken y ≡ false) ⊎ (cr ≡ false))
      × ((is_broken x ≡ false) ⊎ (is_not_yet y || is_broken y ≡ true))
outcome ig pr pw cr cw n x y pp cp h = ground arith

-- In every reachable state, whatever calls fail: SIGPIPE has not killed the parent; when one of its calls of
-- `write` came back with EPIPE the child holds the reading end no more, and when the first did, so does the
-- second; and the parent or the child can go on, or both have ended.
pub sigpipe_survived :
    {s : System}
    → Reach s
    → (is_killed s.parent_pc ≡ false)
      × ((is_broken s.first || is_broken s.second ≡ false) ⊎ (s.child_reads ≡ false))
      × ((is_broken s.first ≡ false) ⊎ (is_not_yet s.second || is_broken s.second ≡ true))
      × ((parent_over s.parent_pc && child_over s.child_pc ≡ true)
          ⊎ (goes (parent_step true s s.parent_pc) || goes (child_step true s s.child_pc) ≡ true))
sigpipe_survived {s} r =
    let inv = Reach-Inv r in
    let out =
      outcome s.ignored s.parent_reads s.parent_writes s.child_reads s.child_writes s.unread s.first
        s.second s.parent_pc s.child_pc inv in
    (
      inv.lives,
      out.0,
      out.1,
      moves s.ignored s.parent_reads s.parent_writes s.child_reads s.child_writes s.unread s.first
          s.second s.parent_pc s.child_pc inv,
    )
