-- ===== src/OpenFile/Inherit/Append.antt =====
-- What the file of 7_9 holds in every interleaving of parent and child.
use mathlib.Core.Path.{subst}
use linux_system_programming.Base.{
  length, refl, sym, ap, ◌∙◌, ◌++◌, inl, inr, false, arith, ◌≡◌, ◌⊎◌, [], ◌∷◌,
}
use linux_system_programming.Sys.{Reply, failed, done, SafeIf-run, Fair, Obeys, replay, Kernel, run}
use linux_system_programming.OpenFile.{
  Call, open_file, lseek, read, write, close, log, read_errno, fork, waitpid, sleep,
}
use linux_system_programming.OpenFile.Inherit.{parent_text, child_text, child, main}
use linux_system_programming.OpenFile.Inherit.Shared.{
  Ledger, Possible, step, rules, start, inherited, ParentEnded, ChildEnded, main-Ended, child-Ended,
}
use linux_system_programming.OpenFile.Inherit.Together.{
  World, beginning, Trace, Waits, Weave, stop, by_parent, by_child, accepted, Inv, by_parent-Inv,
  by_child-Inv,
}
use linux_system_programming.Files.{Libc}

-- Once `waitpid` has returned, no call of the child is left.
abbrev Over : Ledger → Trace → Type 0
Over p u = (p.waited ≡ false) ⊎ (u ≡ [])

by_parent-Over :
    (c : Call) (r : Reply) (p : Ledger) (u : Trace) → Waits c r u → Over p u → Over (step p c r) u
by_parent-Over (open_file name) (failed e) p u w h = h
by_parent-Over (open_file name) (done f bs) p u w h = h
by_parent-Over (lseek n x) (failed e) p u w h = h
by_parent-Over (lseek n x) (done m bs) p u w h = h
by_parent-Over (read n) (failed e) p u w h = h
by_parent-Over (read n) (done m bs) p u w h = h
by_parent-Over (write bytes) (failed e) p u w h = h
by_parent-Over (write bytes) (done n bs) p u w h = h
by_parent-Over close (failed e) p u w h = h
by_parent-Over close (done n bs) p u w h = h
by_parent-Over (log stream bytes) (failed e) p u w h = h
by_parent-Over (log stream bytes) (done n bs) p u w h = h
by_parent-Over read_errno (failed e) p u w h = h
by_parent-Over read_errno (done n bs) p u w h = h
by_parent-Over fork (failed e) p u w h = h
by_parent-Over fork (done pid bs) p u w h = h
by_parent-Over waitpid (failed e) p u w h = h
by_parent-Over waitpid (done pid bs) p u w h = inr w
by_parent-Over (sleep n) (failed e) p u w h = h
by_parent-Over (sleep n) (done m bs) p u w h = h

by_child-Over : (p : Ledger) (x : Call × Reply) (u : Trace) → Over p (x ∷ u) → Over p u
by_child-Over p x u (inl early) = inl early
by_child-Over p x u (inr none_left) = absurd (ground (arith, none_left))

woven :
    {end : World} {rest : Trace} {w : World} {t u : Trace}
    → Weave end rest w t u
    → Obeys (rules parent_text) w.parent t
    → Obeys (rules child_text) w.child u
    → Inv w.parent w.child w.file
    → Over w.parent u
    → Inv end.parent end.child end.file × Over end.parent rest
woven {rest = rest} {w = w} (stop e e') a b inv over = (
  subst (λ v. Inv v.parent v.child v.file) e inv,
  subst (λ v. Over v.parent rest) e (subst (Over w.parent) e' over),
)
woven {w = w} (by_parent c r waits later) a b inv over =
    woven later a.1 b (by_parent-Inv c r w.parent w.child w.file a.0 inv)
      (by_parent-Over c r w.parent _ waits over)
woven {w = w} (by_child c r forked later) a b inv over =
    woven later a b.1 (by_child-Inv c r w.parent w.child w.file b.0 forked inv)
      (by_child-Over w.parent (c, r) _ over)

-- In every interleaving of the calls of parent and child, at every moment: the file holds what the parent's
-- `write` accepted of "Parent is writing...\n" and then what the child's accepted of "Child is writing...\n",
-- each text from its start, and the shared offset is at the end; once the parent's `waitpid` has returned, no
-- call of the child is left. Whatever calls fail, each process uses its descriptor only while it holds it,
-- writes once at most, and ends with SUCCESS only when its `write` went through and its descriptor is closed,
-- the parent also only after `waitpid`.
pub child_appends :
    (c : Libc) (k l : Kernel Call) (end : World) (rest : Trace)
    → Fair (rules parent_text) Possible start (run k 0 (main c)).events
    → Fair (rules child_text) Possible inherited (run l 0 (child c)).events
    → Weave end rest beginning (run k 0 (main c)).events (run l 0 (child c)).events
    → (end.file.content
        ≡ accepted parent_text end.parent.written ++ accepted child_text end.child.written)
      × (end.file.offset ≡ length end.file.content)
      × ((end.parent.waited ≡ false) ⊎ (rest ≡ []))
      × ParentEnded
          (replay (rules parent_text) start (run k 0 (main c)).events)
          (run k 0 (main c)).status
      × ChildEnded
          (replay (rules child_text) inherited (run l 0 (child c)).events)
          (run l 0 (child c)).status
      × Obeys (rules parent_text) start (run k 0 (main c)).events
      × Obeys (rules child_text) inherited (run l 0 (child c)).events
child_appends c k l end rest fair fair' w =
    let of_parent =
      SafeIf-run (rules parent_text) Possible ParentEnded k 0 start (main c) fair (main-Ended c) in
    let of_child =
      SafeIf-run (rules child_text) Possible ChildEnded l 0 inherited (child c) fair'
        (child-Ended c) in
    let both = woven w of_parent.0 of_child.0 (refl, inr refl, refl) (inl refl) in
    (
      ap (λ d. d.content) both.0.0,
      ap (λ d. d.offset) both.0.0 ∙ sym (ap (λ d. length d.content) both.0.0),
      both.1,
      of_parent.1,
      of_child.1,
      of_parent.0,
      of_child.0,
    )
