-- ===== src/OpenFile/Inherit/Together.antt =====
-- Parent and child of 7_9 side by side: every interleaving of their calls on the one open file, whose offset
-- they share.
use linux_system_programming.Base.{
  drop, length-append, take-append_self, zero, suc, sym, ap, inr, ◌+◌, ◌≤◌, ◌∙◌, length, take, ℕ,
  refl, inl, true, false, Option, none, some, List, arith, ◌≡◌, ◌⊎◌, [], ◌∷◌, ◌++◌,
}
use mathlib.Core.Path.{ap₂}
use mathlib.Core.List.{append-nil}
use linux_system_programming.Sys.{Reply, failed, done}
use linux_system_programming.OpenFile.{
  Call, open_file, lseek, read, write, close, log, read_errno, fork, waitpid, sleep,
}
use linux_system_programming.OpenFile.Description.{Description, emptied, put}
use linux_system_programming.OpenFile.Inherit.{parent_text, child_text}
use linux_system_programming.OpenFile.Inherit.Shared.{Ledger, Allowed, step, start, inherited}

pub record World : Type 0 where
  pub parent : Ledger
  pub child : Ledger
  pub file : Description

abbrev pub beginning : World
beginning = record { parent = start; child = inherited; file = emptied }

abbrev pub Trace : Type 0
Trace = List (Call × Reply)

-- What a call does to the open file. `open` has O_TRUNC.
abbrev pub effect : Description → Call → Reply → Description
effect d (open_file name) (done f bs) = emptied
effect d (write bytes) (done n bs) = put (take n bytes) d
effect d c r = d

-- `waitpid` returns the child only when no call of it is left.
abbrev pub Waits : Call → Reply → (of_child : Trace) → Type 0
Waits waitpid (done pid bs) u = u ≡ []
Waits c r u = Unit

-- The interleavings of the parent's calls `t` and the child's calls `u` that stop in the world `end`, before
-- the child's calls `rest`. The child runs after the fork.
pub data Weave (end : World) (rest : Trace) : World → Trace → Trace → Type 0 where
  stop : {w : World} {t u : Trace} → w ≡ end → u ≡ rest → Weave end rest w t u
  by_parent :
      {w : World} {t u : Trace} (c : Call) (r : Reply)
      → Waits c r u
      → Weave end rest (record w { parent = step w.parent c r; file = effect w.file c r }) t u
      → Weave end rest w ((c, r) ∷ t) u
  by_child :
      {w : World} {t u : Trace} (c : Call) (r : Reply)
      → w.parent.forked ≡ true
      → Weave end rest (record w { child = step w.child c r; file = effect w.file c r }) t u
      → Weave end rest w t ((c, r) ∷ u)

-- What stands in the file of a text of which so much was accepted
abbrev pub accepted : List ℕ → Option ℕ → List ℕ
accepted text none = []
accepted text (some n) = take n text

abbrev pub at_its_end : List ℕ → Description
at_its_end content = record { content = content; offset = length content }

abbrev pub joined : Option ℕ → Option ℕ → Description
joined p q = at_its_end (accepted parent_text p ++ accepted child_text q)

drop_all : (n : ℕ) (xs : List ℕ) → length xs ≤ n → drop n xs ≡ []
drop_all zero [] h = refl
drop_all zero (x ∷ xs) h = absurd (omega arith)
drop_all (suc n) [] h = refl
drop_all (suc n) (x ∷ xs) h = drop_all n xs (omega arith)

abbrev described : List ℕ → ℕ → Description
described content offset = record { content = content; offset = offset }

-- A write at the end appends.
put_end : (content bytes : List ℕ) → put bytes (at_its_end content) ≡ at_its_end (content ++ bytes)
put_end content bytes =
    ap₂ described
      (ap₂ ◌++◌ (take-append_self content _) (
        ap (λ t. bytes ++ t) (drop_all (length content + length bytes) content (omega arith))
        ∙ append-nil bytes))
      (sym (length-append content bytes))

abbrev pub Inv : Ledger → Ledger → Description → Type 0
Inv p q d =
    (d ≡ joined p.written q.written) × ((p.forked ≡ true) ⊎ (q.written ≡ none)) × (q.begun ≡ true)

not_written :
    (p q : Ledger) → (p.forked ≡ true) ⊎ (q.written ≡ none) → p.forked ≡ false → q.written ≡ none
not_written p q (inl forked) e = absurd (ground (arith, forked, e))
not_written p q (inr written) e = written

pub by_parent-Inv :
    (c : Call) (r : Reply) (p q : Ledger) (d : Description)
    → Allowed parent_text p c
    → Inv p q d
    → Inv (step p c r) q (effect d c r)
by_parent-Inv (open_file name) (failed e) p q d a h = h
by_parent-Inv (open_file name) (done f bs) p q d a h =
    (ap₂ joined (sym a.1) (sym (not_written p q h.1 a.2)), h.1, h.2)
by_parent-Inv (lseek n w) r p q d a h = absurd a
by_parent-Inv (read n) r p q d a h = absurd a
by_parent-Inv (write bytes) (failed e) p q d a h = h
by_parent-Inv (write bytes) (done n bs) p q d a h =
    let unwritten = not_written p q h.1 a.3 in
    (
      ap₂ (λ b f. put (take n b) f) a.0 (h.0 ∙ ap₂ joined a.2 unwritten)
          ∙ put_end [] (take n parent_text)
          ∙ ap at_its_end (sym (append-nil (take n parent_text)))
          ∙ ap (joined (some n)) (sym unwritten),
      h.1,
      h.2,
    )
by_parent-Inv close (failed e) p q d a h = h
by_parent-Inv close (done n bs) p q d a h = h
by_parent-Inv (log stream bytes) (failed e) p q d a h = h
by_parent-Inv (log stream bytes) (done n bs) p q d a h = h
by_parent-Inv read_errno (failed e) p q d a h = h
by_parent-Inv read_errno (done n bs) p q d a h = h
by_parent-Inv fork (failed e) p q d a h = h
by_parent-Inv fork (done pid bs) p q d a h = (h.0, inl refl, h.2)
by_parent-Inv waitpid (failed e) p q d a h = h
by_parent-Inv waitpid (done pid bs) p q d a h = h
by_parent-Inv (sleep n) (failed e) p q d a h = h
by_parent-Inv (sleep n) (done m bs) p q d a h = h

pub by_child-Inv :
    (c : Call) (r : Reply) (p q : Ledger) (d : Description)
    → Allowed child_text q c
    → p.forked ≡ true
    → Inv p q d
    → Inv p (step q c r) (effect d c r)
by_child-Inv (open_file name) r p q d a e h = absurd (ground (arith, a.0, h.2))
by_child-Inv (lseek n w) r p q d a e h = absurd a
by_child-Inv (read n) r p q d a e h = absurd a
by_child-Inv (write bytes) (failed x) p q d a e h = h
by_child-Inv (write bytes) (done n bs) p q d a e h = (
  ap₂ (λ b f. put (take n b) f) a.0 (h.0 ∙ ap (joined p.written) a.2)
      ∙ ap (λ t. put (take n child_text) (at_its_end t))
          (append-nil (accepted parent_text p.written))
      ∙ put_end (accepted parent_text p.written) (take n child_text),
  inl e,
  h.2,
)
by_child-Inv close (failed x) p q d a e h = h
by_child-Inv close (done n bs) p q d a e h = h
by_child-Inv (log stream bytes) (failed x) p q d a e h = h
by_child-Inv (log stream bytes) (done n bs) p q d a e h = h
by_child-Inv read_errno (failed x) p q d a e h = h
by_child-Inv read_errno (done n bs) p q d a e h = h
by_child-Inv fork (failed x) p q d a e h = h
by_child-Inv fork (done pid bs) p q d a e h = h
by_child-Inv waitpid (failed x) p q d a e h = h
by_child-Inv waitpid (done pid bs) p q d a e h = h
by_child-Inv (sleep n) (failed x) p q d a e h = h
by_child-Inv (sleep n) (done m bs) p q d a e h = h
