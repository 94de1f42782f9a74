-- ===== src/OpenFile/Seek/Steps.antt =====
-- 2_4_Lseek step by step: what each helper does to the ledger.
use linux_system_programming.Base.{
  ◌∙◌, take, take_all, ap, arith, Bool-cases, length, zero, suc, inl, inr, Bool, ◌==◌,
  if◌then◌else◌, ◌+◌, ◌<◌, ℕ, refl, sym, true, false, List, ◌≡◌, [], ◌∷◌, ◌++◌,
}
use mathlib.Core.Path.{ap₂, subst}
use linux_system_programming.Sys.{failed, done, Prog, SafeIf, ◌>>=◌, ◌>>◌}
use linux_system_programming.Files.{ExitType, Libc, logged}
use linux_system_programming.OpenFile.{Whence, Call, fd_stdout, read, write, emit, log_error}
use linux_system_programming.OpenFile.Description.{Description, put, ahead, target}
use linux_system_programming.OpenFile.Seek.{
  log_seek_position, read_report, after_report, read_and_log_safe, write_to_a_file_and_log_safe,
  seek,
}
use linux_system_programming.OpenFile.Seek.Effect.{
  Ledger, rules, Possible, position, with_offset, step,
}

stays_false : (b e : Bool) → e ≡ false → (if b then e else false) ≡ false
stays_false true e h = h
stays_false false e h = refl

is_false : (b e : Bool) → b ≡ false → (if b then e else false) ≡ false
is_false true e h = absurd (ground (arith, h))
is_false false e h = refl

abbrev the_file : Ledger → Description → Ledger
the_file s d = record s { file = d }

-- A write of all bytes
write_all :
    (m : ℕ) (bytes bs : List ℕ) (s : Ledger)
    → m == length bytes ≡ true
    → record s { file = put bytes s.file } ≡ step s (write bytes) (done m bs)
write_all m bytes bs s all = rw (all) (
    ap (λ t. the_file s (put t s.file)) {y = take m bytes}
      (sym (take_all m bytes (ground (arith, all)))))

-- A read of all that is ahead
read_all :
    (m n : ℕ) (bs : List ℕ) (s : Ledger)
    → m == length (ahead n s.file) ≡ true
    → record s { file = with_offset (s.file.offset + length (ahead n s.file)) s.file }
      ≡ step s (read n) (done m bs)
read_all m n bs s all =
    let e : length (ahead n s.file) ≡ m = ground (arith, all) in
    rw (all) (ap (λ k. the_file s (with_offset (s.file.offset + k) s.file)) e)

abbrev pub Main : Type 0
Main = Prog Call ExitType ExitType

-- Safe from every ledger in which a call fell short
abbrev pub Broken : (Ledger → ExitType → Type 0) → Main → Type 0
Broken F p = (t : Ledger) → t.is_open ≡ true → t.exact ≡ false → SafeIf rules Possible F t p

pub record Goes (F : Ledger → ExitType → Type 0) (p : Main) (s : Ledger) : Type 0 where
  pub safe : SafeIf rules Possible F s p
  pub broken : Broken F p

module _ (c : Libc) (F : Ledger → ExitType → Type 0) where
  abbrev pub sought_to : ℕ → Ledger → Ledger
  sought_to v s = record s { file = with_offset v s.file; shown = s.shown ++ (position c v ∷ []) }

  seek-Broken : (n : ℕ) (w : Whence) (p : Main) → Broken F p → Broken F (seek c n w >> p)
  unfolding seek log_seek_position
  seek-Broken n w p h t opened inexact = (
    opened,
    elim [
      | failed e ↦ λ _. (tt, λ _ _. h _ opened refl)
      | done v bs ↦ λ _. (tt, λ _ _. h _ opened inexact)
    ],
  )

  pub seek-Goes :
      (n : ℕ) (w : Whence) (p : Main) (s : Ledger)
      → s.is_open ≡ true
      → Goes F p (sought_to (target n w s.file) s)
      → Goes F (seek c n w >> p) s
  unfolding seek log_seek_position
  seek-Goes n w p s opened h = record {
    safe = (
      opened,
      elim [
        | failed e ↦ λ _. (tt, λ _ _. h.broken _ opened refl)
        | done v bs ↦
            λ q. (tt, λ _ _. subst (λ v. SafeIf rules Possible F (sought_to v s) p) (sym q) h.safe)
      ],
    );
    broken = seek-Broken n w p h.broken;
  }

  -- The ledger after a write of the whole text
  abbrev pub wrote : List ℕ → Ledger → Ledger
  wrote text s = record s { file = put text s.file }

  write-Broken :
      (x : ℕ) (text : List ℕ) (p : Main)
      → Broken F p
      → Broken F (write_to_a_file_and_log_safe c (x ∷ text) >> p)
  unfolding write_to_a_file_and_log_safe log_error emit
  write-Broken x text p h t opened inexact = (
    opened,
    elim [
      | failed e ↦ λ _. (tt, λ _ _. (tt, λ _ _. h _ opened refl))
      | done zero bs ↦ λ q. (tt, λ _ _. (tt, λ _ _. h _ opened (stays_false _ t.exact inexact)))
      | done (suc n) bs ↦ λ q. h _ opened (stays_false _ t.exact inexact)
    ],
  )

  pub write-Goes :
      (text : List ℕ) (p : Main) (s : Ledger)
      → s.is_open ≡ true
      → 0 < length (logged 256 text)
      → Goes F p (wrote (logged 256 text) s)
      → Goes F (write_to_a_file_and_log_safe c text >> p) s
  unfolding write_to_a_file_and_log_safe log_error emit logged
  write-Goes [] p s opened some_bytes h = absurd (omega (arith, some_bytes))
  write-Goes (x ∷ text) p s opened some_bytes h = record {
    safe = (
      opened,
      elim [
        | failed e ↦ λ _. (tt, λ _ _. (tt, λ _ _. h.broken _ opened refl))
        | done zero bs ↦
            λ q. (tt, λ _ _. (tt, λ _ _. h.broken _ opened (is_false _ s.exact (ground arith))))
        | done (suc n) bs ↦ λ q. elim (Bool-cases (suc n == length (logged 256 (x ∷ text)))) [
          | inl all ↦
              subst (λ t. SafeIf rules Possible F t p)
                (write_all (suc n) (logged 256 (x ∷ text)) bs s all) h.safe
          | inr fewer ↦ h.broken _ opened (is_false _ s.exact fewer)
        ]
      ],
    );
    broken = write-Broken x text p h.broken;
  }

  -- The ledger after a read of all that is ahead
  abbrev pub did_read : (f n : ℕ) → Ledger → Ledger
  did_read f n s = record s {
    file = with_offset (s.file.offset + length (ahead n s.file)) s.file;
    shown =
        s.shown ++ (logged 256 (read_report c f (length (ahead n s.file)) (ahead n s.file)) ∷ []);
  }

  abbrev pub reported : List ℕ → Ledger → Ledger
  reported text s = record s { shown = s.shown ++ (logged 256 text ∷ []) }

  report-Safe :
      (text rest : List ℕ) (b : ℕ) (p : Main) (s : Ledger)
      → SafeIf rules Possible F (reported (text ++ (b ∷ rest)) s) p
      → SafeIf rules Possible F s (emit fd_stdout (text ++ (b ∷ rest)) >>= after_report c >> p)
  unfolding emit
  report-Safe [] rest b p s h = (tt, λ _ _. h)
  report-Safe (x ∷ text) rest b p s h = (tt, λ _ _. h)

  read-Broken : (f n : ℕ) (p : Main) → Broken F p → Broken F (read_and_log_safe c f n >> p)
  unfolding read_and_log_safe log_error emit
  read-Broken f n p h t opened inexact = (
    opened,
    elim [
      | failed e ↦ λ _. (tt, λ _ _. (tt, λ _ _. h _ opened refl))
      | done m bs ↦
          λ q. report-Safe (c.decimal m) _ _ p _ (h _ opened (stays_false _ t.exact inexact))
    ],
  )

  pub read-Goes :
      (f n : ℕ) (p : Main) (s : Ledger)
      → s.is_open ≡ true
      → Goes F p (did_read f n s)
      → Goes F (read_and_log_safe c f n >> p) s
  unfolding read_and_log_safe log_error emit
  read-Goes f n p s opened h = record {
    safe = (
      opened,
      elim [
        | failed e ↦ λ _. (tt, λ _ _. (tt, λ _ _. h.broken _ opened refl))
        | done m bs ↦ λ q. elim (Bool-cases (m == length (ahead n s.file))) [
          | inl all ↦
              let same : length (ahead n s.file) ≡ m = ground (arith, all) in
              let whole : ahead n s.file ≡ bs =
                sym (q.1 ∙ take_all m (ahead n s.file) (omega (arith, same))) in
              report-Safe (c.decimal m) _ _ p _ (
                subst (λ t. SafeIf rules Possible F t p)
                  (ap₂ reported (ap₂ (read_report c f) same whole) (read_all m n bs s all)) h.safe)
          | inr fewer ↦
              report-Safe (c.decimal m) _ _ p _ (h.broken _ opened (is_false _ s.exact fewer))
        ]
      ],
    );
    broken = read-Broken f n p h.broken;
  }
