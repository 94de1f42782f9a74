-- ===== src/Fifo/Shown.antt =====
-- What the reader of the FIFO shows and gives back, when frames come in.
use linux_system_programming.Sys.{
  success, failure, SafeIf, Status, Reply, failed, done, Rules, ◌>>=◌,
}
use linux_system_programming.Base.{
  length, drop, ℕ, min, String, refl, Bool, true, false, Option, none, some, List, ◌-◌, ◌≤◌, ◌<◌,
  ◌≡◌, [], ◌∷◌, ◌++◌,
}
use linux_system_programming.Fifo.{
  Main, Call, perror, open_fifo, close, unlink, malloc, free, read, show, eintr, write,
}
use linux_system_programming.Fifo.Reader.{die, cleanup}

-- `incoming`: the bytes that are written before the writer closes its end; `interruptions`: how many
-- times a signal will interrupt a `read`.
pub record Ledger : Type 0 where
  pub is_open : Bool
  pub has_buffer : Bool
  pub unlinked : Bool
  pub incoming : List ℕ
  pub interruptions : ℕ
  pub shown : List (List ℕ)

abbrev pub Allowed : Ledger → Call → Type 0
Allowed s (read n) = s.is_open ≡ true
Allowed s open_fifo = s.is_open ≡ false
Allowed s close = s.is_open ≡ true
Allowed s (malloc n) = s.has_buffer ≡ false
Allowed s free = s.has_buffer ≡ true
Allowed s (write bs) = ⊥
Allowed s c = Unit

abbrev pub step : Ledger → Call → Reply → Ledger
step s open_fifo (done n bs) = record s { is_open = true }
step s close r = record s { is_open = false }
step s unlink r = record s { unlinked = true }
step s (malloc n) (done m bs) = record s { has_buffer = true }
step s free r = record s { has_buffer = false }
step s (read m) (done n bs) = record s { incoming = drop (length bs) s.incoming }
step s (read m) (failed e) = record s { interruptions = s.interruptions - 1 }
step s (show bs) r = record s { shown = s.shown ++ (bs ∷ []) }
step s c r = s

abbrev pub rules : Rules Call
rules = record { Ledger = Ledger; Allowed = Allowed; step = step }

-- `read` gives the bytes that come next, as many as it likes up to those asked for, and none only at
-- the end.
abbrev pub Possible : Ledger → Call → Reply → Type 0
Possible s (read m) (done n bs) =
    (bs ++ drop (length bs) s.incoming ≡ s.incoming)
    × (length bs ≤ m)
    × (length bs ≤ length s.incoming)
    × (min 1 (length s.incoming) ≤ length bs)
Possible s (read m) (failed e) = (e ≡ eintr) → 0 < s.interruptions
Possible s c r = Unit

abbrev pub GaveBack : Ledger → Type 0
GaveBack s = (s.is_open ≡ false) × (s.has_buffer ≡ false) × (s.unlinked ≡ true)

-- A result is there and everything is given back. The lines shown are the first of those sent, and
-- with EXIT_SUCCESS all of them.
abbrev pub Shown : List (List ℕ) → Ledger → Option Status → Type 0
Shown lines s none = ⊥
Shown lines s (some success) = GaveBack s × (s.shown ≡ lines)
Shown lines s (some failure) = GaveBack s × ((rest : List (List ℕ)) × (lines ≡ s.shown ++ rest))

abbrev pub at :
    (has_buffer : Bool) → (incoming : List ℕ) → (interruptions : ℕ) → List (List ℕ) → Ledger
at has_buffer incoming interruptions shown = record {
  is_open = true;
  has_buffer = has_buffer;
  unlinked = false;
  incoming = incoming;
  interruptions = interruptions;
  shown = shown;
}

pub die-Shown :
    {A : Type 0} (k : A → Main (Option Status)) (text : String) (buffer : Bool) (incoming : List ℕ)
    (i : ℕ) (shown rest : List (List ℕ))
    → SafeIf rules Possible
        (Shown (shown ++ rest))
        (at buffer incoming i shown)
        (die (perror text) true buffer >>= k)
unfolding die cleanup
die-Shown k text true incoming i shown rest =
    (tt, λ _ _. (refl, λ _ _. (refl, λ _ _. (tt, λ _ _. ((refl, refl, refl), (rest, refl))))))
die-Shown k text false incoming i shown rest =
    (tt, λ _ _. (refl, λ _ _. (tt, λ _ _. ((refl, refl, refl), (rest, refl)))))
