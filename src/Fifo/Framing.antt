-- ===== src/Fifo/Framing.antt =====
-- What the writer of the FIFO sends: the frames of the lines typed.
use linux_system_programming.Base.{
  ◌≢◌, Bool-cases, length, take, All, ℕ, min, String, refl, sym, ap, inl, inr, Bool, true, false,
  Option, none, some, List, arith, ◌==◌, ◌-◌, ◌≤◌, ◌<◌, ◌≡◌, ◌∙◌, [], ◌∷◌, ◌++◌,
}
use mathlib.Core.List.{append_assoc, append-nil}
use linux_system_programming.Mq.{strip}
use linux_system_programming.Mq.Sender.{length-strip}
use linux_system_programming.Sys.{
  SafeIf, Status, Reply, Rules, ◌>>=◌, success, failure, failed, done,
}
use linux_system_programming.Fifo.{
  Main, Call, eintr, frame, frames, perror, open_fifo, close, unlink, fgets, write,
}
use linux_system_programming.Mq.{strip}
use linux_system_programming.Mq.Sender.{length-strip}
use linux_system_programming.Fifo.{frame, fgets}
use linux_system_programming.Fifo.Delivery.{Fine}
use linux_system_programming.Fifo.Writer.{die}

-- `left`: how many lines are still to be typed; `typed`: those that `fgets` gave, without their newline;
-- `sent`: the bytes that the FIFO accepted.
pub record Ledger : Type 0 where
  pub is_open : Bool
  pub left : ℕ
  pub interruptions : ℕ
  pub typed : List (List ℕ)
  pub sent : List ℕ

-- The writer writes only while the FIFO is open, and never removes it.
abbrev pub Allowed : Ledger → Call → Type 0
Allowed s (write bs) = s.is_open ≡ true
Allowed s open_fifo = s.is_open ≡ false
Allowed s close = s.is_open ≡ true
Allowed s unlink = ⊥
Allowed s c = Unit

abbrev pub step : Ledger → Call → Reply → Ledger
step s open_fifo (done n bs) = record s { is_open = true }
step s close r = record s { is_open = false }
step s (fgets m) (done n bs) = record s { left = s.left - 1; typed = s.typed ++ (strip bs ∷ []) }
step s (write bytes) (done n bs) = record s { sent = s.sent ++ take n bytes }
step s (write bytes) (failed e) = record s { interruptions = s.interruptions - 1 }
step s c r = s

abbrev pub rules : Rules Call
rules = record { Ledger = Ledger; Allowed = Allowed; step = step }

-- `fgets` stores fewer than `size` bytes and gives a line only while there is one; `write` accepts some
-- of the bytes that it is given.
abbrev pub Possible : Ledger → Call → Reply → Type 0
Possible s (fgets size) (done n bs) = (length bs < size) × (0 < s.left)
Possible s (write bytes) (done n bs) = (n ≤ length bytes) × (min 1 (length bytes) ≤ n)
Possible s (write bytes) (failed e) = (e ≡ eintr) → 0 < s.interruptions
Possible s c r = Unit

-- The writer ends, always with EXIT_FAILURE, with the FIFO closed; the bytes sent are a beginning of
-- the frames of the lines typed, each of which the reader accepts.
abbrev pub Framed : Ledger → Option Status → Type 0
Framed s none = ⊥
Framed s (some success) = ⊥
Framed s (some failure) =
    (s.is_open ≡ false) × All Fine s.typed × ((rest : List ℕ) × (frames s.typed ≡ s.sent ++ rest))

abbrev pub at : (left interruptions : ℕ) → List (List ℕ) → List ℕ → Ledger
at left i typed sent = record {
  is_open = true;
  left = left;
  interruptions = i;
  typed = typed;
  sent = sent;
}

pub die-Framed :
    {A : Type 0} (k : A → Main (Option Status)) (text : String) (left i : ℕ) (typed : List (List ℕ))
    (sent rest : List ℕ)
    → All Fine typed
    → frames typed ≡ sent ++ rest
    → SafeIf rules Possible Framed (at left i typed sent) (die (perror text) true >>= k)
unfolding die
die-Framed k text left i typed sent rest fine p =
    (tt, λ _ _. (refl, λ _ _. (refl, fine, (rest, p))))

strip-All : (bs : List ℕ) → All (λ b. b ≢ 0) (strip bs)
unfolding strip
strip-All [] = tt
strip-All (b ∷ bs) = elim (Bool-cases (b == 0)) [
  | inl zero_byte ↦ rw (zero_byte) tt
  | inr other ↦ elim (Bool-cases (b == 10)) [
    | inl newline ↦ rw (other, newline) tt
    | inr more ↦ rw (other, more) ((ground arith), strip-All bs)
  ]
]

pub strip-Fine : (bs : List ℕ) → length bs < 256 → Fine (strip bs)
strip-Fine bs h = (let short = length-strip bs in omega (arith, h, short), strip-All bs)

pub All-append :
    (typed : List (List ℕ)) (line : List ℕ)
    → All Fine typed
    → Fine line
    → All Fine (typed ++ (line ∷ []))
All-append [] line h l = (l, tt)
All-append (x ∷ typed) line h l = (h.0, All-append typed line h.1 l)

pub frames-append :
    (typed : List (List ℕ)) (line : List ℕ)
    → frames (typed ++ (line ∷ [])) ≡ frames typed ++ frame line
unfolding frames
frames-append [] line = append-nil (frame line)
frames-append (x ∷ typed) line =
    ap (λ t. frame x ++ t) (frames-append typed line)
    ∙ sym (append_assoc (frame x) (frames typed) (frame line))
