-- ===== src/Mq/Sender.antt =====
-- Course_MohanM/11_IPC/11_6_POSIX_Message_Queue_Basics/11_6_1_Sender/main.c
use linux_system_programming.Sys.{
  Fair, SafeIf-run, Kernel, run, Obeys, replay, SafeIf, Reply, Rules, Status, failed, done, pure,
  exit, call, do_call, attempt, ◌>>=◌, ◌>>◌,
}
use linux_system_programming.Base.{
  not, refl, Bool-cases, inl, inr, Bool, true, false, List, arith, ◌==◌, ◌-◌, ◌≤◌, ◌<◌, ◌≡◌, ◌⊎◌,
  [], ◌∷◌, ◌++◌, length, leb, ℕ, zero, suc, Option, none, some,
}
use linux_system_programming.Mq.{
  mq_unlink, value, Main, Call, stop_flag, fgets, feof, perror, strip, print_error, mq_send, printf,
  mq_open, mq_getattr, mq_close, handle_signals, failure, success, Line, strip-Line,
}

-- The `while (!stop_flag)` loop; it goes on after the loop.
unfoldable pub send_lines : (msgsize fuel : ℕ) → Main (Unit {0})
send_lines msgsize zero = exit none
send_lines msgsize (suc fuel) = call stop_flag λ flag. elim (value flag == 0) [
  | false ↦ pure tt
  | true ↦ call (fgets msgsize) (elim [
    | failed e ↦
        call feof
          λ r. elim (value r == 0) [ true ↦ do_call (perror "S : Error: fgets") | false ↦ pure tt ]
    | done n bytes ↦ elim (leb msgsize (length (strip bytes))) [
      | true ↦
          do_call (print_error "S : Error: message too long for queue (max %ld)\n")
          >> send_lines msgsize fuel
      | false ↦ call (mq_send (strip bytes)) (elim [
        | failed e ↦ do_call (perror "S : Error: mq_send")
        | done m bs ↦ do_call (printf "S : Message sent successfully\n") >> send_lines msgsize fuel
      ])
    ]
  ])
]

unfoldable pub sender : (fuel : ℕ) → Main (Option Status)
unfolding send_lines
sender fuel = do
  handle_signals
  attempt mq_open (do_call (perror "S : Error: mq_open") >> exit (some failure))
  msgsize ←
      attempt mq_getattr
        (do do_call (perror "S : Error: mq_getattr"); do_call mq_close; exit (some failure))
  send_lines msgsize fuel
  do_call mq_close
  exit (some success)

-- `typed`: what `fgets` stored, call by call; `sent`: the messages that the queue accepted; `refused`:
-- the message of an `mq_send` that failed; `over`: a test of `stop_flag` saw it set, or `fgets`
-- failed; `left`: how many lines of input are still to come before the end or a signal.
pub record Ledger : Type 0 where
  pub is_open : Bool
  pub msgsize : ℕ
  pub left : ℕ
  pub typed : List (List ℕ)
  pub sent : List (List ℕ)
  pub refused : Option (List ℕ)
  pub over : Bool

abbrev pub with_input : ℕ → Ledger
with_input n = record {
  is_open = false;
  msgsize = 0;
  left = n;
  typed = [];
  sent = [];
  refused = none;
  over = false;
}

-- The queue is used only while it is open, and a message has to be shorter than `mq_msgsize`.
abbrev pub Allowed : Ledger → Call → Type 0
Allowed s mq_getattr = s.is_open ≡ true
Allowed s mq_close = s.is_open ≡ true
Allowed s (fgets n) = n ≡ s.msgsize
Allowed s (mq_send m) = (s.is_open ≡ true) × (length m < s.msgsize)
Allowed s mq_open = s.is_open ≡ false
Allowed s mq_unlink = ⊥
Allowed s c = Unit

abbrev pub step : Ledger → Call → Reply → Ledger
step s mq_open (done n bs) = record s { is_open = true }
step s mq_getattr (done n bs) = record s { msgsize = n }
step s mq_close r = record s { is_open = false }
step s (fgets m) (done n bs) = record s { left = s.left - 1; typed = s.typed ++ (bs ∷ []) }
step s (fgets m) (failed e) = record s { over = true }
step s stop_flag r = record s { over = not (value r == 0) }
step s (mq_send m) (done n bs) = record s { sent = s.sent ++ (m ∷ []) }
step s (mq_send m) (failed e) = record s { refused = some m }
step s c r = s

abbrev pub rules : Rules Call
rules = record { Ledger = Ledger; Allowed = Allowed; step = step }

-- `fgets` stores fewer than `size` bytes, and gives a line only while there is one.
abbrev pub Possible : Ledger → Call → Reply → Type 0
Possible s (fgets size) (done n bs) = (length bs < size) × (0 < s.left)
Possible s c r = Unit

-- One message for each `fgets`, in order
unfoldable pub LineByLine : (typed messages : List (List ℕ)) → Type 0
LineByLine [] [] = Unit
LineByLine (bs ∷ typed) (m ∷ messages) = Line bs m × LineByLine typed messages
LineByLine typed messages = ⊥

-- A result is there and the queue is closed. With EXIT_SUCCESS either the input was over and the
-- messages sent are the lines typed, or an `mq_send` failed and they are the lines before its own.
abbrev pub AllSent : Ledger → Option Status → Type 0
AllSent s none = ⊥
AllSent s (some success) =
    (s.is_open ≡ false)
    × ((s.over ≡ true) × (s.refused ≡ none) × LineByLine s.typed s.sent
        ⊎ (m : List ℕ) × (s.refused ≡ some m) × LineByLine s.typed (s.sent ++ (m ∷ [])))
AllSent s (some failure) = s.is_open ≡ false

pub length-strip : (bs : List ℕ) → length (strip bs) ≤ length bs
unfolding strip
length-strip [] = omega arith
length-strip (b ∷ bs) = elim (Bool-cases (b == 0)) [
  | inl zero_byte ↦ rw (zero_byte) (omega arith)
  | inr other ↦ elim (Bool-cases (b == 10)) [
    | inl newline ↦ rw (other, newline) (omega arith)
    | inr more ↦ rw (other, more) (let ih = length-strip bs in omega (arith, ih))
  ]
]

LineByLine-snoc :
    (typed messages : List (List ℕ)) (bs m : List ℕ)
    → LineByLine typed messages
    → Line bs m
    → LineByLine (typed ++ (bs ∷ [])) (messages ++ (m ∷ []))
unfolding LineByLine
LineByLine-snoc [] [] bs m h l = (l, tt)
LineByLine-snoc [] (x ∷ messages) bs m h l = absurd h
LineByLine-snoc (t ∷ typed) [] bs m h l = absurd h
LineByLine-snoc (t ∷ typed) (x ∷ messages) bs m h l =
    (h.0, LineByLine-snoc typed messages bs m h.1 l)

abbrev at_loop : (msgsize left : ℕ) (typed sent : List (List ℕ)) → Ledger
at_loop msgsize left typed sent = record {
  is_open = true;
  msgsize = msgsize;
  left = left;
  typed = typed;
  sent = sent;
  refused = none;
  over = false;
}

-- What `sender` does from its loop on.
send_and_close : (msgsize fuel : ℕ) → Main (Option Status)
send_and_close msgsize fuel = do send_lines msgsize fuel; do_call mq_close; exit (some success)

-- A line that `fgets` stored is always short enough.
fgets-fits :
    (msgsize : ℕ) (bytes : List ℕ)
    → length bytes < msgsize
    → leb msgsize (length (strip bytes)) ≡ false
fgets-fits msgsize bytes h = let short = length-strip bytes in ground (arith, short)

strip-shorter :
    (msgsize : ℕ) (bytes : List ℕ) → length bytes < msgsize → length (strip bytes) < msgsize
strip-shorter msgsize bytes h = let short = length-strip bytes in omega (arith, short)

no_lines : LineByLine [] []
unfolding LineByLine
no_lines = tt

send_lines-AllSent :
    (fuel m n : ℕ) (typed sent : List (List ℕ))
    → LineByLine typed sent
    → n < fuel
    → SafeIf rules Possible AllSent (at_loop m n typed sent) (send_and_close m fuel)
unfolding send_lines send_and_close
send_lines-AllSent zero m n typed sent l h = absurd (omega arith)
send_lines-AllSent (suc fuel) m n typed sent l h = (
  tt,
  λ flag _. elim (Bool-cases (value flag == 0)) [
    | inr stopped ↦ rw (stopped, SafeIf, ◌>>=◌) (refl, λ _ _. (refl, inl (refl, refl, l)))
    | inl going ↦
        rw (going, SafeIf, ◌>>=◌)
          (
            refl,
            elim [
              | failed e ↦ λ _. (
                tt,
                λ r _. elim (Bool-cases (value r == 0)) [
                  | inl fault ↦
                      rw (fault, SafeIf, ◌>>=◌)
                        (tt, λ _ _. (refl, λ _ _. (refl, inl (refl, refl, l))))
                  | inr ended ↦ rw (ended, SafeIf, ◌>>=◌) (refl, λ _ _. (refl, inl (refl, refl, l)))
                ],
              )
              | done k bytes ↦ λ p.
                  let next = LineByLine-snoc typed sent bytes (strip bytes) l (strip-Line bytes) in
                  rw (fgets-fits m bytes p.0, SafeIf, ◌>>=◌)
                    (
                      (refl, strip-shorter m bytes p.0),
                      elim [
                        | failed e ↦
                            λ _. (tt, λ _ _. (refl, λ _ _. (refl, inr (strip bytes, refl, next))))
                        | done j bs ↦ λ _. (
                          tt,
                          λ _ _.
                              send_lines-AllSent fuel m (n - 1) (typed ++ (bytes ∷ []))
                                (sent ++ (strip bytes ∷ [])) next (ground arith),
                        )
                      ],
                    )
            ],
          )
  ],
)

sender-AllSent :
    (fuel n : ℕ) → n < fuel → SafeIf rules Possible AllSent (with_input n) (sender fuel)
unfolding sender send_and_close
sender-AllSent fuel n h = (
  tt,
  λ _ _. (
    tt,
    λ _ _. (
      tt,
      λ _ _. (
        refl,
        elim [
          | failed e ↦ λ _. (tt, λ _ _. refl)
          | done _ _ ↦ λ _. (
            refl,
            elim [
              | failed e ↦ λ _. (tt, λ _ _. (refl, λ _ _. refl))
              | done m _ ↦ λ _. send_lines-AllSent fuel m n [] [] no_lines h
            ],
          )
        ],
      ),
    ),
  ),
)

-- With fuel above the number of lines typed before the end or a signal, and an `fgets` that keeps to
-- its buffer, the sender comes to a result whatever calls fail: it uses the queue only while it is
-- open, never sends a message that the queue is too short for, and closes the queue. With
-- EXIT_SUCCESS, either `stop_flag` was seen set or `fgets` failed, no `mq_send` failed, and the
-- messages sent are, one for each `fgets` and in order, what it stored before its first NUL or
-- newline; or an `mq_send` failed, and these are the messages sent with the refused one at the end.
pub sender_sends :
    (fuel n : ℕ) (k : Kernel Call)
    → n < fuel
    → Fair rules Possible (with_input n) (run k 0 (sender fuel)).events
    → Obeys rules (with_input n) (run k 0 (sender fuel)).events
      × AllSent
          (replay rules (with_input n) (run k 0 (sender fuel)).events)
          (run k 0 (sender fuel)).status
sender_sends fuel n k h fair =
    SafeIf-run rules Possible AllSent k 0 (with_input n) (sender fuel) fair
      (sender-AllSent fuel n h)
