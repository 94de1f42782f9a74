-- ===== src/Mq/Receiver.antt =====
-- Course_MohanM/11_IPC/11_6_POSIX_Message_Queue_Basics/11_6_2_Receiver/main.c
use linux_system_programming.Sys.{
  Fair, SafeIf-run, Kernel, run, Obeys, replay, SafeIf, Status, Reply, failed, done, pure, exit,
  call, do_call, attempt, Rules, ◌>>=◌, ◌>>◌,
}
use linux_system_programming.Base.{
  Bool-cases, inl, inr, arith, ℕ, zero, suc, refl, Bool, true, false, Option, none, some, List,
  ◌==◌, ◌-◌, ◌<◌, ◌≡◌, ◌≢◌, [], ◌∷◌, ◌++◌,
}
use linux_system_programming.Mq.{
  Main, Call, stop_flag, mq_receive, perror, print_error, printf, show, mq_close, mq_unlink,
  mq_open, mq_getattr, malloc, free, value, handle_signals, failure, success,
}

abbrev pub eintr : ℕ
eintr = 4

-- `cleanup(mqd, ptr)`; `has_buffer` tells whether the pointer is not NULL.
unfoldable pub cleanup : (has_buffer : Bool) → Main (Unit {0})
cleanup has_buffer =
    do_call mq_close
    >> (do_call mq_unlink >> elim has_buffer [ true ↦ do_call free | false ↦ pure tt ])

-- The `while (!stop_flag)` loop; it goes on after the loop.
unfoldable pub receive_messages : (msgsize fuel : ℕ) → Main (Unit {0})
receive_messages msgsize zero = exit none
receive_messages msgsize (suc fuel) = call stop_flag λ flag. elim (value flag == 0) [
  | false ↦ pure tt
  | true ↦ call (mq_receive msgsize) (elim [
    | failed e ↦ elim (e == eintr) [
      | true ↦ call stop_flag λ again. elim (value again == 0) [
        | false ↦ do_call (printf "R: Kill signal caught!\n")
        | true ↦
            do_call
              (print_error "R : Read interrupted by an unhandled signal, continuing to read...\n")
            >> receive_messages msgsize fuel
      ]
      | false ↦ do_call (perror "Error: mq_receive")
    ]
    | done n bytes ↦ do_call (show bytes) >> receive_messages msgsize fuel
  ])
]

unfoldable pub receiver : (fuel : ℕ) → Main (Option Status)
unfolding receive_messages cleanup
receiver fuel = do
  handle_signals
  do_call mq_unlink
  attempt mq_open (do_call (perror "R : Error: mq_open") >> exit (some failure))
  msgsize ←
      attempt mq_getattr
        (do_call (perror "R : Error: mq_getattr") >> (cleanup false >> exit (some failure)))
  attempt (malloc msgsize)
      (do_call (perror "R : Error: malloc") >> (cleanup false >> exit (some failure)))
  receive_messages msgsize fuel
  cleanup true
  exit (some success)

-- `buffer`: the size of the buffer allocated; `unlinked`: the name was removed and not created since;
-- `left`: how many messages and interruptions are still to come before a signal to stop.
pub record Ledger : Type 0 where
  pub is_open : Bool
  pub unlinked : Bool
  pub buffer : Option ℕ
  pub left : ℕ
  pub received : List (List ℕ)
  pub shown : List (List ℕ)

abbrev pub with_messages : ℕ → Ledger
with_messages n = record {
  is_open = false;
  unlinked = false;
  buffer = none;
  left = n;
  received = [];
  shown = [];
}

-- The queue is opened after its old name is removed and used while it is open; a message goes into a
-- buffer of the size that `mq_receive` is told, and the buffer is freed only while there is one.
abbrev pub Allowed : Ledger → Call → Type 0
Allowed s mq_open = (s.is_open ≡ false) × (s.unlinked ≡ true)
Allowed s mq_getattr = s.is_open ≡ true
Allowed s mq_close = s.is_open ≡ true
Allowed s (mq_receive n) = (s.is_open ≡ true) × (s.buffer ≡ some n)
Allowed s (malloc n) = s.buffer ≡ none
Allowed s free = s.buffer ≢ none
Allowed s c = Unit

abbrev pub step : Ledger → Call → Reply → Ledger
step s mq_open (done n bs) = record s { is_open = true; unlinked = false }
step s mq_close r = record s { is_open = false }
step s mq_unlink r = record s { unlinked = true }
step s (malloc n) (done m bs) = record s { buffer = some n }
step s free r = record s { buffer = none }
step s (mq_receive m) (done n bs) = record s {
  left = s.left - 1;
  received = s.received ++ (bs ∷ []);
}
step s (mq_receive m) (failed e) = record s { left = s.left - 1 }
step s (show bs) r = record s { shown = s.shown ++ (bs ∷ []) }
step s c r = s

abbrev pub rules : Rules Call
rules = record { Ledger = Ledger; Allowed = Allowed; step = step }

-- `mq_receive` gives a message or an interruption only while there is one.
abbrev pub Possible : Ledger → Call → Reply → Type 0
Possible s (mq_receive m) (done n bs) = 0 < s.left
Possible s (mq_receive m) (failed e) = (e ≡ eintr) → 0 < s.left
Possible s c r = Unit

-- A result is there, the queue is closed, its name removed unless it was never made, and the buffer
-- freed. Every message received has been shown, in order.
abbrev pub AllShown : Ledger → Option Status → Type 0
AllShown s none = ⊥
AllShown s (some status) =
    (s.is_open ≡ false) × (s.unlinked ≡ true) × (s.buffer ≡ none) × (s.shown ≡ s.received)

abbrev at_loop : (msgsize left : ℕ) → List (List ℕ) → Ledger
at_loop msgsize left messages = record {
  is_open = true;
  unlinked = false;
  buffer = some msgsize;
  left = left;
  received = messages;
  shown = messages;
}

-- What `receiver` does after its loop, and from its loop on.
finish : Main (Option Status)
unfolding cleanup
finish = cleanup true >> exit (some success)

receive_and_finish : (msgsize fuel : ℕ) → Main (Option Status)
unfolding receive_messages finish
receive_and_finish msgsize fuel = receive_messages msgsize fuel >> finish

finish-AllShown :
    (m n : ℕ) (messages : List (List ℕ))
    → SafeIf rules Possible AllShown (at_loop m n messages) finish
unfolding finish
finish-AllShown m n messages =
    (refl, λ _ _. (tt, λ _ _. (ground arith, λ _ _. (refl, refl, refl, refl))))

interrupted :
    (e n fuel : ℕ) → n < suc fuel → (e ≡ eintr → 0 < n) → (e == eintr) ≡ true → n - 1 < fuel
interrupted e n fuel h p signal =
    let same : e ≡ eintr = ground arith in let more = p same in omega (arith, more)

receive-AllShown :
    (fuel m n : ℕ) (messages : List (List ℕ))
    → n < fuel
    → SafeIf rules Possible AllShown (at_loop m n messages) (receive_and_finish m fuel)
unfolding receive_messages receive_and_finish finish
receive-AllShown zero m n messages h = absurd (omega arith)
receive-AllShown (suc fuel) m n messages h = (
  tt,
  λ flag _. elim (Bool-cases (value flag == 0)) [
    | inr stopped ↦ rw (stopped, SafeIf, ◌>>=◌) (finish-AllShown m n messages)
    | inl going ↦
        rw (going, SafeIf, ◌>>=◌)
          (
            (refl, refl),
            elim [
              | failed e ↦ λ p. elim (Bool-cases (e == eintr)) [
                | inr fault ↦
                    rw (fault, SafeIf, ◌>>=◌) (tt, λ _ _. finish-AllShown m (n - 1) messages)
                | inl signal ↦
                    rw (signal, SafeIf, ◌>>=◌)
                      (
                        tt,
                        λ again _. elim (Bool-cases (value again == 0)) [
                          | inr stopped ↦
                              rw (stopped, SafeIf, ◌>>=◌)
                                (tt, λ _ _. finish-AllShown m (n - 1) messages)
                          | inl more ↦
                              rw (more, SafeIf, ◌>>=◌)
                                (
                                  tt,
                                  λ _ _.
                                      receive-AllShown fuel m (n - 1) messages
                                        (interrupted e n fuel h p signal),
                                )
                        ],
                      )
              ]
              | done k bytes ↦ λ p. (
                tt,
                λ _ _.
                    receive-AllShown fuel m (n - 1) (messages ++ (bytes ∷ [])) (omega (arith, p)),
              )
            ],
          )
  ],
)

receiver-AllShown :
    (fuel n : ℕ) → n < fuel → SafeIf rules Possible AllShown (with_messages n) (receiver fuel)
unfolding receiver receive_and_finish finish
receiver-AllShown fuel n h = (
  tt,
  λ _ _. (
    tt,
    λ _ _. (
      tt,
      λ _ _. (
        tt,
        λ _ _. (
          (refl, refl),
          elim [
            | failed e ↦ λ _. (tt, λ _ _. (refl, refl, refl, refl))
            | done _ _ ↦ λ _. (
              refl,
              elim [
                | failed e ↦ λ _. (tt, λ _ _. (refl, λ _ _. (tt, λ _ _. (refl, refl, refl, refl))))
                | done m _ ↦ λ _. (
                  refl,
                  elim [
                    | failed e ↦
                        λ _. (tt, λ _ _. (refl, λ _ _. (tt, λ _ _. (refl, refl, refl, refl))))
                    | done _ _ ↦ λ _. receive-AllShown fuel m n [] h
                  ],
                )
              ],
            )
          ],
        ),
      ),
    ),
  ),
)

-- With fuel above the number of messages and interruptions before a signal to stop, the receiver comes
-- to a result whatever calls fail: it removes an old queue before it opens its own, uses the queue
-- only while it is open, and receives only into a buffer of the size it tells. At the end the queue
-- is closed and its name removed, the buffer is freed, and every message received has been shown, in
-- order.
pub receiver_shows :
    (fuel n : ℕ) (k : Kernel Call)
    → n < fuel
    → Fair rules Possible (with_messages n) (run k 0 (receiver fuel)).events
    → Obeys rules (with_messages n) (run k 0 (receiver fuel)).events
      × AllShown
          (replay rules (with_messages n) (run k 0 (receiver fuel)).events)
          (run k 0 (receiver fuel)).status
receiver_shows fuel n k h fair =
    SafeIf-run rules Possible AllShown k 0 (with_messages n) (receiver fuel) fair
      (receiver-AllShown fuel n h)
