-- ===== src/Shm/Handshake/Delivery.antt =====
-- What the handshake gives: the reader loads the message that the writer stored, and the writer
-- does not finish before it.
use linux_system_programming.Sys.{replay, Kernel, run, Safe, Safe-run, next, pass}
use linux_system_programming.Base.{
  sym, ap, ◌∙◌, Bool-cases, length, All, leb, ℕ, refl, inl, inr, true, false, List, arith, ◌≡◌, ◌≢◌,
  [],
}
use linux_system_programming.Shm.{Call, Status, success, failure}
use linux_system_programming.Shm.Writer.{shm_writer, snprintf_s, message_max_len}
use linux_system_programming.Shm.Reader.{shm_reader}
use linux_system_programming.Shm.Handshake.{World, start, Trace, Weave}
use mathlib.Core.Path.{subst}
use linux_system_programming.Shm.Handshake.Protocol.{
  Agree, Sent, Got, send_rules, get_rules, Stopped, Weave-Stopped,
}

abbrev nothing_sent : Sent
nothing_sent = record { stored = false; posted = false; acked = false }

abbrev nothing_got : Got
nothing_got = record { waited = false; loaded = false; replied = false }

abbrev Acked : Sent → Status → Type 0
Acked s success = s.acked ≡ true
Acked s failure = Unit

writer_sends :
    (n : ℕ) (m : List ℕ)
    → Safe (send_rules (snprintf_s message_max_len m)) Acked nothing_sent (shm_writer n m)
unfolding shm_writer
writer_sends n m = elim (Bool-cases (leb message_max_len (length m))) [
  | inl long ↦ rw long (ground arith)
  | inr fits ↦ rw fits (
      next tt (λ _. ground arith)
        λ fd _.
          next tt (λ _. ground arith)
            λ _ _.
              next tt (λ _. ground arith)
                λ _ _.
                  next tt (λ _. ground arith)
                    λ _ _.
                      next (ground arith) (λ _. ground arith)
                        λ _ _.
                          next (ground arith) (λ _. ground arith)
                            λ _ _.
                              pass (refl, refl)
                                λ _. pass tt λ _.
                                  next (ground arith) (λ _. ground arith)
                                    λ _ _.
                                      next refl (λ _. ground arith)
                                        λ _ _.
                                          next tt (λ _. ground arith)
                                            λ _ _. next tt (λ _. ground arith) λ _ _. ground arith)
]

reader_gets : (n : ℕ) → Safe get_rules (λ s e. Unit) nothing_got (shm_reader n)
unfolding shm_reader
reader_gets n =
    next tt (λ _. ground arith)
      λ fd _.
        next tt (λ _. ground arith)
          λ _ _.
            next tt (λ _. ground arith)
              λ _ _.
                next refl (λ _. ground arith)
                  λ _ _. pass refl λ _. next (refl, refl) (λ _. ground arith) λ _ _. ground arith

stopped :
    (kw kr : Kernel Call) (n : ℕ) (m : List ℕ) (end : World) (rest : Trace)
    → Weave end rest start (run kw 0 (shm_writer n m)).events (run kr 0 (shm_reader n)).events
    → Stopped
        (snprintf_s message_max_len m)
        nothing_sent
        end
        rest
        (run kw 0 (shm_writer n m)).events
stopped kw kr n m end rest v =
    Weave-Stopped nothing_sent nothing_got v
      (record {
        ready_le = omega arith;
        put = λ e. cc;
        ordered = λ e. cc;
        shown = λ e. cc;
        acks_le = omega arith;
        read = λ e. cc;
        kept = λ e. cc;
        same = tt;
      })
      (Safe-run _ Acked kw 0 _ _ (writer_sends n m)).0
      (Safe-run _ (λ s e. Unit) kr 0 _ _ (reader_gets n)).0

-- In every interleaving of the two programs, stopped anywhere and whatever calls fail, each load of
-- the reader gives the message, cut to 255 bytes and terminated.
pub reader_sees :
    (kw kr : Kernel Call) (n : ℕ) (m : List ℕ) (end : World) (rest : Trace)
    → Weave end rest start (run kw 0 (shm_writer n m)).events (run kr 0 (shm_reader n)).events
    → All (λ bs. bs ≡ snprintf_s message_max_len m) end.seen
reader_sees kw kr n m end rest v = (stopped kw kr n m end rest v).agree.same

Agree-acked :
    {text : List ℕ} {s : Sent} {g : Got} {w : World}
    → Agree text s g w
    → s.acked ≡ true
    → w.seen ≢ []
Agree-acked h e = ground arith

-- When the writer has ended with EXIT_SUCCESS, so that it may have unlinked the object, the reader
-- has loaded the message.
pub writer_waits :
    (kw kr : Kernel Call) (n : ℕ) (m : List ℕ) (end : World)
    → Weave end [] start (run kw 0 (shm_writer n m)).events (run kr 0 (shm_reader n)).events
    → (run kw 0 (shm_writer n m)).status ≡ success
    → end.seen ≢ []
writer_waits kw kr n m end v ok =
    Agree-acked at_end.agree (ap Sent.acked (sym at_end.reached) ∙ acked)
  where
    at_end :
        Stopped
          (snprintf_s message_max_len m)
          nothing_sent
          end
          []
          (run kw 0 (shm_writer n m)).events
    at_end = stopped kw kr n m end [] v

    acked :
        (replay
          (send_rules (snprintf_s message_max_len m))
          nothing_sent
          (run kw 0 (shm_writer n m)).events).acked
        ≡ true
    acked =
        subst
          (Acked (
            replay (send_rules (snprintf_s message_max_len m)) nothing_sent
              (run kw 0 (shm_writer n m)).events))
          ok (Safe-run _ Acked kw 0 nothing_sent (shm_writer n m) (writer_sends n m)).1
