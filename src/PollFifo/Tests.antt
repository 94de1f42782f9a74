-- ===== src/PollFifo/Tests.antt =====
-- Runs of the FIFO programs that poll against concrete kernels.
use linux_system_programming.Sys.{failed, done, Kernel, run, Obeys, replay}
use linux_system_programming.Base.{
  length, codes, ℕ, min, refl, none, List, arith, ◌==◌, if◌then◌else◌, ◌≡◌, [], ◌∷◌,
}
use linux_system_programming.Fifo.{
  Call, read, fgets, write, poll, stop_flag, bytes_of, frames, frame, of_bytes, c_string,
}
use linux_system_programming.Fifo.Delivery.{before}
use linux_system_programming.Fifo.Sending.{with_input}
use linux_system_programming.Fifo.Framing.{Framed}
use linux_system_programming.Mq.{strip, Line}
use linux_system_programming.PollFifo.{pollin, pollhup, has_pollin}
use linux_system_programming.PollFifo.Reader.{poll_reader, serve, fill}
use linux_system_programming.PollFifo.Writer.{poll_writer, send_all}
use linux_system_programming.PollFifo.Shown.{Kept}
use linux_system_programming.PollFifo.Shown as Shown
use linux_system_programming.PollFifo.Payload as Payload
use linux_system_programming.PollFifo.Delivery.{poll_reader_keeps}
use linux_system_programming.PollFifo.Sending.{poll_writer_frames}
use linux_system_programming.PollFifo.Hangup.{hangup_is_endless}

abbrev one_line : List (List ℕ)
one_line = codes "hi" ∷ []

-- First a timeout; then the length comes at once, and the payload after an EAGAIN and in two pieces. At
-- the end a signal.
abbrev with_timeout : Kernel Call
with_timeout j (poll events) = if j == 7 then done 0 [] else done 1 (pollin ∷ [])
with_timeout j (read m) =
    if j == 10
    then done 4 (3 ∷ 0 ∷ 0 ∷ 0 ∷ [])
    else if j == 12
    then failed 11
    else if j == 13
    then done 2 (codes "hi")
    else done 1 (0 ∷ [])
with_timeout j stop_flag = if j == 17 then done 1 [] else done 0 []
with_timeout j c = done 0 []

poll_reader_keeps_example :
    Obeys Shown.rules (before one_line 2) (run with_timeout 0 (poll_reader 303 4)).events
    × Kept one_line
        (replay Shown.rules (before one_line 2) (run with_timeout 0 (poll_reader 303 4)).events)
        (run with_timeout 0 (poll_reader 303 4)).status
unfolding run poll_reader frames frame bytes_of fill of_bytes c_string has_pollin
poll_reader_keeps_example =
    poll_reader_keeps 303 4 one_line 2 with_timeout (ground arith) (omega arith) (omega arith)
      (ground arith)

-- One line is typed. The FIFO is full once, and accepts pieces of two bytes.
abbrev when_full : Kernel Call
when_full j (poll events) = done 1 (4 ∷ [])
when_full j (fgets size) = if j == 7 then done 0 (codes "hi\n") else failed 0
when_full j (write bs) = if j == 8 then failed 11 else done (min 2 (length bs)) []
when_full j c = done 0 []

poll_writer_frames_example :
    Obeys Payload.rules (with_input 1 1) (run when_full 0 (poll_writer 302 3)).events
    × Framed
        (replay Payload.rules (with_input 1 1) (run when_full 0 (poll_writer 302 3)).events)
        (run when_full 0 (poll_writer 302 3)).status
    × ((bytes : List ℕ) → Line bytes (strip bytes))
unfolding run poll_writer bytes_of strip send_all
poll_writer_frames_example =
    poll_writer_frames 302 3 1 1 when_full (omega arith) (omega arith) (ground arith)

-- No signal has come, and `poll` reports the hangup.
abbrev hung_up : Kernel Call
hung_up j (poll events) = done 1 (pollhup ∷ [])
hung_up j c = done 0 []

hangup_is_endless_example : (run hung_up 0 (serve 301 20)).status ≡ none
hangup_is_endless_example = hangup_is_endless hung_up 301 20 0 (λ _. refl) (λ _. refl)
