-- ===== src/Mq/Tests.antt =====
-- Runs of the message queue programs against concrete kernels.
use linux_system_programming.Sys.{failed, done, Kernel, run, Obeys, replay}
use linux_system_programming.Base.{codes, refl, some, arith, ◌==◌, if◌then◌else◌, ◌≡◌, []}
use linux_system_programming.Mq.{
  Call, mq_getattr, fgets, feof, stop_flag, mq_receive, strip, success,
}
use linux_system_programming.Mq.Sender.{sender, sender_sends, with_input, AllSent}
use linux_system_programming.Mq.Receiver.{receiver, receiver_shows, with_messages, AllShown}
use linux_system_programming.Mq.Sender as Sender
use linux_system_programming.Mq.Receiver as Receiver

-- Two lines are typed, "hi" and "go", and then the input ends.
abbrev two_lines : Kernel Call
two_lines j mq_getattr = done 256 []
two_lines j (fgets size) =
    if j == 6 then done 0 (codes "hi\n") else if j == 10 then done 0 (codes "go\n") else failed 0
two_lines j feof = done 1 []
two_lines j c = done 0 []

sender_sends_example :
    Obeys Sender.rules (with_input 2) (run two_lines 0 (sender 3)).events
    × AllSent
        (replay Sender.rules (with_input 2) (run two_lines 0 (sender 3)).events)
        (run two_lines 0 (sender 3)).status
unfolding run sender strip
sender_sends_example = sender_sends 3 2 two_lines (omega arith) (ground arith)

-- One message comes, then an interruption, then a signal to stop. Position 8 is the first receive.
abbrev one_message : Kernel Call
one_message j mq_getattr = done 256 []
one_message j stop_flag = if j == 14 then done 1 [] else done 0 []
one_message j (mq_receive size) = if j == 8 then done 2 (codes "hi") else failed 4
one_message j c = done 0 []

receiver_shows_example :
    Obeys Receiver.rules (with_messages 2) (run one_message 0 (receiver 3)).events
    × AllShown
        (replay Receiver.rules (with_messages 2) (run one_message 0 (receiver 3)).events)
        (run one_message 0 (receiver 3)).status
unfolding run receiver
receiver_shows_example = receiver_shows 3 2 one_message (omega arith) (ground arith)

sender_status : (run two_lines 0 (sender 3)).status ≡ some success
unfolding run sender strip
sender_status = refl

receiver_status : (run one_message 0 (receiver 3)).status ≡ some success
unfolding run receiver
receiver_status = refl
