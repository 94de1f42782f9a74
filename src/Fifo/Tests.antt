-- ===== src/Fifo/Tests.antt =====
-- Runs of the FIFO programs against concrete kernels.
use linux_system_programming.Fifo.Reader.{fill}
use linux_system_programming.Fifo.{of_bytes, c_string}
use linux_system_programming.Base.{
  length, codes, ℕ, min, refl, some, List, arith, ◌==◌, if◌then◌else◌, ◌≡◌, [], ◌∷◌,
}
use linux_system_programming.Mq.{strip, Line}
use linux_system_programming.Sys.{success, failure, failed, done, Kernel, run, Obeys, replay}
use linux_system_programming.Fifo.{Call, read, fgets, write, bytes_of, frames, frame}
use linux_system_programming.Fifo.Reader.{reader}
use linux_system_programming.Fifo.Writer.{writer}
use linux_system_programming.Fifo.Delivery.{before, reader_delivers}
use linux_system_programming.Fifo.Shown.{Shown}
use linux_system_programming.Fifo.Sending.{with_input, writer_frames}
use linux_system_programming.Fifo.Framing.{Framed}
use linux_system_programming.Fifo.Shown as Shown
use linux_system_programming.Fifo.Framing as Framing

abbrev one_line : List (List ℕ)
one_line = codes "hi" ∷ []

-- The length comes at once, the payload in two pieces, and then the end.
abbrev in_pieces : Kernel Call
in_pieces j (read m) =
    if j == 6
    then done 4 (3 ∷ 0 ∷ 0 ∷ 0 ∷ [])
    else if j == 9
    then done 2 (codes "hi")
    else if j == 11
    then done 1 (0 ∷ [])
    else done 0 []
in_pieces j c = done 0 []

reader_delivers_example :
    Obeys Shown.rules (before one_line 0) (run in_pieces 0 (reader 301 2)).events
    × Shown one_line
        (replay Shown.rules (before one_line 0) (run in_pieces 0 (reader 301 2)).events)
        (run in_pieces 0 (reader 301 2)).status
unfolding run reader frames frame bytes_of fill of_bytes c_string
reader_delivers_example =
    reader_delivers 301 2 one_line 0 in_pieces (ground arith) (omega arith) (omega arith)
      (ground arith)

-- One line is typed, and the FIFO accepts the payload in pieces of two bytes.
abbrev by_twos : Kernel Call
by_twos j (fgets size) = if j == 6 then done 0 (codes "hi\n") else failed 0
by_twos j (write bs) = if length bs == 4 then done 4 [] else done (min 2 (length bs)) []
by_twos j c = done 0 []

writer_frames_example :
    Obeys Framing.rules (with_input 1 0) (run by_twos 0 (writer 301 2)).events
    × Framed
        (replay Framing.rules (with_input 1 0) (run by_twos 0 (writer 301 2)).events)
        (run by_twos 0 (writer 301 2)).status
    × ((bytes : List ℕ) → Line bytes (strip bytes))
unfolding run writer bytes_of strip
writer_frames_example = writer_frames 301 2 1 0 by_twos (omega arith) (omega arith) (ground arith)

reader_status : (run in_pieces 0 (reader 301 2)).status ≡ some success
unfolding run reader fill of_bytes
reader_status = refl

writer_status : (run by_twos 0 (writer 301 2)).status ≡ some failure
unfolding run writer strip bytes_of
writer_status = refl
