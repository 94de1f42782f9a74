-- ===== src/PollFifo.antt =====
-- The FIFO programs Course_MohanM/11_IPC/11_5_FIFO_Real_Life_Example_with_poll_and_O_NONBLOCK: 11_5_1_Writer/main.c
-- and 11_5_2_Reader/main.c, on the calls and the frames of the programs of 11_4. A status `none` means
-- that the fuel of a loop ran out. Printing that tells only of the progress is left out.
use linux_system_programming.Base.{false, ◌==◌, ◌%◌, ℕ, Bool, List, [], ◌∷◌}
pub mod Reader
pub mod Writer
pub mod Shown
pub mod Fill
pub mod Turn
pub mod Delivery
pub mod Payload
pub mod Sending
pub mod Hangup
mod Tests

-- The bits POLLIN, POLLOUT and POLLHUP of Linux
abbrev pub pollin : ℕ
pollin = 1

abbrev pub pollout : ℕ
pollout = 4

abbrev pub pollhup : ℕ
pollhup = 16

abbrev pub eagain : ℕ
eagain = 11

-- `pfd.revents & POLLIN`, where `poll` put the one field `revents`
unfoldable pub has_pollin : (revents : List ℕ) → Bool
has_pollin [] = false
has_pollin (revents ∷ rest) = revents % 2 == 1
