-- ===== src/Fifo.antt =====
-- The FIFO programs Course_MohanM/11_IPC/11_4_FIFO_Basics: 11_4_1_Writer_End/main.c and
-- 11_4_2_Reader_End/main.c, and the frames that they exchange. A status `none` means that the fuel of a
-- loop ran out. The signal handlers only set `stop_flag`, which the kernel shows at each test of it.
use linux_system_programming.Sys.{Status, Reply, failed, done, Prog}
use linux_system_programming.Base.{
  length, All, ℕ, String, refl, Option, List, arith, ◌==◌, if◌then◌else◌, ◌+◌, ◌*◌, ◌/◌, ◌%◌, ◌<◌,
  ◌≡◌, ◌≢◌, [], ◌∷◌, ◌++◌,
}
pub mod Reader
pub mod Shown
pub mod Fill
pub mod Delivery
pub mod Writer
pub mod Framing
pub mod Payload
pub mod Sending
mod Tests

-- `read n` asks for at most `n` bytes and replies with those that it put; `show` prints a message. Of the
-- calls only `poll` is not one of 11_4; it puts the `revents`.
pub data Call : Type 0 where
  sigaction : (sig : ℕ) → Call
  perror print_error printf : String → Call
  stop_flag : Call
  mkfifo open_fifo close unlink : Call
  fgets : (size : ℕ) → Call
  malloc : (size : ℕ) → Call
  free : Call
  read : (at_most : ℕ) → Call
  poll : (events : ℕ) → Call
  write : List ℕ → Call
  show : List ℕ → Call

abbrev pub Main : Type 0 → Type 0
Main A = Prog Call (Option Status) A

abbrev pub value : Reply → ℕ
value (failed e) = 0
value (done n bytes) = n

abbrev pub eintr : ℕ
eintr = 4

-- The four bytes of a uint32_t on a little-endian machine, and back.
unfoldable pub bytes_of : ℕ → List ℕ
bytes_of n = n % 256 ∷ n / 256 % 256 ∷ n / 65536 % 256 ∷ n / 16777216 % 256 ∷ []

unfoldable pub of_bytes : List ℕ → ℕ
of_bytes [] = 0
of_bytes (b ∷ bs) = b + 256 * of_bytes bs

-- What the writer sends for a line: its length with the terminator, the line and the terminator.
unfoldable pub frame : List ℕ → List ℕ
frame line = bytes_of (length line + 1) ++ (line ++ (0 ∷ []))

unfoldable pub frames : List (List ℕ) → List ℕ
frames [] = []
frames (line ∷ lines) = frame line ++ frames lines

-- What `%s` prints of a buffer
unfoldable pub c_string : List ℕ → List ℕ
c_string [] = []
c_string (b ∷ bs) = let rest = c_string bs in if b == 0 then [] else (b ∷ rest)

pub of_bytes-bytes_of : (n : ℕ) → n < 4294967296 → of_bytes (bytes_of n) ≡ n
unfolding of_bytes bytes_of
of_bytes-bytes_of n h = omega (arith)

-- A line is printed as it is, whatever follows its terminator.
pub c_string-append :
    (line rest : List ℕ) → All (λ b. b ≢ 0) line → c_string ((line ++ (0 ∷ [])) ++ rest) ≡ line
unfolding c_string
c_string-append [] rest h = refl
c_string-append (b ∷ line) rest h =
    rw (c_string-append line rest h.1) (let nonzero = h.0 in ground arith)
