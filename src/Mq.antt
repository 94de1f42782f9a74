-- ===== src/Mq.antt =====
-- The message queue programs Course_MohanM/11_IPC/11_6_POSIX_Message_Queue_Basics: 11_6_1_Sender/main.c
-- and 11_6_2_Receiver/main.c. A status `none` means that the fuel of a message loop ran out. The signal
-- handlers only set `stop_flag`, which the kernel shows at each test of it.
pub mod Sender
pub mod Receiver
mod Tests
use linux_system_programming.Base.{
  Bool-cases, refl, inl, inr, arith, ◌≡◌, ◌⊎◌, [], ◌∷◌, codes, ℕ, zero, suc, String, true, false,
  Option, none, some, List, ◌==◌, if◌then◌else◌,
}
use linux_system_programming.Sys.{
  Reply, failed, done, Prog, pure, exit, call, do_call, attempt, ◌>>=◌, ◌>>◌, Status, success,
  failure,
}

-- `mq_getattr` gives `mq_msgsize`. `fgets` gives the bytes it stored before its terminator, and
-- `feof` tells of the end of the input. `show` prints a message that was received.
pub data Call : Type 0 where
  sigaction : (sig : ℕ) → Call
  perror print_error printf : String → Call
  stop_flag feof : Call
  mq_open mq_getattr mq_close mq_unlink : Call
  fgets : (size : ℕ) → Call
  mq_send : List ℕ → Call
  malloc : (size : ℕ) → Call
  mq_receive : (size : ℕ) → Call
  free : Call
  show : List ℕ → Call

abbrev pub Main : Type 0 → Type 0
Main A = Prog Call (Option Status) A

abbrev pub value : Reply → ℕ
value (failed e) = 0
value (done n bytes) = n

-- `sigaction` for SIGINT, SIGTERM and SIGHUP
abbrev pub handle_signals : Main (Unit {0})
handle_signals = do do_call (sigaction 2); do_call (sigaction 15); do_call (sigaction 1)

-- `buf_write[strcspn(buf_write, "\n")] = '\0'`, as far as the new terminator
unfoldable pub strip : List ℕ → List ℕ
strip [] = []
strip (b ∷ bs) = let rest = strip bs in if b == 0 then [] else if b == 10 then [] else (b ∷ rest)

-- `line` is what stands in `bytes` before the first NUL or newline, or all of it without one.
unfoldable pub Line : (bytes line : List ℕ) → Type 0
Line [] m = m ≡ []
Line (b ∷ bs) [] = (b ≡ 0) ⊎ (b ≡ 10)
Line (b ∷ bs) (c ∷ m) = (b ≡ c) × (¬ b ≡ 0) × (¬ b ≡ 10) × Line bs m

pub strip-Line : (bs : List ℕ) → Line bs (strip bs)
unfolding strip Line
strip-Line [] = refl
strip-Line (b ∷ bs) = elim (Bool-cases (b == 0)) [
  | inl zero_byte ↦ rw (zero_byte) (inl (ground (arith, zero_byte)))
  | inr other ↦ elim (Bool-cases (b == 10)) [
    | inl newline ↦ rw (other, newline) (inr (ground (arith, newline)))
    | inr more ↦ rw (other, more) (refl, ground (arith, other), ground (arith, more), strip-Line bs)
  ]
]
