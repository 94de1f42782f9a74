-- ===== src/Monitor.antt =====
-- Programs that fork children and wait for them: 7_2_Multiple_Processes, 7_3_waitpid,
-- 7_4_Non_Blocking_waitpid_with_WNOHANG and 7_5_WNOHANG_Better_Example of Course_MohanM/7_Process_Monitor, each
-- its main.c. Lines that only announce what comes next are left out.
use linux_system_programming.Base.{
  true, false, ltb, ℕ, zero, suc, String, Bool, not, Option, none, some, List, ◌==◌, if◌then◌else◌,
  ◌&&◌, [], ◌∷◌,
}
use linux_system_programming.Sys.{failed, done, Prog, pure, exit, call, do_call, ◌>>=◌, ◌>>◌}
pub mod Children
pub mod Reaping
pub mod Watching
mod Tests

-- `waitpid` with its options 0 or WNOHANG; `watch` is `waitpid(-1, &status, WNOHANG)`. A wait gives the number of
-- the child, and its status as the one element of `bytes`; 0 is for a child that has not ended.
pub data Call : Type 0 where
  fork wait watch : Call
  waitpid : (pid : ℕ) → (wnohang : Bool) → Call
  sleep : (seconds : ℕ) → Call
  print_error : String → Call
  print_done : (pid status : ℕ) → Call
  print_killed : (pid : ℕ) → Call
  print_active : Call

-- `exit(-1)`, and the other codes
pub data ExitCode : Type 0 where
  minus_1 : ExitCode
  code : ℕ → ExitCode

-- `none`: the fuel of a loop ran out.
abbrev pub Main : Type 0 → Type 0
Main A = Prog Call (Option ExitCode) A

abbrev pub status_of : List ℕ → ℕ
status_of [] = 0
status_of (status ∷ bytes) = status

abbrev pub die : {A : Type 0} → String → Main A
die message = do_call (print_error message) >> exit (some minus_1)

-- A child: it sleeps, and exits.
abbrev pub child : {A : Type 0} → (seconds status : ℕ) → Main A
child seconds status = do_call (sleep seconds) >> exit (some (code status))

-- `status != 0 && status < 256`
unfoldable pub says_killed : (status : ℕ) → Bool
says_killed status = not (status == 0) && ltb status 256

-- `wait(&status)` and what follows it
unfoldable pub reap : String → Main (Unit {0})
unfolding says_killed
reap message = call wait (elim [
  | failed e ↦ die message
  | done pid bytes ↦
      do_call (print_done pid (status_of bytes))
      >> (if says_killed (status_of bytes) then do_call (print_killed pid) else pure tt)
])

-- 7_2
unfoldable pub multiple_processes : Main (Option ExitCode)
unfolding reap
multiple_processes = call fork (elim [
  | failed e ↦ die "Fork error on child 1!!\n"
  | done zero bytes ↦ child 2 1
  | done (suc pid_1) bytes ↦ call fork (elim [
    | failed e ↦ die "Fork error on child 2!!\n"
    | done zero bytes ↦ child 3 2
    | done (suc pid_2) bytes ↦
        reap "--P: Wait error for a child, returned status is: %d\n"
        >> (reap "--P: Wait error for 2nd child\n" >> pure (some (code 0)))
  ])
])

-- `waitpid` on one child and the switch on its result, whose `case 0` is there with WNOHANG only
unfoldable pub wait_for : (pid : ℕ) → (wnohang : Bool) → String → Main (Unit {0})
wait_for pid wnohang message = call (waitpid pid wnohang) (elim [
  | failed e ↦ die message
  | done zero bytes ↦
      if wnohang then do_call print_active else do_call (print_done pid (status_of bytes))
  | done (suc n) bytes ↦ do_call (print_done pid (status_of bytes))
])

-- What follows a second `fork` that has failed: no `break` or `exit` stands before `case 0`.
unfoldable pub falls_through : {A : Type 0} → (seconds : ℕ) → Main A
falls_through seconds = do_call (print_error "Fork failed!!\n") >> child seconds 1

-- `perror` prints the text of 7_4 as it stands, `%d` too.
abbrev pub second_message : (wnohang : Bool) → String
second_message wnohang =
    if wnohang then "--P (%d): Wait failed for child 2\n" else "Wait failed for child 2\n"

-- What 7_3 and 7_4 share; 7_4 has WNOHANG.
unfoldable pub specific_children :
    (seconds_1 seconds_2 : ℕ) → (wnohang : Bool) → Main (Option ExitCode)
unfolding wait_for falls_through
specific_children seconds_1 seconds_2 wnohang = call fork (elim [
  | failed e ↦ die "Fork failed!!\n"
  | done zero bytes ↦ child seconds_1 0
  | done (suc pid_1) bytes ↦ call fork (elim [
    | failed e ↦ falls_through seconds_2
    | done zero bytes ↦ child seconds_2 1
    | done (suc pid_2) bytes ↦
        wait_for (suc pid_1) wnohang "Wait failed for child 1\n"
        >> (wait_for (suc pid_2) wnohang (second_message wnohang) >> pure (some (code 0)))
  ])
])

-- 7_3, and 7_4
abbrev pub waitpid_example : Main (Option ExitCode)
waitpid_example = specific_children 6 1 false

abbrev pub non_blocking_waitpid : Main (Option ExitCode)
non_blocking_waitpid = specific_children 6 1 true

-- The `while` loop of 7_5
unfoldable pub watch_children : (fuel count_active_childs : ℕ) → Main (Option ExitCode)
watch_children fuel zero = pure (some (code 0))
watch_children zero (suc count) = exit none
watch_children (suc fuel) (suc count) = call watch (elim [
  | failed e ↦ die "Error waitpid\n"
  | done zero bytes ↦ do_call print_active >> (do_call (sleep 1) >> watch_children fuel (suc count))
  | done (suc pid) bytes ↦
      do_call (print_done (suc pid) (status_of bytes)) >> watch_children fuel count
])

-- 7_5
unfoldable pub wnohang_example : (fuel : ℕ) → Main (Option ExitCode)
unfolding watch_children falls_through
wnohang_example fuel = call fork (elim [
  | failed e ↦ die "Fork failed!!\n"
  | done zero bytes ↦ child 3 2
  | done (suc pid_1) bytes ↦ call fork (elim [
    | failed e ↦ falls_through 1
    | done zero bytes ↦ child 1 1
    | done (suc pid_2) bytes ↦ watch_children fuel 2
  ])
])
