-- ===== src/OpenFile/Seek/Final.antt =====
-- What 2_4_Lseek comes to: its helpers in the order of `main`.
use linux_system_programming.Fifo.{c_string}
use linux_system_programming.Base.{
  codes, ◌⊎◌, arith, inl, inr, if◌then◌else◌, ℕ, refl, true, false, ◌≡◌, [],
}
use linux_system_programming.Sys.{
  Fair, SafeIf-run, Kernel, run, Obeys, replay, failed, done, pure, SafeIf, ◌>>=◌,
}
use linux_system_programming.Files.{is_success, success, err_file_close, Libc, logged}
use linux_system_programming.OpenFile.{
  Call, emit, log_error, close_file_safer, seek_set, seek_cur, seek_end,
}
use linux_system_programming.OpenFile.Seek.Steps.{seek-Goes, write-Goes, read-Goes}
use linux_system_programming.OpenFile.Description.{emptied}
use linux_system_programming.OpenFile.Seek.{session, main}
use linux_system_programming.OpenFile.Seek.Effect.{
  Ledger, rules, Possible, Sought, final_content, final_shown, start,
}

close-Sought :
    (c : Libc) (s : Ledger)
    → s.is_open ≡ true
    → (s.exact ≡ false)
      ⊎ ((s.file.content ≡ final_content) × (s.shown ≡ final_shown c s.descriptor))
    → SafeIf rules Possible (Sought c) s (
        close_file_safer c ": " >>= λ closed.
        pure (if is_success closed then success else err_file_close))
unfolding close_file_safer log_error emit
close-Sought c s opened h = (
  opened,
  elim [ failed e ↦ λ _. (tt, λ _ _. (tt, λ _ _. (refl, refl))) | done n bs ↦ λ _. (refl, h) ],
)

abbrev opened : ℕ → Ledger
opened f = record { is_open = true; descriptor = f; file = emptied; shown = []; exact = true }

session-Sought : (c : Libc) (f : ℕ) → SafeIf rules Possible (Sought c) (opened f) (session c f)
unfolding session logged c_string
session-Sought c f =
    let F = Sought c in
    (seek-Goes c F 0 seek_set _ _ refl (
      write-Goes c F (codes "1234567891011121314") _ _ refl (omega arith) (
        seek-Goes c F 0 seek_cur _ _ refl (
          seek-Goes c F 2 seek_set _ _ refl (
            write-Goes c F (codes "00") _ _ refl (omega arith) (
              seek-Goes c F 6 seek_cur _ _ refl (
                read-Goes c F f 10 _ _ refl (
                  seek-Goes c F 0 seek_end _ _ refl (
                    write-Goes c F (codes "tabbed text") _ _ refl (omega arith) (
                      seek-Goes c F 0 seek_cur _ _ refl (
                        seek-Goes c F 0 seek_set _ _ refl (
                          read-Goes c F f 19 _ _ refl (record {
                            safe = close-Sought c _ refl (inr (refl, refl));
                            broken = λ t held inexact. close-Sought c t held (inl inexact);
                          }))))))))))))).safe

main-Sought : (c : Libc) → SafeIf rules Possible (Sought c) start (main c)
unfolding main log_error emit
main-Sought c = (
  tt,
  elim [
    | failed e ↦ λ _. (tt, λ _ _. (tt, λ _ _. (refl, refl)))
    | done f bs ↦ λ _. session-Sought c f
  ],
)

-- Against every kernel whose replies are documented ones, whatever calls fail: 2_4 uses its file only while it
-- is open, and returns one of three codes: ERR_FILE_OPEN when `open` has failed, ERR_FILE_CLOSE when `close`
-- has failed, and SUCCESS when it has closed the file. When it returns SUCCESS and no call on the file has
-- failed or done less than it could, the file holds "1200567891011121314tabbed text", and the program has
-- printed the offsets 0, 19, 2, 10, 19, 30 and 0 and both texts that it read, in their order.
pub main_seeks :
    (c : Libc) (k : Kernel Call)
    → Fair rules Possible start (run k 0 (main c)).events
    → Obeys rules start (run k 0 (main c)).events
      × Sought c (replay rules start (run k 0 (main c)).events) (run k 0 (main c)).status
main_seeks c k fair = SafeIf-run rules Possible (Sought c) k 0 start (main c) fair (main-Sought c)
