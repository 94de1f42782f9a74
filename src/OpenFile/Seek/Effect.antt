-- ===== src/OpenFile/Seek/Effect.antt =====
-- What 2_4_Lseek leaves in its file and prints, against every kernel that replies as documented.
use linux_system_programming.Base.{
  length, take, codes, ℕ, Bool, true, false, List, ◌==◌, if◌then◌else◌, ◌+◌, ◌≤◌, ◌≡◌, ◌⊎◌, [], ◌∷◌,
  ◌++◌,
}
use linux_system_programming.Sys.{Reply, failed, done, Rules}
use linux_system_programming.Files.{ExitType, success, err_file_open, err_file_close, Libc, logged}
use linux_system_programming.OpenFile.{Call, fd_stdout, open_file, lseek, read, write, close, log}
use linux_system_programming.OpenFile.Description.{Description, emptied, put, ahead, target}

-- `shown`: what has been written to the standard output. `exact`: no call on the file has failed, and each
-- `read` and `write` has done as much as it could.
pub record Ledger : Type 0 where
  pub is_open : Bool
  pub descriptor : ℕ
  pub file : Description
  pub shown : List (List ℕ)
  pub exact : Bool

abbrev pub start : Ledger
start = record { is_open = false; descriptor = 0; file = emptied; shown = []; exact = true }

-- The file is used only while it is open.
abbrev pub Allowed : Ledger → Call → Type 0
Allowed s (lseek n w) = s.is_open ≡ true
Allowed s (read n) = s.is_open ≡ true
Allowed s (write bs) = s.is_open ≡ true
Allowed s close = s.is_open ≡ true
Allowed s c = Unit

abbrev pub with_offset : ℕ → Description → Description
with_offset n d = record d { offset = n }

abbrev pub step : Ledger → Call → Reply → Ledger
step s (open_file name) (done f bs) = record s { is_open = true; descriptor = f; file = emptied }
step s (lseek n w) (failed e) = record s { exact = false }
step s (lseek n w) (done v bs) = record s { file = with_offset v s.file }
step s (read n) (failed e) = record s { exact = false }
step s (read n) (done m bs) = record s {
  file = with_offset (s.file.offset + m) s.file;
  exact = if m == length (ahead n s.file) then s.exact else false;
}
step s (write bytes) (failed e) = record s { exact = false }
step s (write bytes) (done n bs) = record s {
  file = put (take n bytes) s.file;
  exact = if n == length bytes then s.exact else false;
}
step s close (failed e) = record s { is_open = false; exact = false }
step s close (done n bs) = record s { is_open = false }
step s (log fd_stdout bytes) r = record s { shown = s.shown ++ (bytes ∷ []) }
step s c r = s

abbrev pub rules : Rules Call
rules = record { Ledger = Ledger; Allowed = Allowed; step = step }

-- `lseek` goes where it is told, a `read` gives a beginning of what is ahead, and a `write` accepts a
-- beginning of its bytes.
abbrev pub Possible : Ledger → Call → Reply → Type 0
Possible s (lseek n w) (done v bs) = v ≡ target n w s.file
Possible s (read n) (done m bs) = (m ≤ length (ahead n s.file)) × (bs ≡ take m (ahead n s.file))
Possible s (write bytes) (done n bs) = n ≤ length bytes
Possible s c r = Unit

abbrev pub position : Libc → ℕ → List ℕ
position c n = logged 256 (codes "Offset position: (" ++ (c.decimal n ++ codes ")\n"))

abbrev pub text_read : Libc → (f len : ℕ) → (text : List ℕ) → List ℕ
text_read c f len text = logged 256 (
    c.decimal len
    ++ (codes " bytes read from fd("
        ++ (c.decimal f ++ (codes ") after lseek, which are:\n" ++ (text ++ codes "\n")))))

abbrev pub final_content : List ℕ
final_content = codes "1200567891011121314tabbed text"

abbrev pub final_shown : Libc → (f : ℕ) → List (List ℕ)
final_shown c f =
    position c 0
    ∷ (position c 19
        ∷ (position c 2
            ∷ (position c 10
                ∷ (text_read c f 9 (codes "011121314")
                    ∷ (position c 19
                        ∷ (position c 30
                            ∷ (position c 0
                                ∷ (text_read c f 19 (codes "1200567891011121314") ∷ []))))))))

-- SUCCESS: the file has been closed, and when no call fell short, it holds `final_content` and `final_shown`
-- was printed. ERR_FILE_OPEN: `open` has failed. ERR_FILE_CLOSE: `close` has failed.
abbrev pub Sought : Libc → Ledger → ExitType → Type 0
Sought c s success =
    (s.is_open ≡ false)
    × ((s.exact ≡ false)
        ⊎ ((s.file.content ≡ final_content) × (s.shown ≡ final_shown c s.descriptor)))
Sought c s err_file_open = (s.is_open ≡ false) × (s.shown ≡ [])
Sought c s err_file_close = (s.is_open ≡ false) × (s.exact ≡ false)
Sought c s e = ⊥
