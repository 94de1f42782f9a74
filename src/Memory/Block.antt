-- ===== src/Memory/Block.antt =====
-- The block of 5_3: every access is inside it and to a value that has been stored, and it is freed once.
use linux_system_programming.Base.{
  ltb, arith, ◌&&◌, length, get_or, set, take, replicate, ℕ, zero, suc, String, refl, Bool, true,
  false, Option, none, some, List, ◌+◌, ◌-◌, ◌*◌, ◌<◌, ◌≡◌, [], ◌∷◌, ◌++◌,
}
use linux_system_programming.Sys.{
  Reply, failed, done, Prog, Rules, Safe, Safe-run, Obeys, replay, Kernel, run, ◌>>◌, ◌>>=◌, Status,
  success, failure,
}
use linux_system_programming.Memory.{
  Call, calloc, realloc, free, store, show, print, Pointers, take_over, fill, display, resize,
  use_block, main,
}

-- `none`: the value of an int is indeterminate.
abbrev pub Cells : Type 0
Cells = List (Option ℕ)

-- `live`: the address of the block that has been allocated and not freed; the address of a block before a
-- `realloc` that succeeded is not that of a live block, but where the new address is the same one. `shown`: the
-- values printed. `refused`: an allocation has failed.
pub record Ledger : Type 0 where
  pub live : Option ℕ
  pub cells : Cells
  pub shown : List ℕ
  pub refused : Bool

abbrev pub start : Ledger
start = record { live = none; cells = []; shown = []; refused = false }

abbrev pub cell : Cells → ℕ → Option ℕ
cell cs i = get_or cs i none

abbrev pub is_some : Option ℕ → Bool
is_some none = false
is_some (some n) = true

-- A block is made once. `realloc`, `free` and the accesses take the address of the live block; a cell is used
-- only inside it, and read only after it has a value.
abbrev pub Allowed : Ledger → Call → Type 0
Allowed s (calloc n) = s.live ≡ none
Allowed s (realloc p n) = s.live ≡ some p
Allowed s (free p) = s.live ≡ some p
Allowed s (store p i v) = (s.live ≡ some p) × (i < length s.cells)
Allowed s (show p i) = (s.live ≡ some p) × (is_some (cell s.cells i) ≡ true)
Allowed s (print text) = Unit

abbrev pub with_shown : Option ℕ → List ℕ → List ℕ
with_shown none shown = shown
with_shown (some v) shown = shown ++ (v ∷ [])

-- `realloc` keeps the values that fit; those of new cells are indeterminate.
abbrev pub step : Ledger → Call → Reply → Ledger
step s (calloc n) (failed e) = record s { refused = true }
step s (calloc n) (done p bs) = record s { live = some p; cells = replicate n (some 0) }
step s (realloc old n) (failed e) = record s { refused = true }
step s (realloc old n) (done p bs) = record s {
  live = some p;
  cells = take n s.cells ++ replicate (n - length s.cells) none;
}
step s (free p) r = record s { live = none; cells = [] }
step s (store p i v) r = record s { cells = set s.cells i (some v) }
step s (show p i) r = record s { shown = with_shown (cell s.cells i) s.shown }
step s (print text) r = s

abbrev pub rules : Rules Call
rules = record { Ledger = Ledger; Allowed = Allowed; step = step }

-- 6 * i for `count` numbers from `i`
abbrev pub sixes : (i count : ℕ) → List ℕ
sixes i zero = []
sixes i (suc count) = 6 * i ∷ sixes (i + 1) count

abbrev pub Ended : Ledger → Status → Type 0
Ended s success =
    (s.live ≡ none)
    × (s.refused ≡ false)
    × (s.shown ≡ sixes 0 10 ++ (sixes 10 5 ++ (sixes 0 15 ++ sixes 0 5)))
Ended s failure = (s.live ≡ none) × (s.refused ≡ true)

abbrev Rest : Type 0
Rest = Prog Call Status Status

record Fine (p : Rest) (s : Ledger) : Type 0 where
  safe : Safe rules Ended s p

abbrev at_address : ℕ → Pointers
at_address p = record { p_nums = p; p_temp = 0 }

abbrev resized : (num_of_ints p : ℕ) → Ledger → Ledger
resized n p s = step s (realloc 0 n) (done p [])

resize-Fine :
    (n : ℕ) (message : String) (rest : Pointers → Rest) (v : Pointers) (s : Ledger)
    → s.live ≡ some v.p_nums
    → ((p : ℕ) → Fine (rest (at_address p)) (resized n p s))
    → Fine (resize v n message >>= rest) s
unfolding resize take_over
resize-Fine n message rest v s live h = record {
  safe = (live, elim [ failed e ↦ (tt, λ _. (live, λ _. (refl, refl))) | done p bs ↦ (h p).safe ]);
}

abbrev stored : (i : ℕ) → Ledger → Ledger
stored i s = step s (store 0 i (i + i * 5)) (done 0 [])

abbrev seen : (i : ℕ) → Ledger → Ledger
seen i s = step s (show 0 i) (done 0 [])

-- The ledger after the loop that fills, and whether the loop stays inside the block
abbrev filled : (i count : ℕ) → Ledger → Ledger
filled i zero s = s
filled i (suc count) s = filled (i + 1) count (seen i (stored i s))

abbrev can_fill : (i count : ℕ) → Ledger → Bool
can_fill i zero s = true
can_fill i (suc count) s =
    ltb i (length s.cells)
    && is_some (cell (stored i s).cells i)
    && can_fill (i + 1) count (seen i (stored i s))

fill-Fine :
    (v : Pointers) (i count : ℕ) (p : Rest) (s : Ledger)
    → s.live ≡ some v.p_nums
    → can_fill i count s ≡ true
    → Fine p (filled i count s)
    → Fine (fill v i count >> p) s
unfolding fill
fill-Fine v i zero p s live inside h = record { safe = h.safe }
fill-Fine v i (suc count) p s live inside h = record {
  safe = (
    (live, ground (arith, inside)),
    λ _. (
      (live, ground (arith, inside)),
      λ _. (fill-Fine v (i + 1) count p (seen i (stored i s)) live (ground (arith, inside)) h).safe,
    ),
  );
}

-- The same for the loop that prints
abbrev displayed : (i count : ℕ) → Ledger → Ledger
displayed i zero s = s
displayed i (suc count) s = displayed (i + 1) count (seen i s)

abbrev can_display : (i count : ℕ) → Ledger → Bool
can_display i zero s = true
can_display i (suc count) s = is_some (cell s.cells i) && can_display (i + 1) count (seen i s)

display-Fine :
    (v : Pointers) (i count : ℕ) (p : Rest) (s : Ledger)
    → s.live ≡ some v.p_nums
    → can_display i count s ≡ true
    → Fine p (displayed i count s)
    → Fine (display v i count >> p) s
unfolding display
display-Fine v i zero p s live inside h = record { safe = h.safe }
display-Fine v i (suc count) p s live inside h = record {
  safe = (
    (live, ground (arith, inside)),
    λ _. (display-Fine v (i + 1) count p (seen i s) live (ground (arith, inside)) h).safe,
  );
}

abbrev made : ℕ → Ledger
made p = step start (calloc 10) (done p [])

main-Ended : Safe rules Ended start main
unfolding main use_block
main-Ended = (
  refl,
  elim [
    | failed e ↦ (tt, λ _. (refl, refl))
    | done a bs ↦
        (fill-Fine (at_address a) 0 10 _ (made a) refl refl (
          resize-Fine 15 _ _ (at_address a) _ refl (λ p.
            fill-Fine (at_address p) 10 5 _ _ refl refl (
              display-Fine (at_address p) 0 15 _ _ refl refl (
                resize-Fine 5 _ _ (at_address p) _ refl (λ q.
                  display-Fine (at_address q) 0 5 _ _ refl refl
                    (record { safe = (refl, λ _. (refl, refl, refl)) }))))))).safe
  ],
)

-- Whatever allocations fail, and whatever address each `realloc` gives, every access of 5_3 goes through the
-- address of the live block to an element of it, every value that it prints has been stored there, and
-- `realloc` and `free` get that address too: the old one is not used after a `realloc` that has moved the block. It
-- frees the block once, also where `realloc` gives NULL, and returns with an
-- error exactly when an allocation has failed. Without a failure it prints 6 * i for i from 0 to 9, from 10 to
-- 14, from 0 to 14 and from 0 to 4.
pub block_is_kept :
    (k : Kernel Call)
    → Obeys rules start (run k 0 main).events
      × Ended (replay rules start (run k 0 main).events) (run k 0 main).status
block_is_kept k = Safe-run rules Ended k 0 start main main-Ended
