-- ===== src/Memory.antt =====
-- Course_MohanM/5_Memory_Allocation/5_3_Realloc_Basics/main.c: one block of ints that `calloc` makes and `realloc`
-- makes larger and smaller. Numbers stay far below the bounds of an int. exit(-1) is the status `failure`.
use linux_system_programming.Base.{ℕ, zero, suc, String, ◌+◌, ◌*◌}
use linux_system_programming.Sys.{
  failed, done, Prog, pure, exit, call, do_call, attempt, ◌>>=◌, ◌>>◌, Status, success, failure,
}
pub mod Block
mod Tests

-- `store` and `show` are an assignment to `p[i]` and a printf of it, through the address that the variable `p`
-- holds then. Sizes are in ints. `calloc` and `realloc` reply with an address, or with NULL as `failed`.
pub data Call : Type 0 where
  calloc : (num_of_ints : ℕ) → Call
  realloc : (p num_of_ints : ℕ) → Call
  free : (p : ℕ) → Call
  store : (p i value : ℕ) → Call
  show : (p i : ℕ) → Call
  print : String → Call

-- The two variables of `main`; NULL is 0.
pub record Pointers : Type 0 where
  pub p_nums : ℕ
  pub p_temp : ℕ

abbrev pub Main : Type 0 → Type 0
Main A = Prog Call Status A

-- The loops on `i` that fill `count` elements, and print each
unfoldable pub fill : (v : Pointers) (i count : ℕ) → Main (Unit {0})
fill v i zero = pure tt
fill v i (suc count) =
    do_call (store v.p_nums i (i + i * 5)) >> (do_call (show v.p_nums i) >> fill v (i + 1) count)

-- The loops on `i` that print `count` elements
unfoldable pub display : (v : Pointers) (i count : ℕ) → Main (Unit {0})
display v i zero = pure tt
display v i (suc count) = do_call (show v.p_nums i) >> display v (i + 1) count

-- `p_nums = p_temp; p_temp = NULL;`
unfoldable pub take_over : Pointers → Pointers
take_over v = record { p_nums = v.p_temp; p_temp = 0 }

-- `p_temp = realloc(p_nums, ...)`, the way out when it gives NULL, where `p_nums` still is the block, and
-- the assignments after it
unfoldable pub resize : (v : Pointers) (num_of_ints : ℕ) → String → Main Pointers
resize v n message = call (realloc v.p_nums n) (elim [
  | failed e ↦ do_call (print message) >> (do_call (free v.p_nums) >> exit failure)
  | done p bytes ↦ pure (take_over (record v { p_temp = p }))
])

-- What follows `calloc`
unfoldable pub use_block : Pointers → Main Status
unfolding fill display resize
use_block v =
    fill v 0 10
    >> (resize v 15 "Realloc (expand) failed!! Original block is still valid, but exiting..."
        >>= λ w.
            fill w 10 5
            >> (display w 0 15
                >> (resize w 5 "Realloc (shrink) failed!!\n" >>= λ x.
                    display x 0 5 >> (do_call (free x.p_nums) >> pure success))))

unfoldable pub main : Main Status
unfolding use_block
main = call (calloc 10) (elim [
  | failed e ↦ do_call (print "Calloc failed!!\n") >> exit failure
  | done p bytes ↦ use_block (record { p_nums = p; p_temp = 0 })
])
