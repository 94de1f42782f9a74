-- ===== src/Signals/Catch.antt =====
-- Course_MohanM/9_Signals/9_1_Basic_Handling_of_Different_Signals/main.c
use linux_system_programming.Base.{
  arith, Bool-cases, inl, inr, sym, ◌∙◌, replicate, ℕ, zero, suc, refl, ap, Bool, true, false,
  Option, none, some, List, if◌then◌else◌, ◌≡◌, ◌⊎◌, ◌&&◌, ◌||◌, [], ◌∷◌, ◌++◌,
}
use mathlib.Core.List.{append-nil}
use linux_system_programming.Sys.{Status, success, failure}

-- The signals whose handler runs before one `sigsuspend` returns
pub data Delivery : Type 0 where
  sigint sigterm both : Delivery

pub record Flags : Type 0 where
  pub caught_sigint : Bool
  pub caught_sigterm : Bool

-- What `signal_handler` does for the signals of a delivery
abbrev pub signal_handler : Delivery → Flags → Flags
signal_handler sigint f = record f { caught_sigint = true }
signal_handler sigterm f = record f { caught_sigterm = true }
signal_handler both f = record { caught_sigint = true; caught_sigterm = true }

-- "Caught SIGINT, i'll continue catching" and "Caught SIGTERM, now i'm exiting"
pub data Line : Type 0 where
  continuing exiting : Line

-- The lines printed, and the status; `none`: it sleeps in `sigsuspend`.
pub record Result : Type 0 where
  pub lines : List Line
  pub status : Option Status

abbrev pub after : List Line → Result → Result
after lines o = record { lines = lines ++ o.lines; status = o.status }

abbrev pub ends : Status → Result
ends s = record { lines = []; status = some s }

-- The two tests after `sigsuspend`; `rest` is the next turn of the loop.
abbrev pub react : Flags → (rest : Flags → Result) → Result
react f rest = after (if f.caught_sigint then (continuing ∷ []) else []) (
    if f.caught_sigterm
    then after (exiting ∷ []) (ends success)
    else rest (record { caught_sigint = false; caught_sigterm = false }))

-- The `while` loop, by the deliveries still to come
unfoldable pub catch_signals : List Delivery → Flags → Result
catch_signals [] f =
    if f.caught_sigint || f.caught_sigterm
    then ends success
    else record { lines = []; status = none }
catch_signals (d ∷ ds) f =
    if f.caught_sigint || f.caught_sigterm
    then ends success
    else react (signal_handler d f) (catch_signals ds)

-- `masked`, `int_set` and `term_set`: `sigprocmask` and the two calls of `sigaction` did not fail.
unfoldable pub main : (masked int_set term_set : Bool) → List Delivery → Result
unfolding catch_signals
main masked int_set term_set ds =
    if masked && int_set && term_set
    then catch_signals ds (record { caught_sigint = false; caught_sigterm = false })
    else ends failure

abbrev pub has_term : Delivery → Bool
has_term sigint = false
has_term d = true

-- What is printed for the last delivery
abbrev pub last_lines : Delivery → List Line
last_lines both = continuing ∷ exiting ∷ []
last_lines d = exiting ∷ []

abbrev quiet : Flags
quiet = record { caught_sigint = false; caught_sigterm = false }

catch-replicate :
    (n : ℕ) (ds : List Delivery)
    → catch_signals (replicate n sigint ++ ds) quiet
      ≡ after (replicate n continuing) (catch_signals ds quiet)
unfolding catch_signals
catch-replicate zero ds = refl
catch-replicate (suc n) ds = ap (after (continuing ∷ [])) (catch-replicate n ds)

catch_last :
    (n : ℕ) (d : Delivery) (later : List Delivery)
    → has_term d ≡ true
    → after (replicate n continuing) (catch_signals (d ∷ later) quiet)
      ≡ record { lines = replicate n continuing ++ last_lines d; status = some success }
unfolding catch_signals
catch_last n sigint later h = ground arith
catch_last n sigterm later h = refl
catch_last n both later h = refl

abbrev with_lines : Option Status → List Line → Result
with_lines status lines = record { lines = lines; status = status }

catch_none :
    (n : ℕ)
    → after (replicate n continuing) (catch_signals [] quiet)
      ≡ record { lines = replicate n continuing; status = none }
unfolding catch_signals
catch_none n = ap (with_lines none) (append-nil (replicate n continuing))

-- After any number of SIGINT alone the program still catches signals, and has printed one line for each; with
-- the first SIGTERM, alone or together with a SIGINT, it prints its last line and ends with EXIT_SUCCESS,
-- whatever comes later. When a call of the setup has failed it ends at once with EXIT_FAILURE.
pub main_catches :
    (n : ℕ) (d : Delivery) (later : List Delivery) (masked int_set term_set : Bool)
    → has_term d ≡ true
    → (main true true true (replicate n sigint)
        ≡ record { lines = replicate n continuing; status = none })
      × (main true true true (replicate n sigint ++ (d ∷ later))
          ≡ record { lines = replicate n continuing ++ last_lines d; status = some success })
      × ((masked && int_set && term_set ≡ true)
          ⊎ (main masked int_set term_set (replicate n sigint ++ (d ∷ later)) ≡ ends failure))
unfolding main
main_catches n d later masked int_set term_set h = (
  ap (λ ds. catch_signals ds quiet) (sym (append-nil (replicate n sigint)))
      ∙ catch-replicate n []
      ∙ catch_none n,
  catch-replicate n (d ∷ later) ∙ catch_last n d later h,
  elim (Bool-cases (masked && int_set && term_set)) [
    | inl ready ↦ inl ready
    | inr not_ready ↦ inr (rw (not_ready) refl)
  ],
)
