-- ===== src/Sys.antt =====
-- Programs that call the kernel and libc. A program is a tree: what it does after a call depends on
-- the reply, which the kernel chooses. A main function that ends by `return` or `exit` gives a
-- status of type `E`.
use linux_system_programming.Base.{Bool, true, false, ◌≡◌, ℕ, ◌+◌, List, [], ◌∷◌}

-- `failed e`: the call returned -1, NULL, MAP_FAILED or SEM_FAILED, and set errno to `e`.
-- `done n bytes`: it returned `n`, and put `bytes` into the caller's buffer.
pub data Reply : Type 0 where
  failed : (errno : ℕ) → Reply
  done : (value : ℕ) → (bytes : List ℕ) → Reply

-- EXIT_SUCCESS and EXIT_FAILURE
pub data Status : Type 0 where
  success failure : Status

-- The status tells of a fault, and of nothing else.
abbrev pub Reports : Bool → Status → Type 0
Reports fault success = fault ≡ false
Reports fault failure = fault ≡ true

pub data Prog (C E A : Type 0) : Type 0 where
  pure : A → Prog C E A
  exit : E → Prog C E A
  call : C → (Reply → Prog C E A) → Prog C E A

infixl 5 ◌>>=◌ ◌>>◌
abbrev pub ◌>>=◌ : {C E A B : Type 0} → Prog C E A → (A → Prog C E B) → Prog C E B
pure a >>= f = f a
exit e >>= f = exit e
call c k >>= f = call c (λ r. k r >>= f)

abbrev pub ◌>>◌ : {C E A B : Type 0} → Prog C E A → Prog C E B → Prog C E B
m >> k = m >>= λ _. k

-- A call whose result the program does not look at.
abbrev pub do_call : {C E : Type 0} → C → Prog C E (Unit {0})
do_call c = call c (λ _. pure tt)

-- A call whose error return ends the program by `handler`; otherwise its value goes on.
abbrev pub attempt : {C E : Type 0} → C → Prog C E ℕ → Prog C E ℕ
attempt c handler = call c (elim [ failed e ↦ handler | done n bytes ↦ pure n ])

-- The kernel's choice of a reply, for the call at each position of a run.
abbrev pub Kernel : Type 0 → Type 0
Kernel C = ℕ → C → Reply

pub record Outcome (C E : Type 0) : Type 0 where
  pub events : List (C × Reply)
  pub status : E

-- A run of a main function: the calls with their replies, and the exit status.
unfoldable pub run : {C E : Type 0} → Kernel C → ℕ → Prog C E E → Outcome C E
run k i (pure e) = record { events = []; status = e }
run k i (exit e) = record { events = []; status = e }
run k i (call c p) =
    let rest = run k (i + 1) (p (k i c)) in
    record { events = (c, k i c) ∷ rest.events; status = rest.status }

-- A discipline for calls: a ledger that every call updates, and which calls a ledger allows.
pub record Rules (C : Type 0) : Type 1 where
  pub Ledger : Type 0
  pub Allowed : Ledger → C → Type 0
  pub step : Ledger → C → Reply → Ledger

module _ {C : Type 0} (R : Rules C) where
  open R use {Ledger, Allowed, step}

  -- Every call of the trace is allowed where it stands.
  abbrev pub Obeys : Ledger → List (C × Reply) → Type 0
  Obeys s [] = Unit
  Obeys s ((c, r) ∷ t) = Allowed s c × Obeys (step s c r) t

  -- The ledger after a trace.
  abbrev pub replay : Ledger → List (C × Reply) → Ledger
  replay s [] = s
  replay s ((c, r) ∷ t) = replay (step s c r) t

module _ {C E : Type 0} (R : Rules C) where
  open R use {Ledger, Allowed, step}

  -- The program obeys the rules from ledger `s` whatever the replies are, and ends as `F` says.
  abbrev pub Safe : (F : Ledger → E → Type 0) → Ledger → Prog C E E → Type 0
  Safe F s (pure e) = F s e
  Safe F s (exit e) = F s e
  Safe F s (call c p) = Allowed s c × ((r : Reply) → Safe F (step s c r) (p r))

  pub Safe-run :
      (F : Ledger → E → Type 0) (k : Kernel C) (i : ℕ) (s : Ledger) (p : Prog C E E)
      → Safe F s p
      → Obeys R s (run k i p).events × F (replay R s (run k i p).events) (run k i p).status
  unfolding run
  Safe-run F k i s (pure e) h = (tt, h)
  Safe-run F k i s (exit e) h = (tt, h)
  Safe-run F k i s (call c p) h =
      let ih = Safe-run F k (i + 1) (step s c (k i c)) (p (k i c)) (h.1 (k i c)) in
      ((h.0, ih.0), ih.1)

-- The same for kernels that reply as documented: `Possible` says which replies a call may get after
-- the calls that the ledger has seen.
module _ {C : Type 0} (R : Rules C) (Possible : R.Ledger → C → Reply → Type 0) where
  open R use {Ledger, Allowed, step}

  abbrev pub Fair : Ledger → List (C × Reply) → Type 0
  Fair s [] = Unit
  Fair s ((c, r) ∷ t) = Possible s c r × Fair (step s c r) t

  abbrev pub SafeIf : {E : Type 0} → (F : Ledger → E → Type 0) → Ledger → Prog C E E → Type 0
  SafeIf F s (pure e) = F s e
  SafeIf F s (exit e) = F s e
  SafeIf F s (call c p) = Allowed s c × ((r : Reply) → Possible s c r → SafeIf F (step s c r) (p r))

module _ {C : Type 0} (R : Rules C) (Possible : R.Ledger → C → Reply → Type 0) where
  open R use {Ledger, Allowed, step}

  -- What follows a program that is done in two parts
  pub SafeIf-assoc :
      {E A B : Type 0} (F : Ledger → E → Type 0) (s : Ledger) (p : Prog C E A) (f : A → Prog C E B)
      (g : B → Prog C E E)
      → SafeIf R Possible F s (p >>= λ a. f a >>= g)
      → SafeIf R Possible F s (p >>= f >>= g)
  SafeIf-assoc F s (pure a) f g h = h
  SafeIf-assoc F s (exit e) f g h = h
  SafeIf-assoc F s (call c k) f g h =
      (h.0, λ r possible. SafeIf-assoc F (step s c r) (k r) f g (h.1 r possible))

  pub SafeIf-run :
      {E : Type 0} (F : Ledger → E → Type 0) (k : Kernel C) (i : ℕ) (s : Ledger) (p : Prog C E E)
      → Fair R Possible s (run k i p).events
      → SafeIf R Possible F s p
      → Obeys R s (run k i p).events × F (replay R s (run k i p).events) (run k i p).status
  unfolding run
  SafeIf-run F k i s (pure e) fair h = (tt, h)
  SafeIf-run F k i s (exit e) fair h = (tt, h)
  SafeIf-run F k i s (call c p) fair h =
      let r = k i c in
      let ih = SafeIf-run F k (i + 1) (step s c r) (p r) fair.1 (h.1 r fair.0) in
      ((h.0, ih.0), ih.1)

-- Steps of a proof that a program is safe: a call whose failure is handled apart, and a call whose
-- reply is not looked at.
pub next {ℓ κ} :
    {A : Type ℓ} {P : Reply → Type κ}
    → A
    → ((e : ℕ) → P (failed e))
    → ((n : ℕ) (bs : List ℕ) → P (done n bs))
    → A × ((r : Reply) → P r)
next a f g = (a, elim [ failed e ↦ f e | done n bs ↦ g n bs ])

pub pass {ℓ κ} :
    {A : Type ℓ} {P : Reply → Type κ} → A → ((r : Reply) → P r) → A × ((r : Reply) → P r)
pass a f = (a, f)
