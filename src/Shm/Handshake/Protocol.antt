-- ===== src/Shm/Handshake/Protocol.antt =====
-- The protocol of the two programs as rules for the calls of each, and the invariant that holds
-- between both ledgers and the shared region at every point of an interleaving.
use linux_system_programming.Sys.{Reply, done, Rules, Obeys, replay}
use linux_system_programming.Base.{
  All, ℕ, refl, Bool, true, false, List, arith, ◌+◌, ◌≤◌, ◌≡◌, ◌≢◌, [],
}
use linux_system_programming.Shm.{
  Call, store, load, sem_init, sem_post, sem_wait, data_ready, reader_done,
}
use linux_system_programming.Shm.Handshake.{
  World, Trace, Fits, effect, record_load, Weave, stop, left, right,
}

-- What the protocol asks of the writer: it stores the text before it posts, posts once, and leaves
-- the reader's part alone.
pub record Sent : Type 0 where
  pub stored : Bool
  pub posted : Bool
  pub acked : Bool

pub record Got : Type 0 where
  pub waited : Bool
  pub loaded : Bool
  pub replied : Bool

module _ (text : List ℕ) where
  abbrev pub SendAllowed : Sent → Call → Type 0
  SendAllowed s (store bs) = (s.posted ≡ false) × (bs ≡ text)
  SendAllowed s (sem_init x p v) = (s.posted ≡ false) × (v ≡ 0)
  SendAllowed s (sem_post data_ready) = (s.stored ≡ true) × (s.posted ≡ false)
  SendAllowed s (sem_post reader_done) = ⊥
  SendAllowed s (sem_wait data_ready) = ⊥
  SendAllowed s (sem_wait reader_done) = s.acked ≡ false
  SendAllowed s c = Unit

abbrev pub send_step : Sent → Call → Reply → Sent
send_step s (store bs) r = record s { stored = true }
send_step s (sem_post data_ready) (done n bs) = record s { posted = true }
send_step s (sem_wait reader_done) (done n bs) = record s { acked = true }
send_step s c r = s

-- What it asks of the reader: it loads after its wait, replies once and after the load.
abbrev pub GetAllowed : Got → Call → Type 0
GetAllowed s (store bs) = ⊥
GetAllowed s (sem_init x p v) = ⊥
GetAllowed s load = s.waited ≡ true
GetAllowed s (sem_post data_ready) = ⊥
GetAllowed s (sem_post reader_done) = (s.loaded ≡ true) × (s.replied ≡ false)
GetAllowed s (sem_wait data_ready) = s.waited ≡ false
GetAllowed s (sem_wait reader_done) = ⊥
GetAllowed s c = Unit

abbrev pub get_step : Got → Call → Reply → Got
get_step s load r = record s { loaded = true }
get_step s (sem_post reader_done) (done n bs) = record s { replied = true }
get_step s (sem_wait data_ready) (done n bs) = record s { waited = true }
get_step s c r = s

abbrev pub send_rules : List ℕ → Rules Call
send_rules text = record { Ledger = Sent; Allowed = SendAllowed text; step = send_step }

abbrev pub get_rules : Rules Call
get_rules = record { Ledger = Got; Allowed = GetAllowed; step = get_step }

abbrev pub one : Bool → ℕ
one true = 1
one false = 0

pub record Agree (text : List ℕ) (s : Sent) (g : Got) (w : World) : Type 0 where
  pub ready_le : w.ready + one g.waited ≤ one s.posted
  pub put : s.stored ≡ true → w.region ≡ text
  pub ordered : s.posted ≡ true → s.stored ≡ true
  pub shown : g.waited ≡ true → w.region ≡ text
  pub acks_le : w.acks + one s.acked ≤ one g.replied
  pub read : g.replied ≡ true → g.loaded ≡ true
  pub kept : g.loaded ≡ true → w.seen ≢ []
  pub same : All (λ bs. bs ≡ text) w.seen

send-Agree :
    {text : List ℕ} {s : Sent} {g : Got} {w : World} (c : Call) (r : Reply)
    → Agree text s g w
    → SendAllowed text s c
    → Fits w c r
    → Agree text (send_step s c r) g (effect w c r)
send-Agree (store bs) r h a f = ground arith
send-Agree (sem_init data_ready p v) (done n bs) h a f = ground arith
send-Agree (sem_init reader_done p v) (done n bs) h a f = ground arith
send-Agree c r h a f = ground arith

get-Agree :
    {text : List ℕ} {s : Sent} {g : Got} {w : World} (c : Call) (r : Reply)
    → Agree text s g w
    → GetAllowed g c
    → Fits w c r
    → Agree text s (get_step g c r) (record_load w c r)
get-Agree load (done n bs) h a f = ground arith
get-Agree c r h a f = ground arith

-- Where an interleaving stops, the world agrees with what is left to do.
pub record Stopped (text : List ℕ) (s : Sent) (end : World) (rest t : Trace) : Type 0 where
  pub sent : Sent
  pub got : Got
  pub agree : Agree text sent got end
  pub reached : replay (send_rules text) s t ≡ replay (send_rules text) sent rest

pub Weave-Stopped :
    {text : List ℕ} {end : World} {rest : Trace} {w : World} {t u : Trace} (s : Sent) (g : Got)
    → Weave end rest w t u
    → Agree text s g w
    → Obeys (send_rules text) s t
    → Obeys get_rules g u
    → Stopped text s end rest t
Weave-Stopped s g (stop e f) h ot ou = record {
  sent = s;
  got = g;
  agree = rw (← e) h;
  reached = rw f refl;
}
Weave-Stopped {text} s g (left c r f v) h ot ou =
    let ih = Weave-Stopped (send_step s c r) g v (send-Agree c r h ot.0 f) ot.1 ou in
    record { sent = ih.sent; got = ih.got; agree = ih.agree; reached = ih.reached }
Weave-Stopped s g (right c r f v) h ot ou =
    Weave-Stopped s (get_step g c r) v (get-Agree c r h ou.0 f) ot ou.1
