-- ===== src/Shm/Handshake.antt =====
-- The two programs of 12_2_2_Inter_Processes_with_Shared_Memory side by side: every interleaving of
-- their calls on the shared region, in which a `sem_wait` returns only when the count is above 0
-- and a `load` gives the bytes that stand in the region.
mod Protocol
pub mod Delivery
use linux_system_programming.Sys.{Obeys, replay, Safe, next, pass, Reply, failed, done, Rules}
use linux_system_programming.Base.{
  Bool-cases, length, leb, refl, inl, inr, All, ℕ, Bool, true, false, List, arith, ◌+◌, ◌-◌, ◌≤◌,
  ◌<◌, ◌≡◌, ◌≢◌, [], ◌∷◌,
}
use linux_system_programming.Shm.{
  Call, store, load, sem_init, sem_post, sem_wait, data_ready, reader_done, Status,
}

-- What both processes see. `seen` holds what the reader has loaded, the latest first.
pub record World : Type 0 where
  pub ready : ℕ
  pub acks : ℕ
  pub region : List ℕ
  pub seen : List (List ℕ)

-- A new object is filled with zeros.
abbrev pub start : World
start = record { ready = 0; acks = 0; region = []; seen = [] }

abbrev pub Trace : Type 0
Trace = List (Call × Reply)

-- Which replies the shared region allows.
abbrev pub Fits : World → Call → Reply → Type 0
Fits w (sem_wait data_ready) (done n bs) = 0 < w.ready
Fits w (sem_wait reader_done) (done n bs) = 0 < w.acks
Fits w load (done n bs) = bs ≡ w.region
Fits w load (failed e) = ⊥
Fits w c r = Unit

-- What a call does to the shared region.
abbrev pub effect : World → Call → Reply → World
effect w (sem_init data_ready p v) (done n bs) = record w { ready = v }
effect w (sem_init reader_done p v) (done n bs) = record w { acks = v }
effect w (sem_post data_ready) (done n bs) = record w { ready = w.ready + 1 }
effect w (sem_post reader_done) (done n bs) = record w { acks = w.acks + 1 }
effect w (sem_wait data_ready) (done n bs) = record w { ready = w.ready - 1 }
effect w (sem_wait reader_done) (done n bs) = record w { acks = w.acks - 1 }
effect w (store bytes) r = record w { region = bytes }
effect w c r = w

-- A load by the reader is recorded.
abbrev pub record_load : World → Call → Reply → World
record_load w load (done n bs) = record w { seen = bs ∷ w.seen }
record_load w c r = effect w c r

-- The interleavings of the writer's calls `t` and the reader's calls `u` from one world that stop in
-- the world `end`, before the writer's calls `rest`.
pub data Weave (end : World) (rest : Trace) : World → Trace → Trace → Type 0 where
  stop : {w : World} {t u : Trace} → w ≡ end → t ≡ rest → Weave end rest w t u
  left :
      {w : World} {t u : Trace} (c : Call) (r : Reply)
      → Fits w c r
      → Weave end rest (effect w c r) t u
      → Weave end rest w ((c, r) ∷ t) u
  right :
      {w : World} {t u : Trace} (c : Call) (r : Reply)
      → Fits w c r
      → Weave end rest (record_load w c r) t u
      → Weave end rest w t ((c, r) ∷ u)
