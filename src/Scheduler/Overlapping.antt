-- ===== src/Scheduler/Overlapping.antt =====
-- scheduler/scheduler.go and scheduler/checkpoint_handler.go: one `Start` beside one `Shutdown`. The two
-- only share a read lock, so their steps interleave in any order, on an enabled scheduler with an
-- interval of the checkpoints above 0. The lock of the checkpoint handler and its unbuffered channel
-- are modelled; a lock that is taken and given back with nothing to wait for between is one step.
-- Nothing else happens meanwhile: no cycle is added or deleted, which would wait for the read lock and
-- keep a tick from it, and the goroutine of the handler does not save a tick.
pub mod Deadlock
pub mod Ordered
use publish_carousel.Prelude.{ℕ, suc, ◌≡◌, Bool, true, false}

-- Where `Start` stands: before it, past its tests of the state, with cycles left to start, each
-- followed by a sleep, and returned.
pub data StartPc : Type 0 where
  before tested : StartPc
  starting : ℕ → StartPc
  started : StartPc

-- Where `Shutdown` stands: before it, with cycles left to stop, before the lock of the handler, before
-- the send on the channel with that lock, before the metadata is saved, and returned.
pub data ShutdownPc : Type 0 where
  unasked : ShutdownPc
  stopping : ℕ → ShutdownPc
  locking sending saving done : ShutdownPc

-- `goroutines` of the handler wait for a tick or for the channel.
pub record Pair : Type 0 where
  pub cycles : ℕ
  pub running : Bool
  pub locked : Bool
  pub goroutines : ℕ
  pub start_pc : StartPc
  pub shutdown_pc : ShutdownPc

pub data Step (s : Pair) : Pair → Type 0 where
  -- `Start`.
  tests : s.start_pc ≡ before → s.running ≡ false → Step s (record s { start_pc = tested })
  runs : s.start_pc ≡ tested → Step s (record s { running = true; start_pc = starting s.cycles })
  starts_cycle :
      (n : ℕ) → s.start_pc ≡ starting (suc n) → Step s (record s { start_pc = starting n })
  ticks :
      s.start_pc ≡ starting 0
      → s.locked ≡ false
      → Step s (record s { goroutines = suc s.goroutines; start_pc = started })
  -- `Shutdown`.
  asks :
      s.shutdown_pc ≡ unasked
      → s.running ≡ true
      → Step s (record s { shutdown_pc = stopping s.cycles })
  stops_cycle :
      (n : ℕ) → s.shutdown_pc ≡ stopping (suc n) → Step s (record s { shutdown_pc = stopping n })
  halts : s.shutdown_pc ≡ stopping 0 → Step s (record s { running = false; shutdown_pc = locking })
  locks :
      s.shutdown_pc ≡ locking
      → s.locked ≡ false
      → Step s (record s { locked = true; shutdown_pc = sending })
  sends :
      (n : ℕ)
      → s.shutdown_pc ≡ sending
      → s.goroutines ≡ suc n
      → Step s (record s { goroutines = n; locked = false; shutdown_pc = saving })
  saves : s.shutdown_pc ≡ saving → Step s (record s { shutdown_pc = done })

-- A run, with the count of its steps.
pub data Runs : Pair → ℕ → Pair → Type 0 where
  here : {s : Pair} → Runs s 0 s
  later : {s t u : Pair} {n : ℕ} → Step s t → Runs t n u → Runs s (suc n) u
