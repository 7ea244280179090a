-- ===== src/Scheduler/Interleaved.antt =====
-- scheduler/cycle.go and scheduler/throttled_whole_collection_cycle.go: the goroutine of a
-- whole-collection cycle beside a `Stop` or a `Reset` from elsewhere. They share the metadata: each
-- access is one step, and the steps of the two interleave in any order. What
-- the database and the task answer is left open: every answer is a step.
pub mod Stopping
pub mod Quiet
pub mod Resetting
use publish_carousel.Prelude.{
  ℕ, zero, suc, String, ◌≡◌, Bool, true, false, List, [], ◌∷◌, Option, none, some, Error,
  if◌then◌else◌, ◌==◌, inc, is_blank,
}
use publish_carousel.Scheduler.States.{running_state, stopped_state, unhealthy_state}
use publish_carousel.Scheduler.Metadata.{
  CycleMetadata, blank_metadata, update_progress, update_state,
}
use publish_carousel.Native.InMemory.{InMemory, length_in_memory}

-- Where the goroutine stands. In `publishCollectionCycle`: before the collection is built, and with a
-- collection before it reads the iteration, the attempts, and stores the metadata. In the loop of
-- `publishCollection`, with the UUIDs that are left: before `Queue`, past the test of the context,
-- with a UUID from `Next`, and past `Prepare`. Then at the end of the collection, on the way out,
-- unhealthy or not, and gone.
pub data Pc : Type 0 where
  building : ℕ → Pc
  reading_iteration : ℕ → InMemory → Pc
  reading_attempts : ℕ → InMemory → ℕ → Pc
  storing : ℕ → InMemory → ℕ → ℕ → Pc
  queueing : List String → Pc
  checked : List String → Pc
  holding : String → List String → Pc
  publishing : String → List String → Pc
  finishing : Pc
  leaving : Bool → Pc
  gone : Pc

-- The metadata that an iteration stores, of the iteration and the attempts that it read.
abbrev pub stored : ℕ → ℕ → ℕ → ℕ → CycleMetadata
stored skip total iteration attempts = record blank_metadata {
  completed = skip;
  state = running_state ∷ [];
  iteration = if skip == 0 then inc iteration else iteration;
  attempts = inc attempts;
  total = total;
}

-- Where the caller of `Stop` or `Reset` stands: the context is cancelled, then the state is updated,
-- and a `Reset` clears the metadata at last.
pub data Caller : Type 0 where
  idle : Caller
  stopping : Bool → Caller
  clearing : Caller

pub record Shared : Type 0 where
  pub metadata : CycleMetadata
  pub cancelled : Bool
  pub pc : Pc
  pub caller : Caller

-- The states that the goroutine leaves with.
abbrev pub last_states : Bool → List String
last_states true = stopped_state ∷ unhealthy_state ∷ []
last_states false = stopped_state ∷ []

-- What a step does: it takes a UUID from the collection, calls `Prepare` with one, or counts an item,
-- or none of these.
pub data Act : Type 0 where
  takes prepares counts other : Act

pub data Step (s : Shared) : Act → Shared → Type 0 where
  -- The goroutine in `publishCollectionCycle`.
  refused : (skip : ℕ) → s.pc ≡ building skip → Step s other (record s { pc = leaving true })
  built :
      (skip : ℕ) (it : InMemory)
      → s.pc ≡ building skip
      → Step s other (record s { pc = reading_iteration skip it })
  reads_iteration :
      (skip : ℕ) (it : InMemory)
      → s.pc ≡ reading_iteration skip it
      → Step s other (record s { pc = reading_attempts skip it s.metadata.iteration })
  reads_attempts :
      (skip : ℕ) (it : InMemory) (iteration : ℕ)
      → s.pc ≡ reading_attempts skip it iteration
      → Step s other (record s { pc = storing skip it iteration s.metadata.attempts })
  stores :
      (skip : ℕ) (it : InMemory) (iteration attempts : ℕ)
      → s.pc ≡ storing skip it iteration attempts
      → Step s other (record s {
        metadata = stored skip (length_in_memory it) iteration attempts;
        pc = if length_in_memory it == 0 then leaving true else queueing it.uuids;
      })
  -- The goroutine in `publishCollection`: `ctx.Err()` once `Queue` has returned, `Next`, `Prepare`, and
  -- `updateProgress`, with or without an answer of `Execute`. A blank UUID is counted at once.
  interrupted :
      (uuids : List String)
      → s.pc ≡ queueing uuids
      → s.cancelled ≡ true
      → Step s other (record s { pc = leaving false })
  goes_on :
      (uuids : List String)
      → s.pc ≡ queueing uuids
      → s.cancelled ≡ false
      → Step s other (record s { pc = checked uuids })
  next :
      (uuid : String) (uuids : List String)
      → s.pc ≡ checked (uuid ∷ uuids)
      → Step s takes (record s { pc = holding uuid uuids })
  finished : s.pc ≡ checked [] → Step s other (record s { pc = finishing })
  passes_over :
      (uuid : String) (uuids : List String)
      → s.pc ≡ holding uuid uuids
      → is_blank uuid ≡ true
      → Step s counts (record s {
        metadata = update_progress uuid "" (some "Empty uuid") s.metadata;
        pc = queueing uuids;
      })
  prepared :
      (uuid : String) (uuids : List String)
      → s.pc ≡ holding uuid uuids
      → is_blank uuid ≡ false
      → Step s prepares (record s { pc = publishing uuid uuids })
  progress :
      (uuid tx_id : String) (error : Option Error) (uuids : List String)
      → s.pc ≡ publishing uuid uuids
      → Step s counts
          (record s { metadata = update_progress uuid tx_id error s.metadata; pc = queueing uuids })
  counted_end :
      s.pc ≡ finishing
      → Step s counts
          (record s { metadata = update_progress "" "" none s.metadata; pc = building 0 })
  left :
      (unhealthy : Bool)
      → s.pc ≡ leaving unhealthy
      → Step s other
          (record s { metadata = update_state (last_states unhealthy) s.metadata; pc = gone })
  -- The caller; a `Reset` goes on to clear the metadata.
  cancels :
      (is_reset : Bool)
      → s.caller ≡ idle
      → Step s other (record s { cancelled = true; caller = stopping is_reset })
  updates :
      (is_reset : Bool)
      → s.caller ≡ stopping is_reset
      → Step s other (record s {
        metadata = update_state (stopped_state ∷ []) s.metadata;
        caller = if is_reset then clearing else idle;
      })
  clears :
      s.caller ≡ clearing → Step s other (record s { metadata = blank_metadata; caller = idle })

-- A run, with what its steps did.
pub data Runs : Shared → List Act → Shared → Type 0 where
  here : {s : Shared} → Runs s [] s
  later :
      {s t u : Shared} {a : Act} {acts : List Act}
      → Step s a t
      → Runs t acts u
      → Runs s (a ∷ acts) u
