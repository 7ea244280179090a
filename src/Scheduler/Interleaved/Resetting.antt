-- ===== src/Scheduler/Interleaved/Resetting.antt =====
-- scheduler/cycle.go: a `Reset` while the goroutine of the cycle still counts an item or builds its
-- collection.
use publish_carousel.Prelude.{
  ℕ, String, ◌≡◌, refl, List, [], ◌∷◌, ◌==◌, Option, none, some, Error, true, false,
}
use publish_carousel.Scheduler.States.{stopped_state}
use publish_carousel.Scheduler.Metadata.{blank_metadata, update_progress, update_state}
use publish_carousel.Native.InMemory.{InMemory, length_in_memory}
use publish_carousel.Scheduler.Interleaved.{
  building, publishing, gone, idle, Shared, Act, built, reads_iteration, reads_attempts, stores,
  interrupted, progress, left, cancels, updates, clears, Runs, here, later,
}

-- The cycle was reset, its goroutine is gone, and it shows that so many items are completed.
pub record Leaves (s : Shared) (completed : ℕ) : Type 0 where
  pub acts : List Act
  pub after : Shared
  pub run : Runs s acts after
  pub has_left : after.pc ≡ gone
  pub returned : after.caller ≡ idle
  pub kept : after.metadata.completed ≡ completed

one_completed :
    (uuid tx_id : String) (error : Option Error)
    → (update_state
        (stopped_state ∷ [])
        (update_progress uuid tx_id error blank_metadata)).completed
      ≡ 1
unfolding update_state update_progress
one_completed uuid tx_id none = refl
one_completed uuid tx_id (some e) = refl

-- Where a cycle is reset while its task has an item, whatever the item and the answer: the reset can
-- be over, and the goroutine gone, and the cycle shows one completed item.
pub publishing-Leaves :
    (s : Shared) (uuid tx_id : String) (error : Option Error) (uuids : List String)
    → s.pc ≡ publishing uuid uuids
    → s.caller ≡ idle
    → Leaves s 1
unfolding update_progress
publishing-Leaves s uuid tx_id error uuids at_task free = record {
  acts = _;
  after = _;
  run = later (cancels true free) (
      later (updates true refl) (
        later (clears refl) (
          later (progress uuid tx_id error uuids at_task)
            (later (interrupted uuids refl refl) (later (left false refl) here)))));
  has_left = refl;
  returned = refl;
  kept = one_completed uuid tx_id error;
}

-- Where it is reset while it builds a collection that is not empty, past the items that it had
-- published, the cycle can show these items as completed again.
pub building-Leaves :
    (s : Shared) (skip : ℕ) (it : InMemory)
    → s.pc ≡ building skip
    → s.caller ≡ idle
    → (length_in_memory it == 0) ≡ false
    → Leaves s skip
unfolding update_state
building-Leaves s skip it at_build free full = record {
  acts = _;
  after = _;
  run = later (cancels true free) (
      later (updates true refl) (
        later (clears refl) (
          later (built skip it at_build) (
            later (reads_iteration skip it refl) (
              later (reads_attempts skip it 0 refl) (
                later (stores skip it 0 0 refl) (
                  later (interrupted it.uuids (rw full refl) refl)
                    (later (left false refl) here))))))));
  has_left = refl;
  returned = refl;
  kept = refl;
}
