-- ===== src/Scheduler/Publish.antt =====
-- scheduler/cycle.go: `publishCollection`, the loop that publishes a collection.
-- The world `W` holds all that the loop does not own: the context, the limiter and what the task
-- talks to. The state `S` is the collection's.
pub mod Total
pub mod Frame
pub mod Order
pub mod Stopped
use publish_carousel.Prelude.{
  ℕ, zero, suc, String, Bool, true, false, Option, none, some, Error, Result, ok, err, panic,
  if◌then◌else◌, is_blank,
}
use publish_carousel.Native.Collection.{Next, UuidCollection}
use publish_carousel.Native.Content.{Content}
use publish_carousel.Tasks.{Task}
use publish_carousel.Scheduler.Metadata.{CycleMetadata, update_progress}

-- What one cycle publishes with: `queue` is `Throttle.Queue`, which waits and lets the others act,
-- and `ctx_err` is `ctx.Err()`.
pub record Publisher (W S : Type 0) : Type 0 where
  pub queue : W → W
  pub ctx_err : W → Option Error
  pub source : UuidCollection S
  pub task : Task W
  pub collection : String
  pub origin : String

pub record Run (W S : Type 0) : Type 0 where
  pub world : W
  pub rest : S
  pub metadata : CycleMetadata

-- The results of `publishCollection`: whether it was stopped, and its error.
pub data Exit : Type 0 where
  exit : Bool → Option Error → Exit
  crashed : Exit

pub data Step (W S : Type 0) : Type 0 where
  again : Run W S → Step W S
  leave : Run W S → Exit → Step W S

module _ {W S : Type 0} (p : Publisher W S) where
  -- After `Execute`.
  abbrev pub after_execute : String → String → S → CycleMetadata → W × Result (Unit {0}) → Step W S
  after_execute uuid tx s m (w, ok _) =
      again (record { world = w; rest = s; metadata = update_progress uuid tx none m })
  after_execute uuid tx s m (w, err e) =
      again (record { world = w; rest = s; metadata = update_progress uuid tx (some e) m })
  after_execute uuid tx s m (w, panic) =
      leave (record { world = w; rest = s; metadata = m }) crashed

  -- After `Prepare`.
  abbrev pub after_prepare : String → S → CycleMetadata → W × Result (Content × String) → Step W S
  after_prepare uuid s m (w, ok (content, tx)) =
      after_execute uuid tx s m (p.task.execute uuid content p.origin tx w)
  after_prepare uuid s m (w, err e) =
      again (record { world = w; rest = s; metadata = update_progress uuid "" (some e) m })
  after_prepare uuid s m (w, panic) = leave (record { world = w; rest = s; metadata = m }) crashed

  -- One UUID that the collection gave.
  unfoldable pub publish_uuid : String → S → CycleMetadata → W → Step W S
  publish_uuid uuid s m w =
      if is_blank uuid
      then again
          (record { world = w; rest = s; metadata = update_progress uuid "" (some "Empty uuid") m })
      else after_prepare uuid s m (p.task.prepare p.collection uuid w)

  -- After `collection.Next()`.
  unfoldable pub after_next : CycleMetadata → W → S × Option Next → Step W S
  unfolding publish_uuid
  after_next m w (s, none) = leave (record { world = w; rest = s; metadata = m }) crashed
  after_next m w (s, some n) =
      if n.finished
      then leave (record { world = w; rest = s; metadata = update_progress "" "" n.error m })
          (exit false n.error)
      else publish_uuid n.uuid s m w

  abbrev pub after_ctx : S → CycleMetadata → W → Option Error → Step W S
  after_ctx s m w (some e) =
      leave (record { world = w; rest = s; metadata = m }) (exit true (some e))
  after_ctx s m w none = after_next m w (p.source.next s)

  -- One round of the loop.
  unfoldable pub publish_step : Run W S → Step W S
  unfolding after_next
  publish_step r = let w = p.queue r.world in after_ctx r.rest r.metadata w (p.ctx_err w)

  -- The loop, for at most as many rounds as there is fuel; none where it runs out.
  unfoldable pub publish_collection : ℕ → Run W S → Option (Run W S × Exit)
  publish_collection zero r = none
  publish_collection (suc fuel) r = elim (publish_step r) [
    | again r' ↦ publish_collection fuel r'
    | leave r' x ↦ some (r', x)
  ]
