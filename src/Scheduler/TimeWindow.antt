-- ===== src/Scheduler/TimeWindow.antt =====
-- scheduler/time_windowed_cycle.go and scaling_window_cycle.go: the goroutine of a scaling-window
-- cycle; and `NewNativeUUIDCollectionForTimeWindow` of native/native_uuid_collection.go.
pub mod Window
use publish_carousel.Prelude.{
  ℕ, zero, suc, String, Bool, true, false, List, [], ◌∷◌, Option, none, some, Error, Result, ok,
  err, panic, if◌then◌else◌, ◌==◌, inc, ◌>>=◌,
}
use publish_carousel.Prelude.Int.{ℤ, pos_part, neg_part, sub_ℤ}
use publish_carousel.Native.Collection.{UuidCollection}
use publish_carousel.Native.Batch.{compute_batchsize}
use publish_carousel.Tasks.{Task}
use publish_carousel.Scheduler.Duration.{DurationText}
use publish_carousel.Scheduler.Metadata.{Time, CycleMetadata, blank_metadata, update_state}
use publish_carousel.Scheduler.Publish.{Publisher, Run, Exit, exit, crashed, publish_collection}
use publish_carousel.Scheduler.States.{running_state, stopped_state, cool_down_state}
use publish_carousel.Scheduler.Throttle.{
  DefaultThrottle, stop_throttle, new_capped_dynamic_throttle,
}
use publish_carousel.Scheduler.WholeCollection.{unhealthy}

-- What a scaling-window cycle meets: the database, the collection over a cursor, its context, the
-- task, the limiter's wait, the clock, and the sleep.
pub record Surroundings (W S : Type 0) : Type 0 where
  pub open_db : W → W × Option Error
  pub find_uuids_in_time_window : String → Time → Time → ℕ → W → W × Result S
  pub source : UuidCollection S
  pub ctx_err : W → Option Error
  pub task : Task W
  pub queue : DefaultThrottle → W → W
  pub now : W → Time
  pub sleep : ℤ → W → W

-- The fields of the cycle that its goroutine reads.
pub record WindowCycle : Type 0 where
  pub collection : String
  pub origin : String
  pub time_window : ℤ
  pub cool_down : ℤ
  pub minimum_throttle : ℤ
  pub maximum_throttle : ℤ

-- The results `(endTime, b)` of `publishCollectionCycle`.
pub data Flow : Type 0 where
  go_on halt : Time → Flow
  crash : Flow

pub record Iterated (W : Type 0) : Type 0 where
  pub world : W
  pub metadata : CycleMetadata
  pub flow : Flow

-- The metadata that an iteration over a window starts with.
unfoldable pub new_window : Time → Time → ℕ → CycleMetadata → CycleMetadata
new_window start_time end_time total m = record blank_metadata {
  state = running_state ∷ [];
  attempts = inc m.attempts;
  total = total;
  start_time = some start_time;
  end_time = some end_time;
}

module _ {W S : Type 0} (d : DurationText) (env : Surroundings W S) (c : WindowCycle) where
  abbrev pub after_batchsize : Time → Time → W → Result ℕ → W × Result S
  after_batchsize start_time end_time w (err e) = (w, err e)
  after_batchsize start_time end_time w panic = (w, panic)
  after_batchsize start_time end_time w (ok batchsize) =
      env.find_uuids_in_time_window c.collection start_time end_time batchsize w

  abbrev pub after_open : Time → Time → W × Option Error → W × Result S
  after_open start_time end_time (w, some e) = (w, err e)
  after_open start_time end_time (w, none) =
      after_batchsize start_time end_time w (compute_batchsize d.duration_string c.maximum_throttle)

  -- `NewNativeUUIDCollectionForTimeWindow`
  unfoldable pub new_collection_for_time_window : Time → Time → W → W × Result S
  new_collection_for_time_window start_time end_time w =
      after_open start_time end_time (env.open_db w)

  -- What the loop publishes with, at the throttle `t`.
  abbrev pub publisher : DefaultThrottle → Publisher W S
  publisher t = record {
    queue = env.queue t;
    ctx_err = env.ctx_err;
    source = env.source;
    task = env.task;
    collection = c.collection;
    origin = c.origin;
  }

  -- `t.Queue(); return time.Now(), true`, with the throttle that `cancel()` has stopped.
  abbrev pub wait_and_go_on : DefaultThrottle → W → CycleMetadata → Iterated W
  wait_and_go_on t w m =
      let w' = env.queue (stop_throttle t) w in
      record { world = w'; metadata = m; flow = go_on (env.now w') }

  -- After `publishCollection`. The cursor is closed on the way out.
  unfoldable pub after_publish : DefaultThrottle → Time → Run W S × Exit → Iterated W
  after_publish t end_time (r, crashed) = record {
    world = r.world;
    metadata = r.metadata;
    flow = crash;
  }
  after_publish t end_time (r, exit true e) = record {
    world = r.world;
    metadata = update_state (stopped_state ∷ []) r.metadata;
    flow = halt end_time;
  }
  after_publish t end_time (r, exit false (some e)) = record {
    world = r.world;
    metadata = unhealthy r.metadata;
    flow = halt end_time;
  }
  after_publish t end_time (r, exit false none) = wait_and_go_on t r.world r.metadata

  abbrev pub map_publish : DefaultThrottle → Time → Option (Run W S × Exit) → Option (Iterated W)
  map_publish t end_time none = none
  map_publish t end_time (some r) = some (after_publish t end_time r)

  -- With the throttle for one publish more than there are.
  abbrev pub with_throttle : ℕ → Time → Run W S → Result DefaultThrottle → Option (Iterated W)
  with_throttle fuel end_time r (ok t) =
      map_publish t end_time (publish_collection (publisher t) fuel r)
  with_throttle fuel end_time r (err e) =
      some (record { world = r.world; metadata = r.metadata; flow = crash })
  with_throttle fuel end_time r panic =
      some (record { world = r.world; metadata = r.metadata; flow = crash })

  -- `performCooldown`
  unfoldable pub perform_cooldown : W → CycleMetadata → Iterated W
  perform_cooldown w m =
      let w' = env.sleep c.cool_down w in
      record {
        world = w';
        metadata = update_state (cool_down_state ∷ []) m;
        flow = go_on (env.now w');
      }

  -- After the collection was built.
  unfoldable pub publish_built :
      ℕ → Time → Time → CycleMetadata → W × Result S → Option (Iterated W)
  unfolding after_publish perform_cooldown
  publish_built fuel start_time end_time m (w, err e) =
      some (record { world = w; metadata = unhealthy m; flow = halt end_time })
  publish_built fuel start_time end_time m (w, panic) =
      some (record { world = w; metadata = m; flow = crash })
  publish_built fuel start_time end_time m (w, ok s) =
      let n = new_window start_time end_time (env.source.length s) m in
      let run =
        with_throttle fuel end_time (record { world = w; rest = s; metadata = n })
          (new_capped_dynamic_throttle c.time_window c.minimum_throttle c.maximum_throttle
            (inc (env.source.length s)) 1) in
      if env.source.length s == 0 then some (perform_cooldown w n) else run

  unfoldable pub publish_collection_cycle :
      ℕ → Time → Time → CycleMetadata → W → Option (Iterated W)
  unfolding publish_built new_collection_for_time_window
  publish_collection_cycle fuel start_time end_time m w =
      publish_built fuel start_time end_time m
        (new_collection_for_time_window start_time end_time w)

  abbrev pub by_flow :
      (Time → CycleMetadata → W → Option (Iterated W)) → Iterated W → Flow → Option (Iterated W)
  by_flow rest r (go_on end_time) = rest end_time r.metadata r.world
  by_flow rest r (halt end_time) = some r
  by_flow rest r crash = some r

  -- `for b { … }`: the rest of the rounds, where the cycle goes on.
  abbrev pub next_round :
      (Time → CycleMetadata → W → Option (Iterated W)) → Option (Iterated W) → Option (Iterated W)
  next_round rest none = none
  next_round rest (some r) = by_flow rest r r.flow

  -- `start`: at most so many rounds, with the window's start fixed before the first.
  unfoldable pub start_rounds : ℕ → ℕ → Time → Time → CycleMetadata → W → Option (Iterated W)
  start_rounds fuel zero start_time end_time m w =
      some (record { world = w; metadata = m; flow = go_on end_time })
  start_rounds fuel (suc rounds) start_time end_time m w =
      next_round (start_rounds fuel rounds start_time)
        (publish_collection_cycle fuel start_time end_time m w)

  unfoldable pub start : ℕ → ℕ → CycleMetadata → W → Option (Iterated W)
  start fuel rounds m w = start_rounds fuel rounds (sub_ℤ (env.now w) c.time_window) (env.now w) m w
