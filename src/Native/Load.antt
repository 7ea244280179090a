-- ===== src/Native/Load.antt =====
-- native/in_memory_collection.go: `LoadIntoMemory`, which reads a collection into memory.
pub mod Filter
pub mod Persisted
use publish_carousel.Prelude.{
  ℕ, zero, suc, String, Bool, true, false, List, [], ◌∷◌, ◌++◌, Option, none, some, Error, Result,
  ok, err, panic, if◌then◌else◌, ◌==◌, ◌&&◌, is_blank, is_positive, int_le, int_lt, inc, drop,
  length,
}
use publish_carousel.Native.Collection.{Next, UuidCollection}
use publish_carousel.Native.InMemory.{InMemory, append_uuid, is_empty}
use publish_carousel.Native.Persist.{Store, persist_in_s3, read_from_s3}

-- What the loader works with: `ctx_err` is `ctx.Err()`, `is_blacklisted` the blacklist's verdict
-- and error, `store` is none where the S3 service is nil.
pub record Loader (W S B : Type 0) : Type 0 where
  pub ctx_err : W → Option Error
  pub source : UuidCollection S
  pub is_blacklisted : String → W → W × Bool × Option Error
  pub store : Option (Store W B)

-- The loop's variables: `seen` is `i`.
pub record Load (W S : Type 0) : Type 0 where
  pub world : W
  pub rest : S
  pub it : InMemory
  pub seen : ℕ

pub data LoadEnd : Type 0 where
  interrupted complete crashed : LoadEnd
  failed : Error → LoadEnd

pub data LoadStep (W S : Type 0) : Type 0 where
  again : Load W S → LoadStep W S
  leave : Load W S → LoadEnd → LoadStep W S

abbrev pub has_error : Option Error → Bool
has_error none = false
has_error (some e) = true

abbrev pub is_refused : Bool → Option Error → Bool
is_refused verdict (some e) = true
is_refused verdict none = verdict

module _ {W S B : Type 0} (l : Loader W S B) where
  -- After the blacklist was asked about `uuid`: an error counts as blacklisted.
  abbrev pub after_blacklist : String → Load W S → W × Bool × Option Error → LoadStep W S
  after_blacklist uuid r (w, verdict, e) =
      if is_refused verdict e
      then again (record r { world = w })
      else again (record r { world = w; it = append_uuid r.it uuid })

  -- A UUID that is no error and not the end; `r.seen` counts it already.
  unfoldable pub take_uuid : ℕ → String → Load W S → LoadStep W S
  take_uuid skip uuid r =
      if int_le r.seen skip
      then again r
      else if is_blank uuid
      then again r
      else after_blacklist uuid r (l.is_blacklisted uuid r.world)

  abbrev pub take_next : ℕ → Next → Option Error → Load W S → LoadStep W S
  take_next skip n (some e) r = leave r (failed e)
  take_next skip n none r = if n.finished then leave r complete else take_uuid skip n.uuid r

  abbrev pub after_next : ℕ → Load W S → S × Option Next → LoadStep W S
  after_next skip r (s, none) = leave (record r { rest = s }) crashed
  after_next skip r (s, some n) =
      take_next skip n n.error (record r { rest = s; seen = inc r.seen })

  abbrev pub after_ctx : ℕ → Load W S → Option Error → LoadStep W S
  after_ctx skip r (some e) = leave r interrupted
  after_ctx skip r none = after_next skip r (l.source.next r.rest)

  unfoldable pub load_step : ℕ → Load W S → LoadStep W S
  unfolding take_uuid
  load_step skip r = after_ctx skip r (l.ctx_err r.world)

  unfoldable pub load_loop : ℕ → ℕ → Load W S → Option (Load W S × LoadEnd)
  load_loop zero skip r = none
  load_loop (suc fuel) skip r = elim (load_step skip r) [
    | again r' ↦ load_loop fuel skip r'
    | leave r' e ↦ some (r', e)
  ]

  -- What `LoadIntoMemory` returns: the world, the closed cursor, the collection and the error.
  abbrev pub Loaded : Type 0
  Loaded = W × S × Result (InMemory × Option Error)

  -- The UUIDs are kept in S3 once all are loaded; an error of that is only logged.
  abbrev pub persist : Option (Store W B) → InMemory → W → W
  persist none it w = w
  persist (some store) it w = (persist_in_s3 store it w).0

  abbrev pub finish : Load W S × LoadEnd → Loaded
  finish (r, interrupted) = (r.world, l.source.close r.rest, ok (r.it, none))
  finish (r, complete) = (persist l.store r.it r.world, l.source.close r.rest, ok (r.it, none))
  finish (r, crashed) = (r.world, l.source.close r.rest, panic)
  finish (r, failed e) = (r.world, l.source.close r.rest, ok (r.it, some e))

  abbrev pub finish_some : Option (Load W S × LoadEnd) → Option Loaded
  finish_some none = none
  finish_some (some r) = some (finish r)

  -- Past the list kept in S3: from the cursor, skipping its first `skip` UUIDs.
  unfoldable pub load_from_cursor : ℕ → String → ℕ → S → W → Option Loaded
  load_from_cursor fuel collection skip s w =
      let it : InMemory = record { uuids = []; collection = collection; skip = skip } in
      let run = load_loop fuel skip (record { world = w; rest = s; it = it; seen = 0 }) in
      if l.source.length s == 0 then some (w, l.source.close s, ok (it, none)) else finish_some run

  -- What the list kept in S3 decides: a list that is longer than `skip` is used; from one that is
  -- not, the loading starts again at 0; an error or an empty list changes nothing.
  unfoldable pub load_persisted : ℕ → String → ℕ → S → W × Result (List String) → Option Loaded
  unfolding load_from_cursor
  load_persisted fuel collection skip s (w, panic) = some (w, l.source.close s, panic)
  load_persisted fuel collection skip s (w, err e) = load_from_cursor fuel collection skip s w
  load_persisted fuel collection skip s (w, ok uuids) =
      if is_empty uuids
      then load_from_cursor fuel collection skip s w
      else if int_lt skip (length uuids)
      then some (
        w,
        l.source.close s,
        ok (record { uuids = drop skip uuids; collection = collection; skip = skip }, none),
      )
      else load_from_cursor fuel collection 0 s w

  abbrev pub load_with_store : ℕ → String → ℕ → S → W → Option (Store W B) → Option Loaded
  load_with_store fuel collection skip s w none = load_from_cursor fuel collection skip s w
  load_with_store fuel collection skip s w (some store) =
      if is_positive skip
      then load_persisted fuel collection skip s (read_from_s3 store collection w)
      else load_from_cursor fuel collection skip s w

  unfoldable pub load_into_memory : ℕ → String → ℕ → S → W → Option Loaded
  unfolding load_persisted
  load_into_memory fuel collection skip s w = load_with_store fuel collection skip s w l.store
