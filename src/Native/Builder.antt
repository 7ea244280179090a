-- ===== src/Native/Builder.antt =====
-- native/native_uuid_collection.go: `NewNativeUUIDCollection`, which opens the database and loads
-- a whole collection into memory.
use publish_carousel.Prelude.{ℕ, String, Option, none, some, Error, Result, ok, err, panic}
use publish_carousel.Native.InMemory.{InMemory}
use publish_carousel.Native.Load.{Loader, load_into_memory}

-- `open_db` is `DB.Open`, and `find_uuids` the session's `FindUUIDs`, of a collection, a number of
-- documents to skip and a batch size.
pub record Builder (W S B : Type 0) : Type 0 where
  pub open_db : W → W × Option Error
  pub find_uuids : String → ℕ → ℕ → W → W × Result S
  pub loader : Loader W S B

-- The collection, or the error; a collection beside an error is not looked at by any caller.
abbrev pub Built : Type 0 → Type 0
Built W = W × Result InMemory

module _ {W S B : Type 0} (b : Builder W S B) where
  abbrev pub drop_on_error : Result (InMemory × Option Error) → Result InMemory
  drop_on_error (ok (it, none)) = ok it
  drop_on_error (ok (it, some e)) = err e
  drop_on_error (err e) = err e
  drop_on_error panic = panic

  abbrev pub built : Option (W × S × Result (InMemory × Option Error)) → Option (Built W)
  built none = none
  built (some (w, s, r)) = some (w, drop_on_error r)

  abbrev pub after_find : ℕ → String → ℕ → W × Result S → Option (Built W)
  after_find fuel collection skip (w, err e) = some (w, err e)
  after_find fuel collection skip (w, panic) = some (w, panic)
  after_find fuel collection skip (w, ok s) =
      built (load_into_memory b.loader fuel collection skip s w)

  abbrev pub after_open : ℕ → String → ℕ → W × Option Error → Option (Built W)
  after_open fuel collection skip (w, some e) = some (w, err e)
  after_open fuel collection skip (w, none) =
      after_find fuel collection skip (b.find_uuids collection 0 100 w)

  -- none where the fuel of the loading loop runs out
  unfoldable pub new_native_uuid_collection : ℕ → String → ℕ → W → Option (Built W)
  new_native_uuid_collection fuel collection skip w = after_open fuel collection skip (b.open_db w)
