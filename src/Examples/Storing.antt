-- ===== src/Examples/Storing.antt =====
-- A listing of three objects, and a store that remembers the last object written.
use publish_carousel.Prelude.{String, ◌≡◌, ◌↔◌, ℕ, [], ◌∷◌, Option, none, some, ok, inr}
use publish_carousel.Prelude.Int.{pos}
use publish_carousel.S3.Service.{Object, latest_key}
use publish_carousel.S3.Service.Latest.{IsLatest, latest_key-IsLatest}
use publish_carousel.Scheduler.Metadata.{CycleMetadata, blank_metadata}
use publish_carousel.Scheduler.MetadataStore.{MetadataStore, load_metadata}
use publish_carousel.Scheduler.MetadataStore.Loads.{Loads, load_metadata_iff}

abbrev object : String → ℕ → Object
object key at = record { key = key; last_modified = pos at }

latest_key-IsLatest_example :
    IsLatest
      (object "c1/a" 1 ∷ object "c1/b" 3 ∷ object "c1/c" 2 ∷ [])
      (latest_key (object "c1/a" 1 ∷ object "c1/b" 3 ∷ object "c1/c" 2 ∷ []))
latest_key-IsLatest_example =
    latest_key-IsLatest (object "c1/a" 1) (object "c1/b" 3 ∷ object "c1/c" 2 ∷ [])

-- The world is the last object that was written, which is metadata as it is.
abbrev Shelf : Type 0
Shelf = Option CycleMetadata

abbrev read_shelf : Shelf → Option (CycleMetadata × Option String)
read_shelf none = none
read_shelf (some m) = some (m, some "application/json")

abbrev shelf : MetadataStore Shelf CycleMetadata
shelf = record {
  rw = record {
    write = λ id key b content_type w. (some b, none);
    read = λ key w. (w, ok (read_shelf w));
    get_latest_key_for_id = λ id w. (w, ok "c1/20170601");
  };
  timestamp = λ w. "20170601";
  marshal = λ config m. inr m;
  unmarshal = λ b. ok b;
}

-- What is on the shelf is loaded.
load_metadata_iff_example :
    ((load_metadata shelf "c1" (some blank_metadata)).1 ≡ ok blank_metadata)
    ↔ Loads shelf "c1" blank_metadata (some blank_metadata)
load_metadata_iff_example = load_metadata_iff shelf "c1" blank_metadata (some blank_metadata)
