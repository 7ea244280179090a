-- ===== src/Scheduler/MetadataStore.antt =====
-- scheduler/metadata_rw.go: the metadata of a cycle kept in S3.
pub mod Kept
pub mod Loads
use publish_carousel.Prelude.{
  ◌⊎◌, inl, inr, String, Bool, false, [], ◌∷◌, Option, none, some, Error, Result, ok, err, panic,
  if◌then◌else◌, concat, is_blank, trim_space, text_eq,
}
use publish_carousel.S3.{ReadWriter}
use publish_carousel.Scheduler.Duration.{DurationText}
use publish_carousel.Scheduler.Metadata.{CycleMetadata}
use publish_carousel.Scheduler.Config.{CycleConfig, transform_to_config}
use publish_carousel.Scheduler.Control.{MetadataReadWriter}

-- The S3 service, the clock's reading in the layout `20060102T15040599`, and the JSON of a
-- configuration with metadata, of which only the metadata is read back.
pub record MetadataStore (W B : Type 0) : Type 0 where
  pub rw : ReadWriter W B
  pub timestamp : W → String
  pub marshal : CycleConfig → CycleMetadata → Error ⊎ B
  pub unmarshal : B → Result CycleMetadata

abbrev pub no_key : String → Error
no_key id = concat ("No key found for id \"" ∷ id ∷ "\"" ∷ [])

abbrev pub default_content_type : String
default_content_type = "application/json"

module _ {W B : Type 0} (store : MetadataStore W B) where
  abbrev pub is_json : Option String → Bool
  is_json none = false
  is_json (some content_type) = text_eq (trim_space content_type) "application/json"

  -- The message of a refused content type ends with the address of the text that the header is; the
  -- address is left out.
  abbrev pub decode_object :
      String → W × Result (Option (B × Option String)) → W × Result CycleMetadata
  decode_object id (w, err e) = (w, err e)
  decode_object id (w, panic) = (w, panic)
  decode_object id (w, ok none) = (w, err (concat ("No state found for \"" ∷ id ∷ "\"" ∷ [])))
  decode_object id (w, ok (some (body, content_type))) = (
    w,
    if is_json content_type
        then store.unmarshal body
        else err (
            concat (
              "Failed to load state for \"" ∷ id ∷ "\". Content was in an unexpected Content-Type"
              ∷ [])),
  )

  abbrev pub read_key : String → W × Result String → W × Result CycleMetadata
  read_key id (w, err e) = (w, err e)
  read_key id (w, panic) = (w, panic)
  read_key id (w, ok key) =
      if is_blank key then (w, err (no_key id)) else decode_object id (store.rw.read key w)

  -- `LoadMetadata`
  unfoldable pub load_metadata : String → W → W × Result CycleMetadata
  load_metadata id w = read_key id (store.rw.get_latest_key_for_id id w)

  abbrev pub write_encoded : String → W → Error ⊎ B → W × Option Error
  write_encoded id w (inl e) = (w, some e)
  write_encoded id w (inr b) = store.rw.write id (store.timestamp w) b default_content_type w

  -- `WriteMetadata`
  unfoldable pub write_metadata : String → CycleConfig → CycleMetadata → W → W × Option Error
  write_metadata id config m w = write_encoded id w (store.marshal config m)

  -- The store as the scheduler takes it.
  abbrev pub s3_metadata : DurationText → MetadataReadWriter W
  s3_metadata d = record {
    load_metadata = load_metadata;
    write_metadata = λ id c m w. write_metadata id (transform_to_config d c) m w;
  }
