-- ===== src/Native/Persist.antt =====
-- native/s3.go: the list of UUIDs kept in S3. A `Store` has the S3 service, the clock's reading in
-- the layout `20060102T15040599`, and the JSON of a list of texts.
use Prim.Native.String.{◌++◌ as append}
use publish_carousel.Prelude.{
  String, Bool, false, List, Option, none, some, Error, Result, ok, err, panic, if◌then◌else◌,
  text_eq,
}
use publish_carousel.Native.InMemory.{InMemory}
use publish_carousel.S3.{ReadWriter}

pub record Store (W B : Type 0) : Type 0 where
  pub rw : ReadWriter W B
  pub timestamp : W → String
  pub marshal : List String → B
  pub unmarshal : B → Result (List String)

abbrev pub persisted_uuids_suffix : String
persisted_uuids_suffix = "-uuids"

module _ {W B : Type 0} (store : Store W B) where
  unfoldable pub persist_in_s3 : InMemory → W → W × Option Error
  persist_in_s3 it w =
      store.rw.write (append it.collection persisted_uuids_suffix)
        (append (store.timestamp w) ".json") (store.marshal it.uuids) "application/json" w

  abbrev is_json : Option String → Bool
  is_json none = false
  is_json (some content_type) = text_eq content_type "application/json"

  abbrev decode_object : W × Result (Option (B × Option String)) → W × Result (List String)
  decode_object (w, err e) = (w, err e)
  decode_object (w, panic) = (w, panic)
  decode_object (w, ok none) = (w, err "Key not found, has it recently been deleted?")
  decode_object (w, ok (some (body, content_type))) = (
    w,
    if is_json content_type then store.unmarshal body else err "Unexpected or nil content type",
  )

  abbrev read_key : W × Result String → W × Result (List String)
  read_key (w, err e) = (w, err e)
  read_key (w, panic) = (w, panic)
  read_key (w, ok key) = decode_object (store.rw.read key w)

  unfoldable pub read_from_s3 : String → W → W × Result (List String)
  read_from_s3 collection w =
      read_key (store.rw.get_latest_key_for_id (append collection persisted_uuids_suffix) w)
