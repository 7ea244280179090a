-- ===== src/Scheduler/MetadataStore/Kept.antt =====
-- scheduler/metadata_rw.go: reading back what was written.
use publish_carousel.Prelude.{
  Bool, if◌then◌else◌, err, String, ◌≡◌, ap, sym, subst, ◌∙◌, false, Option, none, some, Error, ok,
  is_blank, inr, trim_space,
}
use publish_carousel.S3.{ReadWriter}
use publish_carousel.Scheduler.Metadata.{CycleMetadata}
use publish_carousel.Scheduler.Config.{CycleConfig}
use publish_carousel.Scheduler.MetadataStore.{
  MetadataStore, no_key, read_key, decode_object, default_content_type, load_metadata,
  write_metadata, write_encoded,
}

-- What S3 promises for one write that succeeds: the object is the latest of its ID, under a key that
-- is not blank, and is read with its content type.
pub record IsStored {W B : Type 0} (rw' : ReadWriter W B) (id : String) (b : B) (w : W)
    : Type 0 where
  pub key : String
  pub after_list : W
  pub after_read : W
  pub named : is_blank key ≡ false
  pub listed : rw'.get_latest_key_for_id id w ≡ (after_list, ok key)
  pub fetched : rw'.read key after_list ≡ (after_read, ok (some (b, some default_content_type)))

load_metadata-stored :
    {W B : Type 0} (store : MetadataStore W B) (id : String) (m : CycleMetadata) (b : B) (w : W)
    → IsStored store.rw id b w
    → store.unmarshal b ≡ ok m
    → (load_metadata store id w).1 ≡ ok m
unfolding load_metadata trim_space
load_metadata-stored store id m b w st dec =
    ap (λ a. (read_key store id a).1) st.listed
    ∙ ap
        (λ (c : Bool).
          (if c
            then (st.after_list, err (no_key id))
            else decode_object store id (store.rw.read st.key st.after_list)).1)
        st.named
    ∙ ap (λ a. (decode_object store id a).1) st.fetched
    ∙ dec

-- Metadata that was encoded and written with no error is loaded again as it was, where the object is
-- stored after the write, and the decoder reads back what the encoder wrote.
pub load_metadata-write_metadata :
    {W B : Type 0} (store : MetadataStore W B) (id : String) (config : CycleConfig)
    (m : CycleMetadata) (b : B) (w : W)
    → store.marshal config m ≡ inr b
    → store.unmarshal b ≡ ok m
    → (write_metadata store id config m w).1 ≡ none
    → ((w' : W)
        → store.rw.write id (store.timestamp w) b default_content_type w ≡ (w', none)
        → IsStored store.rw id b w')
    → (load_metadata store id (write_metadata store id config m w).0).1 ≡ ok m
unfolding write_metadata
load_metadata-write_metadata {W} store id config m b w enc dec quiet law =
    let written = store.rw.write id (store.timestamp w) b default_content_type w in
    let same : write_metadata store id config m w ≡ written = ap (write_encoded store id w) enc in
    let done : written.1 ≡ none = ap (λ (a : W × Option Error). a.1) (sym same) ∙ quiet in
    subst (λ (a : W × Option Error). (load_metadata store id a.0).1 ≡ ok m) (sym same)
      (load_metadata-stored store id m b written.0 (law written.0 (λ i. (written.0, done i))) dec)
