-- ===== src/Scheduler/MetadataStore/Loads.antt =====
-- scheduler/metadata_rw.go: when `LoadMetadata` gives metadata.
use publish_carousel.Prelude.{
  String, ◌≡◌, ◌↔◌, refl, ap, ◌∙◌, true, false, Option, none, some, Result, ok, err, panic,
  is_blank, trim_space, text_eq, Bool-cases, inl, inr, arith,
}
use publish_carousel.Scheduler.Metadata.{CycleMetadata}
use publish_carousel.Scheduler.MetadataStore.{MetadataStore, decode_object, read_key, load_metadata}

module _ {W B : Type 0} (store : MetadataStore W B) (id : String) (m : CycleMetadata) where
  -- An object with a JSON content type, in any white space, that is decoded to the metadata.
  abbrev pub Decodes : W × Result (Option (B × Option String)) → Type 0
  Decodes a =
      (w : W) × (body : B) × (content_type : String) × (a
        ≡ (w, ok (some (body, some content_type))))
      × (text_eq (trim_space content_type) "application/json" ≡ true)
      × (store.unmarshal body ≡ ok m)

  -- The latest key of the ID is not blank, and its object is read and decoded.
  abbrev pub Loads : W → Type 0
  Loads w =
      (w' : W) × (key : String) × (store.rw.get_latest_key_for_id id w ≡ (w', ok key))
      × (is_blank key ≡ false)
      × Decodes (store.rw.read key w')

  decode_object-Decodes :
      (a : W × Result (Option (B × Option String)))
      → (decode_object store id a).1 ≡ ok m
      → Decodes a
  decode_object-Decodes (w, err e) h = cc h
  decode_object-Decodes (w, panic) h = cc h
  decode_object-Decodes (w, ok none) h = cc h
  decode_object-Decodes (w, ok (some (body, none))) h = cc h
  decode_object-Decodes (w, ok (some (body, some content_type))) h =
      elim (Bool-cases (text_eq (trim_space content_type) "application/json")) [
        | inl e ↦ (w, body, content_type, refl, e, ground (arith, e, h))
        | inr e ↦ ground (arith, e, h)
      ]

  read_key-Loads :
      (a : W × Result String)
      → (read_key store id a).1 ≡ ok m
      → (w' : W) × (key : String) × (a ≡ (w', ok key))
        × (is_blank key ≡ false)
        × ((decode_object store id (store.rw.read key w')).1 ≡ ok m)
  read_key-Loads (w, err e) h = cc h
  read_key-Loads (w, panic) h = cc h
  read_key-Loads (w, ok key) h = elim (Bool-cases (is_blank key)) [
    | inl e ↦ ground (arith, e, h)
    | inr e ↦ (w, key, refl, e, ground (arith, e, h))
  ]

  Decodes-decode_object :
      (a : W × Result (Option (B × Option String)))
      → Decodes a
      → (decode_object store id a).1 ≡ ok m
  Decodes-decode_object a (w, body, content_type, e, json, decoded) =
      rw (e, decode_object, json) decoded

  -- `LoadMetadata` gives this metadata exactly where S3 has a latest key for the ID that is not blank,
  -- an object is found under it, its content type is that of JSON, with or without white space about
  -- it, and the object is decoded to this metadata.
  pub load_metadata_iff : (w : W) → ((load_metadata store id w).1 ≡ ok m) ↔ Loads w
  unfolding load_metadata
  load_metadata_iff w = (to, from)
    where
      to : (load_metadata store id w).1 ≡ ok m → Loads w
      to h =
          let (w', key, listed, named, rest) =
            read_key-Loads (store.rw.get_latest_key_for_id id w) h in
          (w', key, listed, named, decode_object-Decodes (store.rw.read key w') rest)

      from : Loads w → (load_metadata store id w).1 ≡ ok m
      from (w', key, listed, named, decodes) =
          ap (λ a. (read_key store id a).1) listed
          ∙ rw named (Decodes-decode_object (store.rw.read key w') decodes)
