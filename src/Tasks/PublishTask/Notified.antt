-- ===== src/Tasks/PublishTask/Notified.antt =====
-- tasks/publish_task.go: which documents are published, and what is posted for one.
use publish_carousel.Prelude.{
  String, Bool, ◌≡◌, refl, ap, subst, true, false, [], ◌∷◌, Option, none, some, Result, ok, err,
  panic, if◌then◌else◌, text_eq, eq_iff, arith,
}
use publish_carousel.Native.Content.{Value, text, Document, lookup_key, Content}
use publish_carousel.Tasks.PublishTask.{
  Services, publish_reference_attr, assign, after_get, after_body, after_filter, notify_body,
  after_hash, prepare, execute,
}

lookup_key-assign :
    (k j : String) (v : Value) (d : Document)
    → lookup_key j (assign k v d) ≡ (if text_eq k j then some v else lookup_key j d)
unfolding lookup_key assign
lookup_key-assign k j v [] = ground arith
lookup_key-assign k j v ((i, x) ∷ d) =
    ground (arith, eq_iff k j, eq_iff i k, eq_iff i j, lookup_key-assign k j v d)

-- What `Prepare` lets through: a document with a body that is no image.
pub record IsPublishable {W : Type 0} (services : Services W) (uuid : String) (content : Content)
    : Type 0 where
  pub document : Document
  pub has_body : content.body ≡ some document
  pub is_no_image : services.is_image uuid content ≡ ok false

module _ {W : Type 0} (services : Services W) where
  after_filter-IsPublishable :
      (uuid tid : String) (c content : Content) (d : Document) (w : W) (r : Result Bool)
      → c.body ≡ some d
      → services.is_image uuid c ≡ r
      → (after_filter services uuid c d w r).1 ≡ ok (content, tid)
      → IsPublishable services uuid content × (c ≡ content)
  after_filter-IsPublishable uuid tid c content d w (err e) b i h = cc h
  after_filter-IsPublishable uuid tid c content d w panic b i h = cc h
  after_filter-IsPublishable uuid tid c content d w (ok true) b i h = cc h
  after_filter-IsPublishable uuid tid c content d w (ok false) b i h =
      let same : c ≡ content = cc h in
      (
        subst (IsPublishable services uuid) same
            (record { document = d; has_body = b; is_no_image = i }),
        same,
      )

  after_body-IsPublishable :
      (uuid tid : String) (c content : Content) (w : W) (o : Option Document)
      → c.body ≡ o
      → (after_body services uuid c w o).1 ≡ ok (content, tid)
      → IsPublishable services uuid content × (c ≡ content)
  after_body-IsPublishable uuid tid c content w none b h = cc h
  after_body-IsPublishable uuid tid c content w (some d) b h =
      after_filter-IsPublishable uuid tid c content d w (services.is_image uuid c) b refl h

  after_get-IsPublishable :
      (uuid tid : String) (content : Content) (a : W × Result Content)
      → (after_get services uuid a).1 ≡ ok (content, tid)
      → IsPublishable services uuid content × (a.1 ≡ ok content)
  after_get-IsPublishable uuid tid content (w, err e) h = cc h
  after_get-IsPublishable uuid tid content (w, panic) h = cc h
  after_get-IsPublishable uuid tid content (w, ok c) h =
      let (p, same) = after_body-IsPublishable uuid tid c content w c.body refl h in (p, ap ok same)

  -- `Prepare` gives only documents that the reader gave, that have a body, and that the filter says
  -- are no image.
  pub prepare-IsPublishable :
      (collection uuid tid : String) (content : Content) (w : W)
      → (prepare services collection uuid w).1 ≡ ok (content, tid)
      → IsPublishable services uuid content × ((services.get collection uuid w).1 ≡ ok content)
  unfolding prepare
  prepare-IsPublishable collection uuid tid content w h =
      after_get-IsPublishable uuid tid content (services.get collection uuid w) h

  -- Where the document has a body and its hash can be computed, `Execute` posts once: with the hash
  -- of the body as it was read, and with a body in which the publish reference is the transaction id
  -- and every other field is as it was.
  pub execute-notify :
      (uuid origin tid hash : String) (content : Content) (d : Document) (w : W)
      → content.body ≡ some d
      → services.hash_body content.body ≡ ok hash
      → (posted : Document) × (execute services uuid content origin tid w
          ≡ services.notify origin tid (record content { body = some posted }) hash w)
        × ((k : String)
            → lookup_key k posted
              ≡ (if text_eq publish_reference_attr k then some (text tid) else lookup_key k d))
  unfolding execute
  execute-notify uuid origin tid hash content d w b h =
      rw (h, after_hash, b, notify_body)
        (
          assign publish_reference_attr (text tid) d,
          refl,
          λ k. lookup_key-assign publish_reference_attr k (text tid) d,
        )
