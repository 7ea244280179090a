-- ===== src/Tasks/PublishTask.antt =====
-- tasks/publish_task.go and image/filter.go: the task that reads a native document and posts it to
-- the CMS notifier.
pub mod Notified
use Prim.Native.String.{◌++◌ as append}
use publish_carousel.Prelude.{
  String, Bool, true, false, List, [], ◌∷◌, Option, none, some, Error, Result, ok, err, panic,
  if◌then◌else◌, concat, is_blank, lowers_to, text_eq,
}
use publish_carousel.Native.Content.{Value, text, binary, other, Document, lookup_key, Content}
use publish_carousel.Tasks.{Task}

-- What the task calls: the reader of native documents; `isImage`, a filter; the encoder to JSON with
-- the hash of its text; the notifier, with an origin, a transaction id, the document and the hash;
-- a new transaction id; and the seconds of the clock, as text.
pub record Services (W : Type 0) : Type 0 where
  pub get : String → String → W → W × Result Content
  pub is_image : String → Content → Result Bool
  pub hash_body : Option Document → Result String
  pub notify : String → String → Content → String → W → W × Result (Unit {0})
  pub new_transaction_id : W → W × String
  pub unix_seconds : W → String

-- The filter that `NewFilter` gives; a type that is no text makes the assertion panic.
abbrev image_type : Option Value → Result Bool
image_type none = ok false
image_type (some (text s)) = ok (lowers_to s "image")
image_type (some (binary b)) = panic
image_type (some (other n)) = panic

abbrev image_body : Option Document → Result Bool
image_body none = err "no body found"
image_body (some d) = image_type (lookup_key "type" d)

unfoldable pub image_filter : String → Content → Result Bool
image_filter uuid content = image_body content.body

abbrev pub publish_reference_attr : String
publish_reference_attr = "publishReference"

abbrev pub gen_tx_suffix : String
gen_tx_suffix = "_gentx"

abbrev pub carousel_intrafix : String
carousel_intrafix = "_carousel_"

-- `m[k] = v`
unfoldable pub assign : String → Value → Document → Document
assign k v [] = (k, v) ∷ []
assign k v ((j, x) ∷ d) =
    let rest = assign k v d in if text_eq j k then (j, v) ∷ d else (j, x) ∷ rest

module _ {W : Type 0} (services : Services W) where
  -- `generateTXIDSuffix`
  abbrev pub generate_txid_suffix : W → String
  generate_txid_suffix w = append carousel_intrafix (services.unix_seconds w)

  -- `toCarouselTXID`
  abbrev pub to_carousel_txid : String → W → String
  to_carousel_txid tid w = append tid (generate_txid_suffix w)

  -- `generateCarouselTXID`
  abbrev pub generate_carousel_txid : W → W × String
  generate_carousel_txid w =
      let made = services.new_transaction_id w in
      (made.0, concat (made.1 ∷ generate_txid_suffix made.0 ∷ gen_tx_suffix ∷ []))

  -- The transaction id that follows the document's publish reference, where that is a text.
  abbrev pub carousel_txid : Option Value → W → W × String
  carousel_txid none w = generate_carousel_txid w
  carousel_txid (some (text tid)) w =
      if is_blank tid then generate_carousel_txid w else (w, to_carousel_txid tid w)
  carousel_txid (some (binary b)) w = generate_carousel_txid w
  carousel_txid (some (other n)) w = generate_carousel_txid w

  abbrev with_content : Content → W × String → W × Result (Content × String)
  with_content content (w, tid) = (w, ok (content, tid))

  abbrev after_filter :
      String → Content → Document → W → Result Bool → W × Result (Content × String)
  after_filter uuid content d w (err e) = (w, err e)
  after_filter uuid content d w panic = (w, panic)
  after_filter uuid content d w (ok true) =
      (w, err (concat ("Skipping uuid \"" ∷ uuid ∷ "\" as it is an image" ∷ [])))
  after_filter uuid content d w (ok false) =
      with_content content (carousel_txid (lookup_key publish_reference_attr d) w)

  abbrev after_body : String → Content → W → Option Document → W × Result (Content × String)
  after_body uuid content w none =
      (w, err (concat ("Skipping uuid \"" ∷ uuid ∷ "\" as it has no content" ∷ [])))
  after_body uuid content w (some d) =
      after_filter uuid content d w (services.is_image uuid content)

  abbrev after_get : String → W × Result Content → W × Result (Content × String)
  after_get uuid (w, err e) = (w, err e)
  after_get uuid (w, panic) = (w, panic)
  after_get uuid (w, ok content) = after_body uuid content w content.body

  -- `Prepare`
  unfoldable pub prepare : String → String → W → W × Result (Content × String)
  unfolding lookup_key
  prepare collection uuid w = after_get uuid (services.get collection uuid w)

  -- `content.Body[publishReferenceAttr] = tid`; on a nil map the assignment panics.
  abbrev pub notify_body :
      String → String → Content → String → W → Option Document → W × Result (Unit {0})
  notify_body origin tid content hash w none = (w, panic)
  notify_body origin tid content hash w (some d) =
      services.notify origin tid
        (record content { body = some (assign publish_reference_attr (text tid) d) }) hash w

  abbrev pub after_hash : String → String → Content → W → Result String → W × Result (Unit {0})
  after_hash origin tid content w (err e) = (w, err e)
  after_hash origin tid content w panic = (w, panic)
  after_hash origin tid content w (ok hash) = notify_body origin tid content hash w content.body

  -- `Execute`
  unfoldable pub execute : String → Content → String → String → W → W × Result (Unit {0})
  unfolding assign
  execute uuid content origin tid w =
      after_hash origin tid content w (services.hash_body content.body)

  abbrev pub native_content_task : Task W
  native_content_task = record { prepare = prepare; execute = execute }
