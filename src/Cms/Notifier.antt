-- ===== src/Cms/Notifier.antt =====
-- cms/cms_notifier.go: the notifier, and `Notify`, which posts a native document.
pub mod Accepted
use Prim.Native.String.{◌++◌ as append}
use publish_carousel.Prelude.{
  ℕ, String, Bool, false, ◌&&◌, List, [], ◌∷◌, Option, none, some, ◌⊎◌, inl, inr, Error, Result, ok,
  err, panic, if◌then◌else◌, text_eq, leb, ltb,
}
use publish_carousel.Cluster.Service.{ClusterService, new_service}
use publish_carousel.Native.Content.{Document, Content}

-- A POST request; its headers in the order in which they are added.
pub record Request (B : Type 0) : Type 0 where
  pub url : String
  pub headers : List (String × String)
  pub body : B

-- What `Notify` calls: the JSON encoder, the parser of the URL in `http.NewRequest`, the HTTP client,
-- which answers with a status, and `fmt` for the message of a status.
pub record Client (W B : Type 0) : Type 0 where
  pub encode : Option Document → Error ⊎ B
  pub check_url : String → Option Error
  pub send : Request B → W → W × Result ℕ
  pub decimal : ℕ → String

-- `NewNotifier`: its service, which is checked at the good-to-go endpoint; the URL of the notifier
-- and the client are kept as they are.
unfoldable pub new_notifier : (String → Option Error) → String → Error ⊎ ClusterService
unfolding new_service
new_notifier parse_uri notifier_url = new_service parse_uri "cms-notifier" notifier_url false

abbrev pub notify_path : String
notify_path = "/notify"

-- The origin of the document, where it has one.
abbrev pub origin_of : String → Content → String
origin_of origin content =
    if text_eq content.origin_system_id "" then origin else content.origin_system_id

abbrev pub is_accepted : ℕ → Bool
is_accepted status = leb 200 status && ltb status 300

module _ {W B : Type 0} (client : Client W B) (notifier_url : String) where
  unfoldable pub new_request : String → String → Content → String → B → Request B
  new_request origin tid content hash b = record {
    url = append notifier_url notify_path;
    headers =
        ("User-Agent", "UPP Publish Carousel")
        ∷ ("Content-Type", content.content_type)
        ∷ ("X-Request-Id", tid)
        ∷ ("X-Native-Hash", hash)
        ∷ ("X-Origin-System-Id", origin_of origin content)
        ∷ [];
    body = b;
  }

  abbrev pub answered : W × Result ℕ → W × Result (Unit {0})
  answered (w, err e) = (w, err e)
  answered (w, panic) = (w, panic)
  answered (w, ok status) = (
    w,
    if is_accepted status
        then ok tt
        else err (
            append "A non 2xx error code was received by the CMS Notifier! Status: "
              (client.decimal status)),
  )

  -- The headers are added before the error of `http.NewRequest` is looked at, and beside an error
  -- the request is nil.
  abbrev pub checked : Request B → W → Option Error → W × Result (Unit {0})
  checked request w (some e) = (w, panic)
  checked request w none = answered (client.send request w)

  abbrev pub encoded : String → String → Content → String → W → Error ⊎ B → W × Result (Unit {0})
  encoded origin tid content hash w (inl e) = (w, err e)
  encoded origin tid content hash w (inr b) =
      checked (new_request origin tid content hash b) w
        (client.check_url (append notifier_url notify_path))

  -- `Notify`
  unfoldable pub notify : String → String → Content → String → W → W × Result (Unit {0})
  unfolding new_request
  notify origin tid content hash w = encoded origin tid content hash w (client.encode content.body)
