-- ===== src/Cms/Notifier/Accepted.antt =====
-- cms/cms_notifier.go: when `Notify` succeeds.
use publish_carousel.Prelude.{
  ℕ, String, ◌≡◌, refl, ◌≤◌, ◌<◌, Option, none, some, ◌⊎◌, inl, inr, Error, Result, ok, err, panic,
  arith,
}
use publish_carousel.Native.Content.{Content}
use publish_carousel.Cms.Notifier.{Request, Client, answered, checked, encoded, notify, new_request}

module _ {W B : Type 0} (client : Client W B) (notifier_url : String) where
  answered-ok :
      (a : W × Result ℕ)
      → (answered client notifier_url a).1 ≡ ok tt
      → (status : ℕ) × (a.1 ≡ ok status) × (200 ≤ status) × (status < 300)
  answered-ok (w, err e) h = cc h
  answered-ok (w, panic) h = cc h
  answered-ok (w, ok status) h = (status, refl, ground (arith, h), ground (arith, h))

  checked-ok :
      (r : Request B) (w : W) (o : Option Error)
      → (checked client notifier_url r w o).1 ≡ ok tt
      → (status : ℕ) × ((client.send r w).1 ≡ ok status) × (200 ≤ status) × (status < 300)
  checked-ok r w (some e) h = cc h
  checked-ok r w none h = answered-ok (client.send r w) h

  encoded-ok :
      (origin tid hash : String) (content : Content) (w : W) (e : Error ⊎ B)
      → (encoded client notifier_url origin tid content hash w e).1 ≡ ok tt
      → (b : B) × (status : ℕ) × (e ≡ inr b)
        × ((client.send (new_request client notifier_url origin tid content hash b) w).1
            ≡ ok status)
        × (200 ≤ status)
        × (status < 300)
  encoded-ok origin tid hash content w (inl e) h = cc h
  encoded-ok origin tid hash content w (inr b) h =
      let (status, sent, low, high) =
        checked-ok (new_request client notifier_url origin tid content hash b) w _ h in
      (b, status, refl, sent, low, high)

  -- `Notify` reports success only where the document's body was encoded, and the request with that
  -- body and the headers of the document was sent and answered with a status from 200 to 299.
  notify-ok :
      (origin tid hash : String) (content : Content) (w : W)
      → (notify client notifier_url origin tid content hash w).1 ≡ ok tt
      → (b : B) × (status : ℕ) × (client.encode content.body ≡ inr b)
        × ((client.send (new_request client notifier_url origin tid content hash b) w).1
            ≡ ok status)
        × (200 ≤ status)
        × (status < 300)
  unfolding notify
  notify-ok origin tid hash content w h =
      encoded-ok origin tid hash content w (client.encode content.body) h
