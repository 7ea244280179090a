-- ===== src/Native/Cursor/Timeout.antt =====
-- native/native_uuid_collection.go: `Next` on a cursor that timed out.
use publish_carousel.Prelude.{ℕ, String, ◌≡◌, refl, false, List, Option, none, some, Error, arith}
use publish_carousel.Native.Collection.{Next}
use publish_carousel.Native.Content.{Value, text, binary, other, Document, lookup_key}
use publish_carousel.Native.Cursor.{
  DbIter, Cursor, next_cursor, answer_cursor, answer_error, answer_timeout, answer_field,
}

module _ {I : Type 0} (db : DbIter I) (uuid_string : List ℕ → String) where
  answer_field-error :
      (v : Option Value) (n : Next) → answer_field db uuid_string v ≡ some n → n.error ≡ none
  answer_field-error none n h = ground arith
  answer_field-error (some (binary b)) n h = ground arith
  answer_field-error (some (text s)) n h = cc h
  answer_field-error (some (other k)) n h = cc h

  answer_error-error :
      (i : I) (d : Document) (e : Option Error) (n : Next)
      → db.timeout i ≡ false
      → answer_error db uuid_string i d e ≡ some n
      → n.error ≡ e
  answer_error-error i d (some e) n t h = ground arith
  answer_error-error i d none n t h =
      answer_field-error (lookup_key "uuid" d) n (rw (t, answer_timeout) at h)

  answer_cursor-error :
      (c : Cursor I) (n : Next) (a : I × Option Document)
      → ((d : Document) → a.1 ≡ some d → db.timeout a.0 ≡ false)
      → (answer_cursor db uuid_string c a).1 ≡ some n
      → n.error ≡ db.err (answer_cursor db uuid_string c a).0.iter
  answer_cursor-error c n (i, none) law h = ground arith
  answer_cursor-error c n (i, some d) law h = answer_error-error i d (db.err i) n (law d refl) h

  -- Where `Timeout` is true only after a `Next` that gave no document, as the driver documents,
  -- `Next` reports no error but the iterator's own: the message about a timeout is never reported,
  -- and a cursor that timed out with no error ends like one that was read to its end.
  pub next_cursor-error :
      (c : Cursor I) (n : Next)
      → ((i j : I) (d : Document) → db.next i ≡ (j, some d) → db.timeout j ≡ false)
      → (next_cursor db uuid_string c).1 ≡ some n
      → n.error ≡ db.err (next_cursor db uuid_string c).0.iter
  unfolding next_cursor
  next_cursor-error c n law h =
      answer_cursor-error c n (db.next c.iter)
        (λ d e. law c.iter (db.next c.iter).0 d (λ i. ((db.next c.iter).0, e i))) h
