-- ===== src/Native/Cursor.antt =====
-- native/native_uuid_collection.go: the collection over a database cursor.
-- `DbIter` is the driver's iterator, and `uuid_string` prints the bytes of a UUID; both belong to
-- packages outside the repository.
pub mod Timeout
use publish_carousel.Prelude.{
  ℕ, String, ◌≡◌, refl, ap, Bool, true, false, List, Option, none, some, Error, if◌then◌else◌,
}
use publish_carousel.Native.Collection.{Next, UuidCollection}
use publish_carousel.Native.Content.{Value, text, binary, other, Document, lookup_key}

-- `next` gives the document, where it succeeds; `err` and `timeout` are asked after it.
pub record DbIter (I : Type 0) : Type 0 where
  pub next : I → I × Option Document
  pub err : I → Option Error
  pub timeout : I → Bool
  pub close : I → I

pub record Cursor (I : Type 0) : Type 0 where
  pub iter : I
  pub length : ℕ

module _ {I : Type 0} (db : DbIter I) (uuid_string : List ℕ → String) where
  abbrev pub last : Option Error → Next
  last e = record { finished = true; uuid = ""; error = e }

  -- `parseBinaryUUID`: the type assertion panics unless the value is binary.
  abbrev pub parse_binary_uuid : Value → Option String
  parse_binary_uuid (binary b) = some (uuid_string b)
  parse_binary_uuid (text s) = none
  parse_binary_uuid (other n) = none

  abbrev pub answer_value : Option String → Option Next
  answer_value none = none
  answer_value (some u) = some (record { finished = false; uuid = u; error = none })

  -- The end of `Next`: a document without a UUID is a blank one.
  abbrev pub answer_field : Option Value → Option Next
  answer_field none = some (record { finished = false; uuid = ""; error = none })
  answer_field (some v) = answer_value (parse_binary_uuid v)

  abbrev pub answer_timeout : Document → Bool → Option Next
  answer_timeout d true = some (last (some "Mongo timeout detected"))
  answer_timeout d false = answer_field (lookup_key "uuid" d)

  abbrev pub answer_error : I → Document → Option Error → Option Next
  answer_error i d (some e) = some (last (some e))
  answer_error i d none = answer_timeout d (db.timeout i)

  abbrev pub answer_cursor : Cursor I → I × Option Document → Cursor I × Option Next
  answer_cursor c (i, none) = (record c { iter = i }, some (last (db.err i)))
  answer_cursor c (i, some d) = (record c { iter = i }, answer_error i d (db.err i))

  unfoldable pub next_cursor : Cursor I → Cursor I × Option Next
  next_cursor c = answer_cursor c (db.next c.iter)

  abbrev pub native_collection : UuidCollection (Cursor I)
  native_collection = record {
    next = next_cursor;
    length = λ c. c.length;
    close = λ c. record c { iter = db.close c.iter };
  }
