-- ===== src/Native/Database.antt =====
-- native/mongo.go, native/query.go and native/native_reader.go: the sessions of the database and
-- the queries that are handed to its driver.
pub mod Sessions
use publish_carousel.Prelude.{
  ℕ, ◌+◌, String, Bool, true, false, List, [], ◌∷◌, Option, none, some, ◌⊎◌, inl, inr, Error,
  if◌then◌else◌, add_int, inc, is_positive,
}
use publish_carousel.Native.Content.{Content}

-- A BSON value, as the queries have them.
mutual
  pub data Bson : Type 0 where
    text : String → Bson
    int : ℕ → Bson
    binary : ℕ → List ℕ → Bson
    document : Fields → Bson
    array : Items → Bson

  pub data Fields : Type 0 where
    no_fields : Fields
    field : String → Bson → Fields → Fields

  pub data Items : Type 0 where
    no_items : Items
    item : Bson → Items → Items

-- `readNativeContentQuery`, over the bytes of a parsed UUID.
unfoldable pub read_native_content_query : (String → List ℕ) → String → Bson
read_native_content_query parse_uuid uuid =
    document (field "uuid" (binary 4 (parse_uuid uuid)) no_fields)

abbrev pub uuid_projection : Bson
uuid_projection = document (field "uuid" (int 1) no_fields)

abbrev pub last_modified : String → String → Bson
last_modified operator time =
    document
      (field "content.lastModified" (document (field operator (text time) no_fields)) no_fields)

-- `findUUIDsForTimeWindowQueryElements`, of the start and the end as RFC 3339 texts in UTC.
unfoldable pub find_uuids_for_time_window_query_elements : String → String → Bson × Bson
find_uuids_for_time_window_query_elements start end = (
  document (
      field "$and"
        (array (item (last_modified "$gte" start) (item (last_modified "$lt" end) no_items)))
        no_fields),
  uuid_projection,
)

-- `findUUIDsQueryElements`
unfoldable pub find_uuids_query_elements : Bson × Bson
find_uuids_query_elements = (document no_fields, uuid_projection)

abbrev pub sort_by_date : String
sort_by_date = "-content.lastModified"

-- A query that was built for the driver, on the database native-store.
pub record Find : Type 0 where
  pub collection : String
  pub query : Bson
  pub projection : Option Bson
  pub sort : Option String
  pub batch : ℕ
  pub skip : Option ℕ

-- The driver: `DialWithTimeout`, a query's `Count`, `Iter` and `One`, and a session's `Ping`, which
-- gives none where it has no answer before the context is done.
pub record Driver (W S : Type 0) : Type 0 where
  pub dial : W → W × Option Error
  pub count : Find → W → W × ℕ × Option Error
  pub iter : Find → W → W × S
  pub one : Find → W → W × Content × Option Error
  pub ping_session : W → W × Option (Option Error)
  pub ctx_error : W → Option Error
  pub parse_uuid : String → List ℕ

-- `MongoDB`: whether it has a session; and the counter `connections`.
pub record Database : Type 0 where
  pub has_session : Bool
  pub connections : ℕ

abbrev pub expected_connections : ℕ
expected_connections = 1

abbrev pub new_database : Database
new_database = record { has_session = false; connections = 0 }

module _ {W S : Type 0} (driver : Driver W S) where
  abbrev pub dialled : Database → W × Option Error → W × Database × Option Error
  dialled db (w, some e) = (w, db, some e)
  dialled db (w, none) = (w, record { has_session = true; connections = inc db.connections }, none)

  -- `Open`: a copy of the session, which is made at the first call that can.
  unfoldable pub open_session : Database → W → W × Database × Option Error
  open_session db w = if db.has_session then (w, db, none) else dialled db (driver.dial w)

  -- The iterator, the total and the error of a query.
  abbrev pub Found : Type 0
  Found = W × S × ℕ × Option Error

  abbrev found : Find → ℕ → W × ℕ × Option Error → Found
  found find skip (w, n, e) = let i = driver.iter find w in (i.0, i.1, add_int n skip, e)

  unfoldable pub find_uuids_in_time_window : String → String → String → ℕ → W → Found
  find_uuids_in_time_window collection start end batchsize w =
      let elements = find_uuids_for_time_window_query_elements start end in
      let find : Find = record {
        collection = collection;
        query = elements.0;
        projection = some elements.1;
        sort = none;
        batch = batchsize;
        skip = none;
      } in
      found find 0 (driver.count find w)

  unfoldable pub find_uuids : String → ℕ → ℕ → W → Found
  find_uuids collection skip batchsize w =
      let find : Find = record {
        collection = collection;
        query = find_uuids_query_elements.0;
        projection = some find_uuids_query_elements.1;
        sort = some sort_by_date;
        batch = batchsize;
        skip = if is_positive skip then some skip else none;
      } in
      found find skip (driver.count find w)

  unfoldable pub read_native_content : String → String → W → W × Content × Option Error
  read_native_content collection uuid w =
      driver.one
        (record {
          collection = collection;
          query = read_native_content_query driver.parse_uuid uuid;
          projection = none;
          sort = none;
          batch = 0;
          skip = none;
        })
        w

  -- `Ping`: the answer, or the error of the context.
  abbrev pinged : W × Option (Option Error) → W × Option Error
  pinged (w, some answer) = (w, answer)
  pinged (w, none) = (w, driver.ctx_error w)

  unfoldable pub ping : W → W × Option Error
  ping w = pinged (driver.ping_session w)

  -- `Get` of the reader; the document beside an error is not returned.
  abbrev pub read_document : W × Content × Option Error → W × (Error ⊎ Content)
  read_document (w, content, none) = (w, inr content)
  read_document (w, content, some e) = (w, inl e)

  abbrev pub read_opened :
      String → String → W × Database × Option Error → Database × W × (Error ⊎ Content)
  read_opened collection uuid (w, db, some e) = (db, w, inl e)
  read_opened collection uuid (w, db, none) =
      let a = read_document (read_native_content collection uuid w) in (db, a.0, a.1)

  unfoldable pub get : String → String → Database → W → Database × W × (Error ⊎ Content)
  unfolding open_session read_native_content
  get collection uuid db w = read_opened collection uuid (open_session db w)
