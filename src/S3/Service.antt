-- ===== src/S3/Service.antt =====
-- s3/service.go: `DefaultReadWriter`, over the S3 client of the AWS SDK, which is a parameter.
pub mod Latest
use Prim.Native.String.{◌++◌ as append}
use publish_carousel.Prelude.{
  String, Bool, true, false, List, [], ◌∷◌, Option, none, some, Error, Result, ok, err, panic,
  if◌then◌else◌, is_blank, text_eq,
}
use publish_carousel.Prelude.Int.{ℤ, ltb_ℤ}
use publish_carousel.S3.{ReadWriter}

-- An entry of a listing, whose key and time the SDK always sets.
pub record Object : Type 0 where
  pub key : String
  pub last_modified : ℤ

-- An error of `GetObject`, with its code where it is one of the SDK's.
pub data Fetched (B : Type 0) : Type 0 where
  found : B → Option String → Fetched B
  failed : Option String → Error → Fetched B

-- `new_session` is `session.NewSession`; the others are called with the bucket first.
pub record S3Api (W B : Type 0) : Type 0 where
  pub new_session : W → W × Option Error
  pub put_object : String → String → B → Option String → W → W × Option Error
  pub list_objects : String → String → W → W × Result (List Object)
  pub get_object : String → String → W → W × Fetched B

-- The loop of `GetLatestKeyForID`, with its variables.
unfoldable pub latest_from : Option ℤ → String → List Object → String
latest_from none latest [] = latest
latest_from (some t) latest [] = latest
latest_from none latest (o ∷ os) = latest_from (some o.last_modified) o.key os
latest_from (some t) latest (o ∷ os) =
    let newer = latest_from (some o.last_modified) o.key os in
    let older = latest_from (some t) latest os in if ltb_ℤ t o.last_modified then newer else older

unfoldable pub latest_key : List Object → String
unfolding latest_from
latest_key = latest_from none ""

module _ {W B : Type 0} (api : S3Api W B) (bucket : String) where
  -- The service remembers whether it has a session.
  abbrev pub Session : Type 0
  Session = Bool × W

  abbrev opened : W × Option Error → Session × Option Error
  opened (w, none) = ((true, w), none)
  opened (w, some e) = ((false, w), some e)

  -- `open`
  unfoldable pub open_session : Session → Session × Option Error
  open_session (true, w) = ((true, w), none)
  open_session (false, w) = opened (api.new_session w)

  -- `Ping`
  abbrev pub ping : Session → Option Error
  ping (has_session, w) = if has_session then none else some "S3 session is not initialised!"

  abbrev content_type_param : String → Option String
  content_type_param content_type = if is_blank content_type then none else some content_type

  abbrev put : String → String → B → String → Session × Option Error → Session × Option Error
  put id key b content_type (s, some e) = (s, some e)
  put id key b content_type ((o, w), none) =
      let answer =
        api.put_object bucket (append id (append "/" key)) b (content_type_param content_type) w in
      ((o, answer.0), answer.1)

  -- `Write`
  unfoldable pub write : String → String → B → String → Session → Session × Option Error
  unfolding open_session
  write id key b content_type s = put id key b content_type (open_session s)

  abbrev pick : Bool → W × Result (List Object) → Session × Result String
  pick o (w, ok objects) = ((o, w), ok (latest_key objects))
  pick o (w, err e) = ((o, w), err e)
  pick o (w, panic) = ((o, w), panic)

  abbrev list_in : String → Session × Option Error → Session × Result String
  list_in id (s, some e) = (s, err e)
  list_in id ((o, w), none) = pick o (api.list_objects bucket (append id "/") w)

  -- `GetLatestKeyForID`
  unfoldable pub get_latest_key_for_id : String → Session → Session × Result String
  unfolding open_session latest_key
  get_latest_key_for_id id s = list_in id (open_session s)

  abbrev is_missing : Option String → Bool
  is_missing none = false
  is_missing (some code) = text_eq code "NoSuchKey"

  abbrev fetched : Bool → W × Fetched B → Session × Result (Option (B × Option String))
  fetched o (w, found b content_type) = ((o, w), ok (some (b, content_type)))
  fetched o (w, failed code e) = ((o, w), if is_missing code then ok none else err e)

  abbrev get : String → Session × Option Error → Session × Result (Option (B × Option String))
  get key (s, some e) = (s, err e)
  get key ((o, w), none) = fetched o (api.get_object bucket key w)

  -- `Read`
  unfoldable pub read : String → Session → Session × Result (Option (B × Option String))
  unfolding open_session
  read key s = get key (open_session s)

  -- The service as the `ReadWriter` that the other parts take.
  abbrev pub default_read_writer : ReadWriter Session B
  default_read_writer = record {
    write = write;
    read = read;
    get_latest_key_for_id = get_latest_key_for_id;
  }
