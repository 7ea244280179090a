-- ===== src/Native/Content.antt =====
-- native/mongo.go: the native document.
use publish_carousel.Prelude.{ℕ, String, List, [], ◌∷◌, Option, none, some, if◌then◌else◌, text_eq}

-- A field's value: text, bytes, or any other BSON value, of which the program reads nothing.
pub data Value : Type 0 where
  text : String → Value
  binary : List ℕ → Value
  other : ℕ → Value

-- A map with text keys.
abbrev pub Document : Type 0
Document = List (String × Value)

unfoldable pub lookup_key : String → Document → Option Value
lookup_key k [] = none
lookup_key k ((j, v) ∷ d) = if text_eq j k then some v else lookup_key k d

-- `body` is none where the map is nil.
pub record Content : Type 0 where
  pub body : Option Document
  pub content_type : String
  pub origin_system_id : String
