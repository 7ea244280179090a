-- ===== src/Blacklist.antt =====
-- blacklist/blacklist.go: a file whose lines name the UUIDs that are not published.
-- Opening the file gives its lines and the error of the scanner, which are parameters. Lines and
-- UUIDs are texts, and a text stands in another where its bytes do.
pub mod Lines
use publish_carousel.Prelude.{
  String, Bool, true, false, ◌||◌, List, [], ◌∷◌, Option, none, some, ◌⊎◌, inl, inr, Error,
  if◌then◌else◌, starts_with,
}

-- `bytes.Contains`
unfoldable pub contains : String → String → Bool
unfolding starts_with
contains String.[] word = starts_with word ""
contains (String.◌∷◌ c s) word = starts_with word (String.◌∷◌ c s) || contains s word

abbrev pub Scanned : Type 0
Scanned = List String × Option Error

abbrev pub Answer : Type 0
Answer = Bool × Option Error

-- `NoOpBlacklist`
unfoldable pub no_op_blacklist : String → Bool × Option Error
no_op_blacklist uuid = (false, none)

-- The loop of the scanner.
unfoldable pub scan : String → List String → Option Error → Bool × Option Error
unfolding contains
scan uuid [] e = (false, e)
scan uuid (line ∷ lines) e =
    let rest = scan uuid lines e in if contains line uuid then (true, none) else rest

module _ {W : Type 0} (open_file : String → W → W × (Error ⊎ Scanned)) where
  abbrev pub scanned : String → W × (Error ⊎ Scanned) → W × Answer
  scanned uuid (w, inl e) = (w, (false, some e))
  scanned uuid (w, inr (lines, e)) = (w, scan uuid lines e)

  -- The function that `NewFileBasedBlacklist` returns: it reads the file anew.
  unfoldable pub is_blacklisted : String → String → W → W × Answer
  unfolding scan
  is_blacklisted file uuid w = scanned uuid (open_file file w)

  abbrev opened : W × (Error ⊎ Scanned) → W × Option Error
  opened (w, inl e) = (w, some e)
  opened (w, inr lines) = (w, none)

  -- `NewFileBasedBlacklist`: whether there is such a function.
  unfoldable pub new_file_based_blacklist : String → W → W × Option Error
  new_file_based_blacklist file w = opened (open_file file w)
