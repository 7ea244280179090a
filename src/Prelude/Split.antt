-- ===== src/Prelude/Split.antt =====
-- `strings.Split`, `strings.SplitN` and `strings.Join` with a separator of one character, given by
-- its code point.
pub mod Laws
use Prim.Native.Nat.{ℕ, zero, suc}
use Prim.Native.Char.{Char, code}
use Prim.Native.String.{String, ◌++◌ as append}
use mathlib.Core.Bool.{Bool, false, ◌||◌}
use mathlib.Core.List.{List, [], ◌∷◌}
use publish_carousel.Prelude.Tests.{◌==◌, if◌then◌else◌}

abbrev pub push_head : Char → List String → List String
push_head c [] = String.◌∷◌ c String.[] ∷ []
push_head c (piece ∷ pieces) = String.◌∷◌ c piece ∷ pieces

-- `strings.Split`
unfoldable pub split : ℕ → String → List String
split separator String.[] = "" ∷ []
split separator (String.◌∷◌ c s) =
    let rest = split separator s in if code c == separator then "" ∷ rest else push_head c rest

-- `strings.SplitN`, with n pieces at most, for n above 0.
unfoldable pub split_n : ℕ → ℕ → String → List String
split_n zero separator s = []
split_n (suc zero) separator s = s ∷ []
split_n (suc (suc n)) separator String.[] = "" ∷ []
split_n (suc (suc n)) separator (String.◌∷◌ c s) =
    let same = split_n (suc (suc n)) separator s in
    let fewer = split_n (suc n) separator s in
    if code c == separator then "" ∷ fewer else push_head c same

-- `strings.Join`
unfoldable pub join : Char → List String → String
join separator [] = ""
join separator (piece ∷ []) = piece
join separator (piece ∷ q ∷ pieces) =
    append piece (String.◌∷◌ separator (join separator (q ∷ pieces)))

-- Whether a character stands in a text.
abbrev pub has_code : ℕ → String → Bool
has_code separator String.[] = false
has_code separator (String.◌∷◌ c s) = code c == separator || has_code separator s
