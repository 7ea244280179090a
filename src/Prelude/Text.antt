-- ===== src/Prelude/Text.antt =====
-- Go's `strings` functions on texts: a text is a native `String`, a list of Unicode code points.
-- A Go string that is not valid UTF-8 is no such text.
use Prim.Native.Nat.{ℕ, ◌+◌}
use Prim.Native.Char.{code}
use Prim.Native.String.{String, ◌++◌ as append}
use mathlib.Core.Path.{◌≡◌, refl}
use mathlib.Core.Bool.{Bool, true, false, ◌&&◌, ◌||◌}
use mathlib.Core.Option.{Option, none, some}
use mathlib.Core.List.{List, [], ◌∷◌}
use text.Mathlib.Text.{◌==◌ as str_eq}
use publish_carousel.Prelude.Tests.{leb, ◌==◌, if◌then◌else◌}

abbrev pub text_eq : String → String → Bool
text_eq s t = str_eq s t

-- The pieces of a message, one after the other.
unfoldable pub concat : List String → String
concat [] = ""
concat (s ∷ ss) = append s (concat ss)

-- The code points of a text.
abbrev pub codes : String → List ℕ
codes String.[] = []
codes (String.◌∷◌ c s) = code c ∷ codes s

-- `unicode.IsSpace`: the characters with the property White_Space.
unfoldable pub is_space : ℕ → Bool
is_space c =
    (leb 9 c && leb c 13)
    || c == 32
    || c == 0x85
    || c == 0xa0
    || c == 0x1680
    || (leb 0x2000 c && leb c 0x200a)
    || c == 0x2028
    || c == 0x2029
    || c == 0x202f
    || c == 0x205f
    || c == 0x3000

unfoldable pub trim_left : String → String
unfolding is_space
trim_left String.[] = String.[]
trim_left (String.◌∷◌ c s) = if is_space (code c) then trim_left s else String.◌∷◌ c s

unfoldable pub trim_right : String → String
unfolding is_space
trim_right String.[] = String.[]
trim_right (String.◌∷◌ c s) =
    let rest = trim_right s in
    if text_eq rest "" && is_space (code c) then String.[] else String.◌∷◌ c rest

-- `strings.TrimSpace`.
unfoldable pub trim_space : String → String
unfolding trim_left trim_right
trim_space s = trim_right (trim_left s)

-- The test `strings.TrimSpace(s) == ""`.
unfoldable pub is_blank : String → Bool
unfolding trim_space
is_blank s = text_eq (trim_space s) ""

-- `unicode.ToLower`, exact wherever the result is an ASCII character: besides A to Z these are
-- U+0130 and U+212A. The others stay as they are, since the program only compares with ASCII words.
unfoldable pub lower : ℕ → ℕ
lower c =
    if leb 65 c && leb c 90
    then c + 32
    else if c == 0x130
    then 105
    else if c == 0x212a
    then 107
    else c

-- `strings.ToLower`, as code points.
unfoldable pub to_lower : List ℕ → List ℕ
unfolding lower
to_lower [] = []
to_lower (c ∷ s) = lower c ∷ to_lower s

unfoldable pub codes_eq : List ℕ → List ℕ → Bool
codes_eq [] [] = true
codes_eq [] (d ∷ t) = false
codes_eq (c ∷ s) [] = false
codes_eq (c ∷ s) (d ∷ t) = c == d && codes_eq s t

-- The test `strings.ToLower(s) == word`.
unfoldable pub lowers_to : String → String → Bool
unfolding to_lower codes_eq
lowers_to s word = codes_eq (to_lower (codes s)) (codes word)

unfoldable pub starts_with : String → String → Bool
starts_with String.[] s = true
starts_with (String.◌∷◌ c word) String.[] = false
starts_with (String.◌∷◌ c word) (String.◌∷◌ d s) = code c == code d && starts_with word s

abbrev push_front : String → Option String → Option String
push_front s none = none
push_front s (some t) = some (append s t)

-- The text before the first occurrence of a word (`strings.Index` and a slice); none without one.
unfoldable pub before : String → String → Option String
unfolding starts_with
before word String.[] = if starts_with word "" then some "" else none
before word (String.◌∷◌ c s) =
    let rest = before word s in
    if starts_with word (String.◌∷◌ c s) then some "" else push_front (String.◌∷◌ c String.[]) rest

test_before : before "/cycles" "https://x/y/cycles/1" ≡ some "https://x/y"
unfolding before
test_before = refl

test_trim : trim_space " a b\n " ≡ "a b"
unfolding trim_space
test_trim = refl

test_lower : lowers_to "ThrottledWholeCollection" "throttledwholecollection" ≡ true
unfolding lowers_to
test_lower = refl
