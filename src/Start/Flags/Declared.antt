-- ===== src/Start/Flags/Declared.antt =====
-- main.go: the settings come from the flags that are declared, at their types.
use publish_carousel.Prelude.{◌≡◌, arith, All}
use publish_carousel.Start.Flags.{flags, Context, value_of, read_options}

-- Two command lines that give each declared flag the same value, at the type it is declared with, are
-- read as the same settings: whatever the action of the program asks for is a flag of that name and
-- that type.
pub read_options-declared :
    (a b : Context)
    → All (λ f. value_of a f.flag_type f.name ≡ value_of b f.flag_type f.name) flags
    → read_options a ≡ read_options b
unfolding read_options flags
read_options-declared a b h = ground arith
