-- ===== src/Prelude/TextTests.antt =====
-- Runs of the text functions.
use agentopia.Prelude.{◌≡◌, refl, [], ◌∷◌, true}
use agentopia.Prelude.Texts.{lower, strip, split_at, take_chars, replace_char, occurs_in}

lower-run : lower "AbZz1" ≡ "abzz1"
unfolding lower
lower-run = refl

strip-run : strip "  a b \n" ≡ "a b"
unfolding strip
strip-run = refl

split_at-run : split_at 47 "/a//b" ≡ "" ∷ "a" ∷ "" ∷ "b" ∷ []
unfolding split_at
split_at-run = refl

replace_char-run : replace_char 10 "\\n" (take_chars 3 "a\nbc") ≡ "a\\nb"
unfolding replace_char take_chars
replace_char-run = refl

occurs_in-run : occurs_in "&&" "a && b" ≡ true
occurs_in-run = refl
