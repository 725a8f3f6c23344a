-- ===== src/Prelude/Texts.antt =====
-- The methods of Python's `str` that the program uses. `lower` folds the letters A to Z.
use Prim.Native.Nat.{ℕ, zero, suc, ◌-◌}
use Prim.Native.Char.{Char, code}
use Prim.Native.String
use Prim.Native.String.{String, [], ◌∷◌, slice}
use mathlib.Core.Bool.{Bool, true, false, ◌&&◌, ◌||◌}
use mathlib.Core.Option.{none, some}
use mathlib.Core.List.{List, [], ◌∷◌}
use text.Mathlib.Text.{◌==◌, find?}
use agentopia.Prelude.Tests.{leb, if◌then◌else◌}

abbrev pub within : ℕ → ℕ → ℕ → Bool
within a n b = leb a n && leb n b

-- `needle in s`
abbrev pub occurs_in : String → String → Bool
occurs_in needle s = elim (find? s needle) [ none ↦ false | some _ ↦ true ]

-- `any(needle in s for needle in needles)`
abbrev pub any_occurs : List String → String → Bool
any_occurs [] s = false
any_occurs (n ∷ ns) s = if occurs_in n s then true else any_occurs ns s

abbrev lower_of : ℕ → String
lower_of n = slice "abcdefghijklmnopqrstuvwxyz" (n - 65) (n - 64)

-- `s.lower()`
unfoldable pub lower : String → String
lower [] = []
lower (c ∷ s) = String.◌++◌ (if within 65 (code c) 90 then lower_of (code c) else c ∷ []) (lower s)

abbrev is_space : ℕ → Bool
is_space n =
    within 9 n 13
    || within 28 n 32
    || within 133 n 133
    || within 160 n 160
    || within 5760 n 5760
    || within 8192 n 8202
    || within 8232 n 8233
    || within 8239 n 8239
    || within 8287 n 8287
    || within 12288 n 12288

abbrev drop_left : String → String
drop_left [] = []
drop_left (c ∷ s) = let rest = drop_left s in if is_space (code c) then rest else c ∷ s

abbrev drop_right : String → String
drop_right [] = []
drop_right (c ∷ s) =
    let rest = drop_right s in if rest == "" && is_space (code c) then "" else c ∷ rest

-- `s.strip()`
unfoldable pub strip : String → String
strip s = drop_right (drop_left s)

abbrev push_first : Char → List String → List String
push_first c [] = (c ∷ []) ∷ []
push_first c (p ∷ ps) = (c ∷ p) ∷ ps

-- `s.rstrip(…)` of the character with the code n
unfoldable pub strip_end : ℕ → String → String
strip_end n [] = []
strip_end n (c ∷ s) =
    let rest = strip_end n s in if rest == "" && within n (code c) n then "" else c ∷ rest

-- `s.split(…)` at the character with the code n: one part more than there are such characters
unfoldable pub split_at : ℕ → String → List String
split_at n [] = "" ∷ []
split_at n (c ∷ s) =
    let rest = split_at n s in if within n (code c) n then "" ∷ rest else push_first c rest

-- `parts[-1]`
abbrev pub last_part : List String → String
last_part [] = ""
last_part (p ∷ []) = p
last_part (p ∷ q ∷ ps) = last_part (q ∷ ps)

-- `s[:n]`
unfoldable pub take_chars : ℕ → String → String
take_chars zero s = []
take_chars (suc n) [] = []
take_chars (suc n) (c ∷ s) = c ∷ take_chars n s

-- `s.replace(…)` of the character with the code n
unfoldable pub replace_char : ℕ → String → String → String
replace_char n new [] = []
replace_char n new (c ∷ s) =
    String.◌++◌ (if within n (code c) n then new else c ∷ []) (replace_char n new s)

-- `len(s.encode())`
abbrev pub bytes : String → ℕ
bytes s = String.len s

-- What `read_text` makes of the line ends of a file: each of "\r\n" and "\r" is read as "\n".
unfoldable pub universal_newlines : String → String
universal_newlines [] = []
universal_newlines (c ∷ []) = if within 13 (code c) 13 then "\n" else c ∷ []
universal_newlines (c ∷ d ∷ s) =
    let rest = universal_newlines (d ∷ s) in
    if within 13 (code c) 13
    then (if within 10 (code d) 10 then rest else String.◌++◌ "\n" rest)
    else c ∷ rest
