-- ===== src/Prelude/Json.antt =====
-- JSON values as the program holds them after `json.loads`: null, booleans, numbers, texts, lists
-- and dictionaries. Numbers are the non-negative integers.
use Prim.Native.Nat.{ℕ, zero, suc}
use Prim.Native.String.{String}
use mathlib.Core.Bool.{Bool, true, false, not}
use mathlib.Core.Option.{Option, none, some}
use mathlib.Core.List.{List, [], ◌∷◌}
use text.Mathlib.Text.{◌==◌}
use agentopia.Prelude.Tests.{if◌then◌else◌}

mutual
  pub data Json : Type 0 where
    null : Json
    bool : Bool → Json
    num : ℕ → Json
    str : String → Json
    arr : Items → Json
    obj : Fields → Json

  pub data Items : Type 0 where
    nil : Items
    cons : Json → Items → Items

  pub data Fields : Type 0 where
    end : Fields
    field : String → Json → Fields → Fields

abbrev pub items : Items → List Json
items nil = []
items (cons j js) = j ∷ items js

abbrev pub of_list : List Json → Items
of_list [] = nil
of_list (j ∷ js) = cons j (of_list js)

abbrev pub of_pairs : List (String × Json) → Fields
of_pairs [] = end
of_pairs ((k, v) ∷ ps) = field k v (of_pairs ps)

-- A dictionary literal.
abbrev pub dict : List (String × Json) → Json
dict ps = obj (of_pairs ps)

abbrev pub find_field : String → Fields → Option Json
find_field k end = none
find_field k (field j v fs) = if j == k then some v else find_field k fs

-- Python's truth value.
abbrev pub truthy : Json → Bool
truthy null = false
truthy (bool b) = b
truthy (num zero) = false
truthy (num (suc _)) = true
truthy (str s) = not (s == "")
truthy (arr nil) = false
truthy (arr (cons _ _)) = true
truthy (obj end) = false
truthy (obj (field _ _ _)) = true

-- `v or d`
abbrev pub or_else : Json → Json → Json
or_else v d = if truthy v then v else d

-- A text, or null where Python has `None`.
abbrev pub opt_str : Option String → Json
opt_str none = null
opt_str (some s) = str s

-- `d[k] = v`: a key that is there keeps its place.
abbrev pub set_field : String → Json → Fields → Fields
set_field k v end = field k v end
set_field k v (field j w fs) = if j == k then field j v fs else field j w (set_field k v fs)

-- `{**d, **e}`
abbrev pub merge : Fields → Fields → Fields
merge fs end = fs
merge fs (field k v gs) = merge (set_field k v fs) gs
