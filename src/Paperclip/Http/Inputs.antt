-- ===== src/Paperclip/Http/Inputs.antt =====
-- scripts/input_validation.py: no control characters in the texts of a request.
use agentopia.Prelude.{ℕ, suc, String, Bool, true, false, not, ◌&&◌, ◌||◌, ◌<>◌, if◌then◌else◌, ltb}
use agentopia.Prelude.Texts.{within}
use agentopia.Prelude.Json.{
  Json, null, bool, num, str, arr, obj, Items, nil, cons, Fields, end, field,
}
use agentopia.Python.{Except, ok, raise, ◌>>◌, exception, Kind}
use Prim.Native.Char.{code}

abbrev is_disallowed : ℕ → Bool
is_disallowed n = ltb n 32 && not (within 9 n 10 || within 13 n 13)

-- `_contains_disallowed_control_chars`
unfoldable pub contains_disallowed_control_chars : String → Bool
contains_disallowed_control_chars String.[] = false
contains_disallowed_control_chars (String.◌∷◌ c s) =
    let rest = contains_disallowed_control_chars s in if is_disallowed (code c) then true else rest

-- `str` of a number is a parameter.
module _ (show : ℕ → String) where
  unfoldable mutual
    pub validate_strings : Json → String → Except (Unit {0})
    validate_strings null path = ok tt
    validate_strings (bool b) path = ok tt
    validate_strings (num n) path = ok tt
    validate_strings (str s) path =
        if contains_disallowed_control_chars s
        then raise (exception Kind.input_validation ("invalid control character in " <> path))
        else ok tt
    validate_strings (obj fs) path = validate_fields fs path
    validate_strings (arr js) path = validate_items js 0 path

    pub validate_fields : Fields → String → Except (Unit {0})
    validate_fields end path = ok tt
    validate_fields (field k v fs) path =
        let rest = validate_fields fs path in validate_strings v (path <> "." <> k) >> rest

    pub validate_items : Items → ℕ → String → Except (Unit {0})
    validate_items nil n path = ok tt
    validate_items (cons j js) n path =
        let rest = validate_items js (suc n) path in
        validate_strings j (path <> "[" <> show n <> "]") >> rest
