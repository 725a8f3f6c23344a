-- ===== src/Prelude/Equality.antt =====
-- Python's `==` on values: numbers and booleans are compared as numbers, dictionaries without the
-- order of their keys.
use Prim.Native.Nat.{ℕ, suc}
use Prim.Native.String.{String}
use mathlib.Core.Path.{◌≡◌, ap}
use mathlib.Core.Bool.{Bool, true, false, ◌&&◌}
use mathlib.Core.Option.{none, some}
use text.Mathlib.Text.{◌==◌}
use text.Mathlib.TextEquality.{eq_iff}
use agentopia.Prelude.Tests.{leb}
use agentopia.Prelude.Json.{
  Json, null, bool, num, str, arr, obj, Items, nil, cons, Fields, end, field, find_field,
}

abbrev same_number : ℕ → ℕ → Bool
same_number m n = leb m n && leb n m

abbrev as_number : Bool → ℕ
as_number true = 1
as_number false = 0

abbrev count_fields : Fields → ℕ
count_fields end = 0
count_fields (field k v fs) = suc (count_fields fs)

-- Every key of the first has the same value in the second.
unfoldable mutual
  pub same : Json → Json → Bool
  same null null = true
  same (bool b) (bool c) = same_number (as_number b) (as_number c)
  same (bool b) (num n) = same_number (as_number b) n
  same (num m) (bool c) = same_number m (as_number c)
  same (num m) (num n) = same_number m n
  same (str s) (str t) = s == t
  same (arr js) (arr ks) = same_items js ks
  same (obj fs) (obj gs) = same_number (count_fields fs) (count_fields gs) && fields_in fs gs
  same _ _ = false

  pub same_items : Items → Items → Bool
  same_items nil nil = true
  same_items (cons j js) (cons k ks) = same j k && same_items js ks
  same_items _ _ = false

  pub fields_in : Fields → Fields → Bool
  fields_in end gs = true
  fields_in (field k v fs) gs =
      elim (find_field k gs) [ none ↦ false | some w ↦ same v w ] && fields_in fs gs

-- Only a text is equal to a text.
pub same-str : (v : Json) (s : String) → same v (str s) ≡ true → v ≡ str s
unfolding same
same-str (str t) s h = ap str ((eq_iff t s).0 h)
same-str null s h = absurd (cc)
same-str (bool b) s h = absurd (cc)
same-str (num n) s h = absurd (cc)
same-str (arr js) s h = absurd (cc)
same-str (obj fs) s h = absurd (cc)
