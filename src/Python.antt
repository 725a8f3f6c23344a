-- ===== src/Python.antt =====
-- Exceptions as values, and Python's reading of a dictionary: what a function returns or raises.
use agentopia.Prelude.{
  ℕ, ltb, ◌≡◌, refl, ap, eq_iff, String, Option, none, some, Bool, true, false, List, [], ◌∷◌, ◌<>◌,
  ◌==◌,
}
use agentopia.Prelude.Json.{arr, bool, num, Json, null, str, obj, find_field}

-- The exception classes that the program raises or tells apart in an `except`.
pub data Kind : Type 0 where
  value key attribute type_mismatch integrity os assertion runtime : Kind
  tool_permission network_egress shell_safety sandbox_denied execution_limit timeout
        timeout_expired :
      Kind
  write_boundary file_write input_validation : Kind

pub record Exception : Type 0 where
  pub kind : Kind
  pub message : String

pub data Except {ℓ} (A : Type ℓ) : Type ℓ where
  ok : A → Except A
  raise : Exception → Except A

infixl 5 ◌>>=◌ ◌>>◌
abbrev pub ◌>>=◌ {ℓ κ} : {A : Type ℓ} {B : Type κ} → Except A → (A → Except B) → Except B
ok a >>= f = f a
raise e >>= f = raise e

abbrev pub ◌>>◌ {ℓ κ} : {A : Type ℓ} {B : Type κ} → Except A → Except B → Except B
m >> k = m >>= λ _. k

abbrev pub exception : Kind → String → Exception
exception k m = record { kind = k; message = m }

abbrev pub value_error : String → Exception
value_error m = exception Kind.value m

-- What `int` makes of a text: n, or -1 - n.
pub data ℤ : Type 0 where
  pos negsuc : ℕ → ℤ

-- `length > limit`, for a limit that is not negative
abbrev pub exceeds : ℕ → ℤ → Bool
exceeds limit (pos n) = ltb limit n
exceeds limit (negsuc n) = false

-- `str(KeyError(k))` is the quoted key, for a key with no quote or backslash in it.
abbrev pub key_error : String → Exception
key_error k = exception Kind.key ("'" <> k <> "'")

abbrev pub attribute_error : String → Exception
attribute_error m = exception Kind.attribute m

abbrev pub or_raise {ℓ} : {A : Type ℓ} → Option A → Exception → Except A
or_raise none e = raise e
or_raise (some a) e = ok a

abbrev pub guard : Bool → Exception → Except (Unit {0})
guard true e = ok tt
guard false e = raise e

-- `v.get(k)` and `v.get(k, d)`: only a dictionary has the method.
abbrev pub get_or : Json → String → Json → Except Json
get_or (obj fs) k d = elim (find_field k fs) [ none ↦ ok d | some v ↦ ok v ]
get_or _ k d = raise (attribute_error "object has no attribute 'get'")

abbrev pub get : Json → String → Except Json
get v k = get_or v k null

-- `v[k]` at a text `k`.
abbrev pub index : Json → String → Except Json
index (obj fs) k = or_raise (find_field k fs) (key_error k)
index _ k = raise (exception Kind.type_mismatch "indices must be integers")

-- `v == s` at a text `s`.
abbrev pub is_text : String → Json → Bool
is_text s (str t) = t == s
is_text s _ = false

-- `sep.join(texts)`
abbrev pub join : String → List String → String
join sep [] = ""
join sep (s ∷ []) = s
join sep (s ∷ t ∷ ts) = s <> sep <> join sep (t ∷ ts)

-- Inversion of a bind that returns.
pub bind-ok {ℓ κ} :
    {A : Type ℓ} {B : Type κ} (m : Except A) (f : A → Except B) {b : B}
    → (m >>= f) ≡ ok b
    → (a : A) × (m ≡ ok a) × (f a ≡ ok b)
bind-ok (ok a) f h = (a, refl, h)
bind-ok (raise e) f h = absurd (cc)

pub guard-ok : (b : Bool) (e : Exception) → guard b e ≡ ok tt → b ≡ true
guard-ok true e h = refl
guard-ok false e h = absurd (cc)

pub is_text-eq : (s : String) (v : Json) → is_text s v ≡ true → v ≡ str s
is_text-eq s (str t) h = ap str ((eq_iff t s).0 h)
is_text-eq s null h = absurd (cc)
is_text-eq s (bool b) h = absurd (cc)
is_text-eq s (num n) h = absurd (cc)
is_text-eq s (arr js) h = absurd (cc)
is_text-eq s (obj fs) h = absurd (cc)
