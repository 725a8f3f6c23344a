-- ===== src/Hermes/Redaction/Laws.antt =====
-- What redaction hides, and what it keeps.
use agentopia.Prelude.{
  ◌≡◌, ◌↔◌, eq_iff, refl, ap, String, true, false, Option, none, some, Bool-cases, inl, inr, arith,
  if◌then◌else◌,
}
use mathlib.Core.Path.{subst}
use agentopia.Prelude.Json.{
  Json, null, bool, num, str, arr, obj, Items, nil, cons, Fields, end, field, find_field,
}
use agentopia.Hermes.Redaction.{
  is_sensitive_key, redact_value, redact_items, redact_fields, redacted,
}

-- Two values that differ at most in what stands under sensitive keys.
mutual
  pub data Agree : Json → Json → Type 0 where
    alike : (v : Json) → Agree v v
    lists : {js ks : Items} → AgreeItems js ks → Agree (arr js) (arr ks)
    dicts : {fs gs : Fields} → AgreeFields fs gs → Agree (obj fs) (obj gs)

  pub data AgreeItems : Items → Items → Type 0 where
    empty : AgreeItems nil nil
    both :
        {j k : Json} {js ks : Items}
        → Agree j k
        → AgreeItems js ks
        → AgreeItems (cons j js) (cons k ks)

  pub data AgreeFields : Fields → Fields → Type 0 where
    done : AgreeFields end end
    hidden :
        {k : String} {v w : Json} {fs gs : Fields}
        → is_sensitive_key k ≡ true
        → AgreeFields fs gs
        → AgreeFields (field k v fs) (field k w gs)
    shown :
        {k : String} {v w : Json} {fs gs : Fields}
        → Agree v w
        → AgreeFields fs gs
        → AgreeFields (field k v fs) (field k w gs)

mutual
  unfolding redact_value redact_items redact_fields

  redact-Agree : {v w : Json} → Agree v w → redact_value v ≡ redact_value w
  redact-Agree (alike v) = refl
  redact-Agree (lists h) = ap arr (redact-AgreeItems h)
  redact-Agree (dicts h) = ap obj (redact-AgreeFields h)

  redact-AgreeItems : {js ks : Items} → AgreeItems js ks → redact_items js ≡ redact_items ks
  redact-AgreeItems empty = refl
  redact-AgreeItems (both h hs) = rw (redact-Agree h, redact-AgreeItems hs)

  redact-AgreeFields : {fs gs : Fields} → AgreeFields fs gs → redact_fields fs ≡ redact_fields gs
  redact-AgreeFields done = refl
  redact-AgreeFields (hidden secret hs) = rw (secret, redact-AgreeFields hs)
  redact-AgreeFields (shown h hs) = rw (redact-Agree h, redact-AgreeFields hs)

same_shown :
    (k j : String) (v w : Json)
    → k ≡ j
    → is_sensitive_key k ≡ false
    → (if is_sensitive_key k then str redacted else redact_value v)
      ≡ (if is_sensitive_key j then str redacted else redact_value w)
    → redact_value v ≡ redact_value w
same_shown k j v w key plain e = ground (arith, ap is_sensitive_key key)

mutual
  unfolding redact_value redact_items redact_fields

  Agree-redact : (v w : Json) → redact_value v ≡ redact_value w → Agree v w
  Agree-redact null null e = alike null
  Agree-redact (bool b) (bool c) e = subst (Agree (bool b)) {x = bool b} (cc) (alike (bool b))
  Agree-redact (num m) (num n) e = subst (Agree (num m)) {x = num m} (cc) (alike (num m))
  Agree-redact (str s) (str t) e = subst (Agree (str s)) {x = str s} (cc) (alike (str s))
  Agree-redact (arr js) (arr ks) e = lists (AgreeItems-redact js ks (cc))
  Agree-redact (obj fs) (obj gs) e = dicts (AgreeFields-redact fs gs (cc))
  Agree-redact _ _ e = absurd (cc)

  AgreeItems-redact : (js ks : Items) → redact_items js ≡ redact_items ks → AgreeItems js ks
  AgreeItems-redact nil nil e = empty
  AgreeItems-redact (cons j js) (cons k ks) e =
      both (Agree-redact j k (cc)) (AgreeItems-redact js ks (cc))
  AgreeItems-redact _ _ e = absurd (cc)

  AgreeFields-redact : (fs gs : Fields) → redact_fields fs ≡ redact_fields gs → AgreeFields fs gs
  AgreeFields-redact end end e = done
  AgreeFields-redact (field k v fs) (field j w gs) e =
      let key : k ≡ j = cc in
      let rest : AgreeFields fs gs = AgreeFields-redact fs gs (cc) in
      subst (λ (j : String). AgreeFields (field k v fs) (field j w gs)) key
        (elim (Bool-cases (is_sensitive_key k)) [
          | inl secret ↦ hidden secret rest
          | inr plain ↦ shown (Agree-redact v w (same_shown k j v w key plain (cc))) rest
        ])
  AgreeFields-redact _ _ e = absurd (cc)

-- Two values are written out as the same exactly when they differ at most in what stands under
-- sensitive keys.
pub redact_value_iff : (v w : Json) → Agree v w ↔ (redact_value v ≡ redact_value w)
redact_value_iff v w = (redact-Agree, Agree-redact v w)

abbrev pub map_value : Option Json → Option Json
map_value none = none
map_value (some v) = some (redact_value v)

-- A field of a dictionary that is written out.
pub find_field-redact :
    (k : String) (fs : Fields)
    → is_sensitive_key k ≡ false
    → find_field k (redact_fields fs) ≡ map_value (find_field k fs)
unfolding redact_fields
find_field-redact k end plain = refl
find_field-redact k (field j v fs) plain =
    ground (arith, find_field-redact k fs plain, eq_iff j k, ap is_sensitive_key)
