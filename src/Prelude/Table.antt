-- ===== src/Prelude/Table.antt =====
-- A table with a text as its primary key, as rows in the order of insertion.
use Prim.Native.String.{String}
use mathlib.Core.Path.{◌≡◌, subst}
use mathlib.Core.Logic.{◌≢◌, inl, inr}
use mathlib.Core.Option.{Option, none, some}
use mathlib.Core.Option
use mathlib.Core.List.{List, [], ◌∷◌, ◌++◌}
use native.Mathlib.Omega.{arith}
use text.Mathlib.Text.{◌==◌}
use text.Mathlib.TextEquality.{eq_iff}
use text.Mathlib.TextPositions.{eq_refl}
use agentopia.Prelude.Tests.{if◌then◌else◌, Bool-cases}

abbrev pub Table {ℓ} : Type ℓ → Type ℓ
Table V = List (String × V)

module _ {ℓ} {V : Type ℓ} where
  -- SELECT … WHERE key = k
  unfoldable pub lookup : String → Table V → Option V
  lookup k [] = none
  lookup k ((j, v) ∷ t) = if j == k then some v else lookup k t

  -- UPDATE … WHERE key = k
  unfoldable pub update : String → (V → V) → Table V → Table V
  update k f [] = []
  update k f ((j, v) ∷ t) = (j, (if j == k then f v else v)) ∷ update k f t

  -- DELETE … WHERE key = k
  unfoldable pub remove : String → Table V → Table V
  remove k [] = []
  remove k ((j, v) ∷ t) = let rest = remove k t in if j == k then rest else (j, v) ∷ rest

  -- INSERT of a row whose key is new
  unfoldable pub append_row : String → V → Table V → Table V
  append_row k v t = t ++ (k, v) ∷ []

  -- INSERT OR REPLACE, which drops the old row
  unfoldable pub replace : String → V → Table V → Table V
  unfolding remove append_row
  replace k v t = append_row k v (remove k t)

  pub lookup-update :
      (k j : String) (f : V → V) (t : Table V)
      → lookup j (update k f t) ≡ (if k == j then Option.map f (lookup j t) else lookup j t)
  unfolding lookup update
  lookup-update k j f [] = ground arith
  lookup-update k j f ((i, v) ∷ t) =
      ground (arith, lookup-update k j f t, eq_iff i k, eq_iff i j, eq_iff k j)

  pub lookup-remove :
      (k j : String) (t : Table V) → lookup j (remove k t) ≡ (if k == j then none else lookup j t)
  unfolding lookup remove
  lookup-remove k j [] = ground arith
  lookup-remove k j ((i, v) ∷ t) =
      ground (arith, lookup-remove k j t, eq_iff i k, eq_iff i j, eq_iff k j)

  -- A row that is appended is seen where no row had its key.
  pub lookup-append_row :
      (k j : String) (v : V) (t : Table V)
      → lookup k t ≡ none
      → lookup j (append_row k v t) ≡ (if k == j then some v else lookup j t)
  unfolding lookup append_row
  lookup-append_row k j v [] h = ground arith
  lookup-append_row k j v ((i, w) ∷ t) h =
      ground (arith, lookup-append_row k j v t, eq_iff i k, eq_iff i j, eq_iff k j)

  pub lookup-replace :
      (k j : String) (v : V) (t : Table V)
      → lookup j (replace k v t) ≡ (if k == j then some v else lookup j t)
  unfolding replace
  lookup-replace k j v t = ground (
    arith,
    lookup-append_row k j v (remove k t),
    lookup-remove k k t,
    lookup-remove k j t,
    eq_iff k j,
    eq_iff k k,
  )

module _ {ℓ} {V : Type ℓ} where
  pub lookup-update_self :
      (k : String) (f : V → V) (t : Table V) {v : V}
      → lookup k t ≡ some v
      → lookup k (update k f t) ≡ some (f v)
  lookup-update_self k f t h = rw (lookup-update k k f t, eq_refl k, h)

  pub lookup-update_ne :
      (k j : String) (f : V → V) (t : Table V) → j ≢ k → lookup j (update k f t) ≡ lookup j t
  lookup-update_ne k j f t ne = ground (arith, lookup-update k j f t, eq_iff k j)

  pub lookup-replace_self : (k : String) (v : V) (t : Table V) → lookup k (replace k v t) ≡ some v
  lookup-replace_self k v t = rw (lookup-replace k k v t, eq_refl k)

  pub lookup-replace_ne :
      (k j : String) (v : V) (t : Table V) → j ≢ k → lookup j (replace k v t) ≡ lookup j t
  lookup-replace_ne k j v t ne = ground (arith, lookup-replace k j v t, eq_iff k j)

  pub lookup-remove_self : (k : String) (t : Table V) → lookup k (remove k t) ≡ none
  lookup-remove_self k t = rw (lookup-remove k k t, eq_refl k)

  pub lookup-remove_ne : (k j : String) (t : Table V) → j ≢ k → lookup j (remove k t) ≡ lookup j t
  lookup-remove_ne k j t ne = ground (arith, lookup-remove k j t, eq_iff k j)

  -- A property of every row.
  abbrev pub Every {κ} : (V → Type κ) → Table V → Type κ
  Every P [] = Unit
  Every P ((k, v) ∷ t) = P v × Every P t

module _ {ℓ κ} {V : Type ℓ} (P : V → Type κ) where
  pub Every-update :
      (k : String) (f : V → V) (t : Table V)
      → ((v : V) → P v → P (f v))
      → Every P t
      → Every P (update k f t)
  unfolding update
  Every-update k f [] keep h = tt
  Every-update k f ((j, v) ∷ t) keep h = elim (Bool-cases (j == k)) [
    | inl e ↦ rw e (keep v h.0, Every-update k f t keep h.1)
    | inr e ↦ rw e (h.0, Every-update k f t keep h.1)
  ]

  pub Every-append_row :
      (k : String) (v : V) (t : Table V) → P v → Every P t → Every P (append_row k v t)
  unfolding append_row
  Every-append_row k v [] p h = (p, tt)
  Every-append_row k v (r ∷ t) p h = (h.0, Every-append_row k v t p h.1)

  pub Every-remove : (k : String) (t : Table V) → Every P t → Every P (remove k t)
  unfolding remove
  Every-remove k [] h = tt
  Every-remove k ((j, v) ∷ t) h = elim (Bool-cases (j == k)) [
    | inl e ↦ rw e (Every-remove k t h.1)
    | inr e ↦ rw e (h.0, Every-remove k t h.1)
  ]

  pub Every-replace : (k : String) (v : V) (t : Table V) → P v → Every P t → Every P (replace k v t)
  unfolding replace
  Every-replace k v t p h = Every-append_row k v (remove k t) p (Every-remove k t h)

  -- A row that is found has the property.
  pub Every-lookup : (k : String) (t : Table V) {v : V} → Every P t → lookup k t ≡ some v → P v
  unfolding lookup
  Every-lookup k [] h e = absurd (cc)
  Every-lookup k ((j, w) ∷ t) h e = elim (Bool-cases (j == k)) [
    | inl same ↦ subst P {x = w} (ground arith) h.0
    | inr other ↦ Every-lookup k t h.1 (rw other at e)
  ]

module _ {ℓ κ} {V : Type ℓ} (P : V → Type κ) where
  -- Two updates of one key, where only the second restores the property.
  pub Every-update_twice :
      (k : String) (f g : V → V) (t : Table V)
      → ((v : V) → P v → P (g (f v)))
      → Every P t
      → Every P (update k g (update k f t))
  unfolding update
  Every-update_twice k f g [] keep h = tt
  Every-update_twice k f g ((j, v) ∷ t) keep h = elim (Bool-cases (j == k)) [
    | inl e ↦ rw e (keep v h.0, Every-update_twice k f g t keep h.1)
    | inr e ↦ rw e (h.0, Every-update_twice k f g t keep h.1)
  ]
