-- ===== src/Paperclip/Service/Establishes.antt =====
-- What holds of the database after a method has returned, by the steps of the method.
use agentopia.Prelude.{◌≡◌, refl, ap, Bool, true, false, if◌then◌else◌}
use agentopia.Python.{Except, ok, raise, Exception}
use agentopia.Paperclip.Db.{Tables}
use agentopia.Paperclip.Service.World.{
  World, Action, lift, ◌>>=◌, execute, execute_checked, run_checked, run_in_transaction,
}
use agentopia.Paperclip.Service.Keeps.{Keeps}

pub record Establishes {A : Type 0} (Q : Tables → Type 0) (m : Action A) : Type 0 where
  pub at : (w : World) (a : A) → (m w).0 ≡ ok a → Q (m w).1.live

-- Inversion of a bind that returns.
pub bind_ok :
    {A B : Type 0} (m : Action A) (f : A → Action B) (w : World) {b : B}
    → ((m >>= f) w).0 ≡ ok b
    → (a : A) × ((m w).0 ≡ ok a) × ((m >>= f) w ≡ f a (m w).1)
unfolding ◌>>=◌
bind_ok {A} {B} m f w {b} h = go (m w).0 (m w).1 h
  where
    go :
        (r : Except A) (w' : World)
        → (((λ (v : World). (r, w')) >>= f) w).0 ≡ ok b
        → (a : A) × (r ≡ ok a) × (((λ (v : World). (r, w')) >>= f) w ≡ f a w')
    go (ok a) w' e = (a, refl, refl)
    go (raise e) w' p = cc

module _ {Q : Tables → Type 0} {A B : Type 0} where
  pub Establishes-later :
      (m : Action A) {f : A → Action B} → ((a : A) → Establishes Q (f a)) → Establishes Q (m >>= f)
  Establishes-later m {f} ef = record { at = λ w b h. later w b h (bind_ok m f w h) }
    where
      later :
          (w : World) (b : B)
          → ((m >>= f) w).0 ≡ ok b
          → (a : A) × ((m w).0 ≡ ok a) × ((m >>= f) w ≡ f a (m w).1)
          → Q ((m >>= f) w).1.live
      later w b h (a, e, same) = rw same ((ef a).at (m w).1 b (rw same at h))

  pub Establishes-first :
      {m : Action A} {f : A → Action B}
      → Establishes Q m
      → ((a : A) → Keeps Q (f a))
      → Establishes Q (m >>= f)
  Establishes-first {m} {f} em kf = record { at = λ w b h. first w (bind_ok m f w h) }
    where
      first :
          (w : World)
          → (a : A) × ((m w).0 ≡ ok a) × ((m >>= f) w ≡ f a (m w).1)
          → Q ((m >>= f) w).1.live
      first w (a, e, same) = rw same ((kf a).at (m w).1 (em.at w a e))

module _ {Q : Tables → Type 0} where
  pub Establishes-execute :
      (f : Tables → Tables) → ((t : Tables) → Q (f t)) → Establishes Q (execute f)
  unfolding execute
  Establishes-execute f h = record { at = λ w a e. h w.live }

  pub Establishes-run_in_transaction :
      (f : Tables → Tables) → ((t : Tables) → Q (f t)) → Establishes Q (run_in_transaction f)
  unfolding run_in_transaction
  Establishes-run_in_transaction f h = record { at = λ w a e. h w.live }

  pub Establishes-if :
      {A : Type 0} (b : Bool) {m n : Action A}
      → Establishes Q m
      → Establishes Q n
      → Establishes Q (if b then m else n)
  Establishes-if true em en = em
  Establishes-if false em en = en

module _ {Q : Tables → Type 0} {A B : Type 0} where
  -- After a check that did not raise, its value is known.
  pub Establishes-lift :
      (r : Except A) {f : A → Action B}
      → ((a : A) → r ≡ ok a → Establishes Q (f a))
      → Establishes Q (lift r >>= f)
  unfolding lift ◌>>=◌
  Establishes-lift (ok a) ef = record { at = λ w b h. (ef a refl).at w b h }
  Establishes-lift (raise e) ef = record { at = λ w b h. absurd (cc) }

-- A write that a constraint may refuse.
pub Establishes-execute_checked :
    {Q : Tables → Type 0} (f : Tables → Except Tables)
    → ((t t' : Tables) → f t ≡ ok t' → Q t')
    → Establishes Q (execute_checked f)
unfolding execute_checked
Establishes-execute_checked {Q} f k = record { at = λ w a h. go w (f w.live) refl h }
  where
    go :
        (w : World) (r : Except Tables)
        → f w.live ≡ r
        → {a : Unit {0}} → (run_checked w r).0 ≡ ok a
        → Q (run_checked w r).1.live
    go w (ok t) e h = k w.live t e
    go w (raise x) e h = absurd (cc)

-- A step that is known to return.
pub bind_step :
    {A B : Type 0} (m : Action A) (f : A → Action B) (w : World) {a : A} {w' : World}
    → m w ≡ (ok a, w')
    → (m >>= f) w ≡ f a w'
unfolding ◌>>=◌
bind_step {A} {B} m f w e =
    ap (λ (p : Except A × World). elim p.0 [ ok a ↦ f a p.1 | raise x ↦ (raise x, p.1) ]) e

-- A step that is known to raise.
pub bind_stop :
    {A B : Type 0} (m : Action A) (f : A → Action B) (w : World) {x : Exception} {w' : World}
    → m w ≡ (raise x, w')
    → (m >>= f) w ≡ (raise x, w')
unfolding ◌>>=◌
bind_stop {A} {B} m f w e =
    ap (λ (p : Except A × World). elim p.0 [ ok a ↦ f a p.1 | raise x ↦ (raise x, p.1) ]) e
