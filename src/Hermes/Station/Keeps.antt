-- ===== src/Hermes/Station/Keeps.antt =====
-- Invariants of a process, which a piece of work keeps whether it returns or raises.
use agentopia.Prelude.{ℕ, ◌≡◌, refl, String, List, Bool, true, false, if◌then◌else◌}
use agentopia.Python.{Except, ok, raise, Exception}
use agentopia.Hermes.Platform.{Files, Job}
use agentopia.Hermes.Station.Laws.{lift_step}
use agentopia.Hermes.Station.{
  Store, Station, Deployment, Work, pure, lift, work, view, edit, rescue, start, utcnow, ◌>>=◌,
}

abbrev pub Invariant : Type 1
Invariant = Station → Type 0

pub record Keeps {A : Type 0} (Q : Invariant) (m : Work A) : Type 0 where
  pub at : (s : Station) → Q s → Q (m s).1

-- What is known of a value that a piece of work returns.
pub record Gives {A : Type 0} (P : A → Type 0) (m : Work A) : Type 0 where
  pub at : (s : Station) (a : A) → (m s).0 ≡ ok a → P a

pub Gives-lift :
    {A : Type 0} {P : A → Type 0} (r : Except A) → ((a : A) → r ≡ ok a → P a) → Gives P (lift r)
unfolding lift
Gives-lift r k = record { at = λ s a e. k a e }

module _ {Q : Invariant} where
  pub Keeps-pure : {A : Type 0} (a : A) → Keeps Q (pure a)
  unfolding pure
  Keeps-pure a = record { at = λ s h. h }

  pub Keeps-lift : {A : Type 0} (r : Except A) → Keeps Q (lift r)
  unfolding lift
  Keeps-lift r = record { at = λ s h. h }

  pub Keeps-work :
      {A : Type 0} (m : Job A)
      → ((s : Station) → Q s → Q (record s { host = (m s.host).1 }))
      → Keeps Q (work m)
  unfolding work
  Keeps-work m k = record { at = k }

  pub Keeps-view : {A : Type 0} (f : Store → A) → Keeps Q (view f)
  unfolding view
  Keeps-view f = record { at = λ s h. h }

  pub Keeps-start :
      (d : Deployment) (arguments : List String)
      → ((s : Station) (fs : Files) (started : List (List String))
          → Q s
          → Q (record s { host = record s.host { files = fs }; processes = started }))
      → Keeps Q (start d arguments)
  unfolding start
  Keeps-start d arguments k = record { at = λ s h. k s _ _ h }

  pub Keeps-edit :
      (f : Store → Store)
      → ((s : Station) → Q s → Q (record s { store = f s.store }))
      → Keeps Q (edit f)
  unfolding edit
  Keeps-edit f k = record { at = k }

  pub Keeps-utcnow :
      (d : Deployment)
      → ((s : Station) (ticks : ℕ)
          → Q s
          → Q (record s { store = record s.store { ticks = ticks } }))
      → Keeps Q (utcnow d)
  unfolding utcnow
  Keeps-utcnow d k = record { at = λ s h. k s _ h }

  pub Keeps-if :
      {A : Type 0} (b : Bool) {m n : Work A} → Keeps Q m → Keeps Q n → Keeps Q (if b then m else n)
  Keeps-if true km kn = km
  Keeps-if false km kn = kn

  module _ {A B : Type 0} where
    -- The continuation may use what is known of the value.
    pub Keeps-given :
        {P : A → Type 0} (m : Work A) (f : A → Work B)
        → Gives P m
        → Keeps Q m
        → ((a : A) → P a → Keeps Q (f a))
        → Keeps Q (m >>= f)
    unfolding ◌>>=◌
    Keeps-given {P} m f gm km kf = record { at = λ s h. go s (m s).0 (gm.at s) (km.at s h) }
      where
        go :
            (s : Station) (r : Except A)
            → ((a : A) → r ≡ ok a → P a)
            → Q (m s).1
            → Q (((λ (z : Station). (r, (m s).1)) >>= f) s).1
        go s (ok a) known h = (kf a (known a refl)).at (m s).1 h
        go s (raise e) known h = h

    pub Keeps-bind :
        {m : Work A} {f : A → Work B} → Keeps Q m → ((a : A) → Keeps Q (f a)) → Keeps Q (m >>= f)
    Keeps-bind {m} {f} km kf =
        Keeps-given {P = λ a. Unit} m f (record { at = λ s a e. tt }) km (λ a known. kf a)

  -- What comes after a value that is known.
  pub Keeps-known :
      {A B : Type 0} (r : Except A) (f : A → Work B) {a : A}
      → r ≡ ok a
      → Keeps Q (f a)
      → Keeps Q (lift r >>= f)
  Keeps-known r f e k = record { at = λ s h. rw (lift_step f r s e) (k.at s h) }

  pub Keeps-rescue :
      {A : Type 0} {m : Work A} {handler : Exception → Work A}
      → Keeps Q m
      → ((e : Exception) → Keeps Q (handler e))
      → Keeps Q (rescue m handler)
  unfolding rescue
  Keeps-rescue {A} {m} {handler} km kh = record { at = λ s h. go (m s).0 (m s).1 (km.at s h) }
    where
      go : (r : Except A) (s' : Station) → Q s' → Q (rescue (λ (z : Station). (r, s')) handler s').1
      go (ok a) s' h = h
      go (raise e) s' h = (kh e).at s' h
