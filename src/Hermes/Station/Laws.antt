-- ===== src/Hermes/Station/Laws.antt =====
-- How pieces of work go together.
use agentopia.Prelude.{◌≡◌, refl, ap}
use agentopia.Python.{Except, ok, raise, Exception}
use agentopia.Hermes.Platform.{Job, Host}
use agentopia.Hermes.Station.{Station, Work, lift, work, ◌>>=◌}

module _ {A B : Type 0} (f : A → Work B) where
  abbrev continue : Except A × Station → Except B × Station
  continue p = elim p.0 [ ok a ↦ f a p.1 | raise e ↦ (raise e, p.1) ]

  -- A step that is known to return.
  pub work_step :
      (m : Work A) (s : Station) {a : A} {s' : Station} → m s ≡ (ok a, s') → (m >>= f) s ≡ f a s'
  unfolding ◌>>=◌
  work_step m s e = ap continue e

  -- A step that is known to raise.
  pub work_stop :
      (m : Work A) (s : Station) {e : Exception} {s' : Station}
      → m s ≡ (raise e, s')
      → (m >>= f) s ≡ (raise e, s')
  unfolding ◌>>=◌
  work_stop m s e = ap continue e

  pub lift_step : (r : Except A) (s : Station) {a : A} → r ≡ ok a → (lift r >>= f) s ≡ f a s
  unfolding lift
  lift_step r s e = work_step (lift r) s (ap (λ r. (r, s)) e)

  pub job_step :
      (m : Job A) (s : Station) {a : A} {h : Host}
      → m s.host ≡ (ok a, h)
      → (work m >>= f) s ≡ f a (record s { host = h })
  unfolding work
  job_step m s e = work_step (work m) s (ap (λ p. (p.0, record s { host = p.1 })) e)

-- Inversion of a bind that returns.
pub work_ok :
    {A B : Type 0} (m : Work A) (f : A → Work B) (s : Station) {b : B}
    → ((m >>= f) s).0 ≡ ok b
    → (a : A) × ((m s).0 ≡ ok a) × ((m >>= f) s ≡ f a (m s).1)
unfolding ◌>>=◌
work_ok {A} {B} m f s {b} e = go (m s).0 (m s).1 e
  where
    go :
        (r : Except A) (s' : Station)
        → (((λ (z : Station). (r, s')) >>= f) s).0 ≡ ok b
        → (a : A) × (r ≡ ok a) × (((λ (z : Station). (r, s')) >>= f) s ≡ f a s')
    go (ok a) s' e = (a, refl, refl)
    go (raise x) s' p = cc
