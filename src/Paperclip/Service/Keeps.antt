-- ===== src/Paperclip/Service/Keeps.antt =====
-- Invariants of the database that a method keeps whether it returns or raises, with a rule for each
-- way in which a method is built.
use agentopia.Prelude.{
  ℕ, ◌≡◌, refl, String, Option, none, some, Bool, true, false, List, if◌then◌else◌,
}
use agentopia.Prelude.Json.{Json}
use agentopia.Python.{Except, ok, raise, Exception}
use agentopia.Paperclip.Db.{Tables}
use agentopia.Paperclip.Service.World.{
  World, Surroundings, Action, pure, throw, lift, query, catch, ◌>>=◌, ◌>>◌, execute, run_checked,
  execute_checked, run_in_transaction, read_clock, utcnow, now_or, trace, submit, persist_result,
  delete_task_storage, actions,
}
use agentopia.Paperclip.Service.Queue.{get_view, require_task, require_item}

pub record Keeps {A : Type 0} (Q : Tables → Type 0) (m : Action A) : Type 0 where
  pub at : (w : World) → Q w.live → Q (m w).1.live

module _ {Q : Tables → Type 0} where
  pub Keeps-pure : {A : Type 0} (a : A) → Keeps Q (pure a)
  unfolding pure
  Keeps-pure a = record { at = λ w h. h }

  pub Keeps-throw : {A : Type 0} (e : Exception) → Keeps Q (throw {A = A} e)
  unfolding throw
  Keeps-throw e = record { at = λ w h. h }

  pub Keeps-lift : {A : Type 0} (r : Except A) → Keeps Q (lift r)
  unfolding lift
  Keeps-lift r = record { at = λ w h. h }

  pub Keeps-query : {A : Type 0} (f : Tables → A) → Keeps Q (query f)
  unfolding query
  Keeps-query f = record { at = λ w h. h }

  pub Keeps-execute : (f : Tables → Tables) → ((t : Tables) → Q t → Q (f t)) → Keeps Q (execute f)
  unfolding execute
  Keeps-execute f k = record { at = λ w h. k w.live h }

  pub Keeps-run_in_transaction :
      (f : Tables → Tables) → ((t : Tables) → Q t → Q (f t)) → Keeps Q (run_in_transaction f)
  unfolding run_in_transaction
  Keeps-run_in_transaction f k = record { at = λ w h. k w.live h }

  Keeps-run_checked :
      (w : World) (r : Except Tables)
      → ((t : Tables) → r ≡ ok t → Q t)
      → Q w.live
      → Q (run_checked w r).1.live
  Keeps-run_checked w (ok t) k h = k t refl
  Keeps-run_checked w (raise e) k h = h

  pub Keeps-execute_checked :
      (f : Tables → Except Tables)
      → ((t t' : Tables) → Q t → f t ≡ ok t' → Q t')
      → Keeps Q (execute_checked f)
  unfolding execute_checked
  Keeps-execute_checked f k = record {
    at = λ w h. Keeps-run_checked w (f w.live) (λ t e. k w.live t h e) h;
  }

  module _ {A B : Type 0} where
    bind_at :
        (r : Except A) (w : World) (f : A → Action B)
        → ((a : A) → Keeps Q (f a))
        → Q w.live
        → Q (((λ (w' : World). (r, w')) >>= f) w).1.live
    unfolding ◌>>=◌
    bind_at (ok a) w f kf h = (kf a).at w h
    bind_at (raise e) w f kf h = h

    pub Keeps-bind :
        {m : Action A} {f : A → Action B}
        → Keeps Q m
        → ((a : A) → Keeps Q (f a))
        → Keeps Q (m >>= f)
    unfolding ◌>>=◌
    Keeps-bind {m} {f} km kf = record { at = λ w h. bind_at (m w).0 (m w).1 f kf (km.at w h) }

    pub Keeps-then : {m : Action A} {k : Action B} → Keeps Q m → Keeps Q k → Keeps Q (m >> k)
    Keeps-then km kk = Keeps-bind km (λ _. kk)

  module _ {A : Type 0} where
    catch_at :
        (r : Except A) (w : World) (g : Exception → Action A)
        → ((e : Exception) → Keeps Q (g e))
        → Q w.live
        → Q (catch (λ (w' : World). (r, w')) g w).1.live
    unfolding catch
    catch_at (ok a) w g kg h = h
    catch_at (raise e) w g kg h = (kg e).at w h

    pub Keeps-catch :
        {m : Action A} {g : Exception → Action A}
        → Keeps Q m
        → ((e : Exception) → Keeps Q (g e))
        → Keeps Q (catch m g)
    unfolding catch
    Keeps-catch {m} {g} km kg = record { at = λ w h. catch_at (m w).0 (m w).1 g kg (km.at w h) }

    pub Keeps-if :
        (b : Bool) {m n : Action A} → Keeps Q m → Keeps Q n → Keeps Q (if b then m else n)
    Keeps-if true km kn = km
    Keeps-if false km kn = kn

    pub Keeps-option :
        {B : Type 0} (o : Option B) {m : Action A} {f : B → Action A}
        → Keeps Q m
        → ((b : B) → Keeps Q (f b))
        → Keeps Q (elim o [ none ↦ m | some b ↦ f b ])
    Keeps-option none km kf = km
    Keeps-option (some b) km kf = kf b

  pub Keeps-get_view : (id : String) → Keeps Q (get_view id)
  unfolding get_view query
  Keeps-get_view id = record { at = λ w h. h }

  pub Keeps-require_task : (id : String) → Keeps Q (require_task id)
  unfolding require_task actions
  Keeps-require_task id = record { at = λ w h. h }

  pub Keeps-require_item : (id : String) → Keeps Q (require_item id)
  unfolding require_item actions
  Keeps-require_item id = record { at = λ w h. h }

  pub Keeps-persist_result : (id : String) (j : Json) → Keeps Q (persist_result id j)
  unfolding persist_result
  Keeps-persist_result id j = record { at = λ w h. h }

  pub Keeps-delete_task_storage : (id : String) → Keeps Q (delete_task_storage id)
  unfolding delete_task_storage
  Keeps-delete_task_storage id = record { at = λ w h. h }

  module _ (env : Surroundings) where
    pub Keeps-utcnow : Keeps Q (utcnow env)
    unfolding utcnow
    Keeps-utcnow = record { at = λ w h. h }

    pub Keeps-now_or : (o : Option ℕ) → Keeps Q (now_or env o)
    unfolding now_or pure read_clock
    Keeps-now_or none = record { at = λ w h. h }
    Keeps-now_or (some now) = record { at = λ w h. h }

    pub Keeps-trace :
        (id service event : String) (fields : List (String × Json))
        → Keeps Q (trace env id service event fields)
    unfolding trace
    Keeps-trace id service event fields = record { at = λ w h. h }

    pub Keeps-submit : (payload : Json) (c : Option String) → Keeps Q (submit env payload c)
    unfolding submit
    Keeps-submit payload c = record { at = λ w h. h }
